-- ===== src/Combined/Create.antt =====
-- `localCreate`, `createOnReplica` and `handleCreate` of combined/worker.js.
use nex_talk_relay.Base.{
  Text, codes, to_lower, Bool, true, false, not, Option, none, some, ◌++◌, if◌then◌else◌,
}
use nex_talk_relay.Js.{str}
use nex_talk_relay.Platform.{Platform, Fetched, unreachable, answered, mailbox}
use nex_talk_relay.Platform.Exec.{Outcome, value, reply, pure, lift, stop_if, ◌>>=◌, ◌>>◌}
use nex_talk_relay.Platform.Http.{Request, Response, err, err_with, retry_after}
use nex_talk_relay.Platform.World.{Run, now, kv_get, kv_put, fetch}
use nex_talk_relay.Combined.{NodeEnv, shard_env, is_self}
use nex_talk_relay.Router.Enroll.{Capability, create_body, url_array, url_text}
use nex_talk_relay.Shard.{Cfg}
use nex_talk_relay.Shard.Admin.{is_ok}
use nex_talk_relay.Shard.Create.{
  CreateRequest, mailbox_key, parse_create, check_capability, client_key, mailbox_after_create,
  create_result,
}
use nex_talk_relay.Shard.Crypto.{sha256_hex}
use nex_talk_relay.Shard.Limits.{client_ip, rate_limit}

abbrev pub is_created : Fetched → Bool
is_created (unreachable e) = false
is_created (answered status body) = is_ok status

-- `!result.ok`, or `result.created`
abbrev pub create_answer : Cfg → CreateRequest → Option Bool → Outcome Response
create_answer cfg r none = reply (err (codes "invalid or expired Router capability") 401)
create_answer cfg r (some created) = value (create_result cfg r created)

abbrev pub succeeded : Option Bool → Bool
succeeded none = false
succeeded (some created) = true

module _ (p : Platform) where
  -- The part behind the capability.
  unfoldable pub store_locally : Cfg → CreateRequest → Run p Bool
  store_locally cfg r = do
    client ← lift (client_key r)
    let key = mailbox_key (to_lower r.mailbox_id)
    existing ← kv_get p key
    t ← now p
    let (m, created) = mailbox_after_create r client t existing
    kv_put p key (mailbox m) (some cfg.mailbox_ttl_seconds)
    pure created

  -- `none` where the capability is not good, and otherwise whether the mailbox is new
  unfoldable pub local_create : NodeEnv → Cfg → CreateRequest → Run p (Option Bool)
  local_create env cfg r = do
    t ← now p
    ok ← lift (check_capability p (shard_env env) t r)
    if ok then (do created ← store_locally cfg r; pure (some created)) else pure none

  -- What `createOnReplica` reads back from `createBody`.
  unfoldable pub own_request : Capability → CreateRequest
  own_request c = record {
    mailbox_id = c.mailbox_id;
    read_secret_hash = sha256_hex p c.read_secret;
    cap_exp = some c.cap_exp;
    cap_sig = c.cap_sig;
    is_v2 = true;
    client_pubkey = str c.client;
    cap_nonce = c.cap_nonce;
    replica_shard_urls = url_array c.replicas;
  }

  -- Only the request to another node catches its failure.
  unfoldable pub create_on_replica : NodeEnv → Cfg → Capability → Option Text → Run p Bool
  create_on_replica env cfg c url =
      if is_self env url
      then (do res ← local_create env cfg (own_request c); pure (succeeded res))
      else (do
        answer ← fetch p (url_text url ++ codes "/create") (create_body p c)
        pure (is_created answer))

  -- The rate limit counts, and `clientPubkey.toLowerCase()` is called, before the capability is tested.
  -- The key in lower case is the same to `local_create`, which lowers it itself.
  unfoldable pub node_create : Request → NodeEnv → Cfg → Run p Response
  node_create request env cfg = do
    r ← lift (parse_create p request.body)
    ip_ok ← rate_limit p (codes "create-ip:" ++ client_ip request) cfg.max_creates_per_ip 60
    stop_if (not ip_ok)
        (err_with (codes "Too many create requests, slow down") 429 (retry_after (codes "60")))
    lift (client_key r)
    result ← local_create env cfg r
    lift (create_answer cfg r result)
