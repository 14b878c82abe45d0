-- ===== src/Shard/Create.antt =====
-- `handleCreate` of shard/worker.js.
pub mod Refresh
use nex_talk_relay.Base.{
  Text, codes, to_lower, ℕ, Bool, true, false, not, ◌&&◌, ◌||◌, Option, none, some, [], ◌∷◌, ◌++◌,
  keep, if◌then◌else◌, ◌==◌,
}
use nex_talk_relay.Js.{
  Json, undefined, null, bool, num, str, arr, Number, get, truthy, is_string, is_array, elements,
  from_list, to_text, object,
}
use nex_talk_relay.Platform.{Platform, Mailbox, Stored, mailbox, as_mailbox}
use nex_talk_relay.Platform.Exec.{Outcome, value, reply, throw, pure, lift, stop_if, ◌>>=◌, ◌>>◌}
use nex_talk_relay.Platform.Http.{Request, Response, bad_request, err, err_with, json, retry_after}
use nex_talk_relay.Platform.World.{Run, now, kv_get, kv_put}
use nex_talk_relay.Shard.{Env, Cfg}
use nex_talk_relay.Shard.Limits.{client_ip, rate_limit}
use nex_talk_relay.Shard.Crypto.{
  is_hex_string, is_hex_value, lower_case, to_number, verify_capability, verify_capability_v2,
}

-- `mailbox:${id}`
unfoldable pub mailbox_key : Text → Text
mailbox_key id = codes "mailbox:" ++ id

-- What `handleCreate` reads from its body.
pub record CreateRequest : Type 0 where
  pub mailbox_id : Text
  pub read_secret_hash : Text
  pub cap_exp : Number
  pub cap_sig : Text
  -- `Number(cap_version) === 2`
  pub is_v2 : Bool
  pub client_pubkey : Json
  pub cap_nonce : Text
  pub replica_shard_urls : Json

abbrev pub is_two : Number → Bool
is_two none = false
is_two (some n) = n == 2

abbrev pub is_finite : Number → Bool
is_finite none = false
is_finite (some n) = true

module _ (p : Platform) where
  -- the tests on the form of the body
  unfoldable pub parse_create : Option Json → Outcome CreateRequest
  parse_create none = reply (bad_request (codes "Request body must be valid JSON"))
  parse_create (some body) =
      let mailbox_id = get (codes "mailbox_id") body in
      let read_secret_hash = get (codes "read_secret_hash") body in
      let cap_exp = get (codes "cap_exp") body in
      let cap_sig = get (codes "cap_sig") body in
      let client_pubkey = get (codes "client_pubkey") body in
      let cap_nonce = get (codes "cap_nonce") body in
      let is_v2 = is_two (to_number p (get (codes "cap_version") body)) in
      if not (is_hex_string 16 128 mailbox_id)
      then reply (bad_request (codes "mailbox_id must be a hex string"))
      else if not (is_hex_string 64 64 read_secret_hash)
      then reply (bad_request (codes "read_secret_hash must be a 64-char hex SHA-256 digest"))
      else if not (truthy cap_exp && is_finite (to_number p cap_exp))
      then reply (bad_request (codes "cap_exp is required"))
      else if not (truthy cap_sig && is_string cap_sig)
      then reply (bad_request (codes "cap_sig is required"))
      else if is_v2 && not (is_hex_value 64 64 client_pubkey)
      then reply (bad_request (codes "client_pubkey must be 64-char hex for v2 capability"))
      else if is_v2 && not (truthy cap_nonce && is_string cap_nonce)
      then reply (bad_request (codes "cap_nonce is required for v2 capability"))
      else value (record {
        mailbox_id = to_text mailbox_id;
        read_secret_hash = to_text read_secret_hash;
        cap_exp = to_number p cap_exp;
        cap_sig = to_text cap_sig;
        is_v2 = is_v2;
        client_pubkey = client_pubkey;
        cap_nonce = to_text cap_nonce;
        replica_shard_urls = get (codes "replica_shard_urls") body;
      })

  -- `capOk` at the time `t`
  unfoldable pub check_capability : Env → ℕ → CreateRequest → Outcome Bool
  check_capability env t r =
      if r.is_v2
      then verify_capability_v2 p t (to_lower r.mailbox_id) r.client_pubkey (codes "mailbox.create")
          r.cap_exp r.cap_nonce r.cap_sig env.router_signing_public
      else value (
          verify_capability p t (to_lower r.mailbox_id) (to_lower r.read_secret_hash) r.cap_exp
            r.cap_sig env.router_signing_public)

-- `safeReplicas`
unfoldable pub safe_replicas : CreateRequest → Json
safe_replicas r = arr (from_list (keep is_string (elements r.replica_shard_urls)))

-- What replaces a stored record that is no JSON.
abbrev pub blank_mailbox : ℕ → Mailbox
blank_mailbox t = record {
  read_secret_hash = [];
  client_pubkey = undefined;
  messages = [];
  created_at = t;
  messages_enqueued_at = none;
  replica_shard_urls = undefined;
}

-- The stored record of a mailbox that exists, with the new secret, owner key and replicas.
unfoldable pub refreshed : CreateRequest → Json → Mailbox → Mailbox
refreshed r client m = record m {
  read_secret_hash = to_lower r.read_secret_hash;
  client_pubkey = if r.is_v2 then client else m.client_pubkey;
  replica_shard_urls = elim (elements (safe_replicas r)) [
    | [] ↦ m.replica_shard_urls
    | u ∷ us ↦ safe_replicas r
  ];
}

-- `clientPubkey.toLowerCase()` where a version 2 capability was used
unfoldable pub client_key : CreateRequest → Outcome Json
client_key r =
    if r.is_v2
    then elim (lower_case r.client_pubkey) [
      | value c ↦ value (str c)
      | reply e ↦ reply e
      | throw e ↦ throw e
    ]
    else value null

unfoldable pub created_mailbox : CreateRequest → Json → ℕ → Mailbox
created_mailbox r client t = record {
  read_secret_hash = to_lower r.read_secret_hash;
  client_pubkey = client;
  messages = [];
  created_at = t;
  messages_enqueued_at = none;
  replica_shard_urls = safe_replicas r;
}

abbrev pub create_result : Cfg → CreateRequest → Bool → Response
create_result cfg r created = json (
    object (
      (codes "mailbox_id", str (to_lower r.mailbox_id))
      ∷ (codes "expires_in", num cfg.mailbox_ttl_seconds)
      ∷ (codes "created", bool created)
      ∷ []))

abbrev pub parsed_or_blank : ℕ → Option Mailbox → Mailbox
parsed_or_blank t none = blank_mailbox t
parsed_or_blank t (some m) = m

-- What `handleCreate` stores over `existing`, and whether it is new.
unfoldable pub mailbox_after_create : CreateRequest → Json → ℕ → Option Stored → Mailbox × Bool
mailbox_after_create r client t none = (created_mailbox r client t, true)
mailbox_after_create r client t (some s) =
    (refreshed r client (parsed_or_blank t (as_mailbox s)), false)

module _ (p : Platform) where
  -- The part behind the capability and the rate limit.
  unfoldable pub store_with : Cfg → CreateRequest → Json → Run p Response
  store_with cfg r client = do
    let key = mailbox_key (to_lower r.mailbox_id)
    existing ← kv_get p key
    t ← now p
    let (m, created) = mailbox_after_create r client t existing
    kv_put p key (mailbox m) (some cfg.mailbox_ttl_seconds)
    pure (create_result cfg r created)

  unfoldable pub store_mailbox : Cfg → CreateRequest → Run p Response
  store_mailbox cfg r = do client ← lift (client_key r); store_with cfg r client

  unfoldable pub handle_create : Request → Env → Cfg → Run p Response
  handle_create request env cfg = do
    r ← lift (parse_create p request.body)
    t ← now p
    cap_ok ← lift (check_capability p env t r)
    stop_if (not cap_ok) (err (codes "invalid or expired Router capability") 401)
    ip_ok ← rate_limit p (codes "create-ip:" ++ client_ip request) cfg.max_creates_per_ip 60
    stop_if (not ip_ok)
        (err_with (codes "Too many create requests, slow down") 429 (retry_after (codes "60")))
    store_mailbox cfg r
