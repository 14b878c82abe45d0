-- ===== src/Shard/Read.antt =====
-- `handleRead` of shard/worker.js.
pub mod Consumption
pub mod Handler
pub mod Answers
use nex_talk_relay.Base.{
  Text, codes, same, to_lower, ℕ, Bool, true, false, not, ◌&&◌, Option, none, some, List, [], ◌∷◌,
  ◌++◌, length, if◌then◌else◌,
}
use nex_talk_relay.Encoding.{constant_time_equal}
use nex_talk_relay.Js.{Json, bool, num, arr, from_list, object}
use nex_talk_relay.Js.Regex.{is_hex}
use nex_talk_relay.Platform.{Platform, Mailbox, mailbox}
use nex_talk_relay.Platform.Exec.{Outcome, value, reply, throw, pure, lift, stop_if, ◌>>=◌, ◌>>◌}
use nex_talk_relay.Platform.Http.{Request, Response, search_param, err, err_with, json, retry_after}
use nex_talk_relay.Platform.World.{Run, now, kv_put}
use nex_talk_relay.Shard.{Env, Cfg}
use nex_talk_relay.Shard.Limits.{client_ip, rate_limit}
use nex_talk_relay.Shard.Crypto.{sha256_hex}
use nex_talk_relay.Shard.Create.{mailbox_key}
use nex_talk_relay.Shard.Exists.{mailbox_id_param}
use nex_talk_relay.Shard.Send.{drop_stale, load_mailbox, respond}

-- What `handleRead` reads from the query.
pub record ReadRequest : Type 0 where
  pub mailbox_id : Text
  pub read_secret : Text
  pub peek : Bool
  pub request_id : Option Text

abbrev pub is_one : Option Text → Bool
is_one none = false
is_one (some t) = same t (codes "1")

-- An empty parameter counts as none.
abbrev pub non_empty : Option Text → Option Text
non_empty none = none
non_empty (some []) = none
non_empty (some (c ∷ t)) = some (c ∷ t)

abbrev pub secret_param : Option Text → Outcome Text
secret_param none = reply (err (codes "read_secret required") 400)
secret_param (some t) = value t

unfoldable pub parse_read : Request → Outcome ReadRequest
parse_read request = elim (mailbox_id_param (search_param (codes "mailbox_id") request)) [
  | reply e ↦ reply e
  | throw e ↦ throw e
  | value id ↦ elim (secret_param (non_empty (search_param (codes "read_secret") request))) [
    | reply e ↦ reply e
    | throw e ↦ throw e
    | value secret ↦ value (record {
      mailbox_id = id;
      read_secret = secret;
      peek = is_one (search_param (codes "peek") request);
      request_id = non_empty (search_param (codes "request_id") request);
    })
  ]
]

-- The queue is emptied unless the reader only peeks.
unfoldable pub consume : Bool → Mailbox → Mailbox
consume peek m = if peek then m else record m { messages = []; messages_enqueued_at = none }

unfoldable pub read_result : Bool → Mailbox → Json
read_result peek m = object (
    (codes "messages", arr (from_list m.messages))
    ∷ (codes "count", num (length m.messages))
    ∷ (codes "createdAt", num m.created_at)
    ∷ (codes "consumed", bool (not peek))
    ∷ [])

module _ (p : Platform) where
  -- The part behind the rate limit, up to the signing of the response: the mailbox as it was read.
  unfoldable pub take_messages : Cfg → ReadRequest → Run p Mailbox
  take_messages cfg r = do
    let key = mailbox_key (to_lower r.mailbox_id)
    stored ← load_mailbox p key
    stop_if (not (constant_time_equal (sha256_hex p r.read_secret) stored.read_secret_hash))
        (err (codes "invalid read_secret") 401)
    t ← now p
    let current = drop_stale cfg t stored
    kv_put p key (mailbox (consume r.peek current)) (some cfg.mailbox_ttl_seconds)
    pure current

  abbrev pub has_request_id : Option Text → Bool
  has_request_id none = false
  has_request_id (some t) = true

  abbrev pub request_id_text : Option Text → Text
  request_id_text none = []
  request_id_text (some t) = t

  unfoldable pub handle_read : Request → Env → Cfg → Run p Response
  handle_read request env cfg = do
    r ← lift (parse_read request)
    ip_ok ← rate_limit p (codes "read-ip:" ++ client_ip request) 300 60
    stop_if (not ip_ok)
        (err_with (codes "Too many read requests, slow down") 429 (retry_after (codes "60")))
    current ← take_messages cfg r
    respond p (has_request_id r.request_id) (request_id_text r.request_id)
        (read_result r.peek current)
