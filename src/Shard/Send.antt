-- ===== src/Shard/Send.antt =====
-- `handleSend` of shard/worker.js.
pub mod Delivery
pub mod Rejection
use nex_talk_relay.Base.{
  Text, codes, to_lower, ℕ, ◌≤◌, Bool, true, false, not, ◌&&◌, Option, none, some, List, [], ◌∷◌,
  ◌++◌, length, decimal, leb, ltb, if◌then◌else◌,
}
use nex_talk_relay.Encoding.{utf8}
use nex_talk_relay.Js.{
  Json, bool, num, str, Number, get, truthy, is_string, is_array, elements, to_text, object,
}
use nex_talk_relay.Platform.{Platform, Mailbox, Stored, mailbox, as_mailbox}
use nex_talk_relay.Platform.Exec.{Outcome, value, reply, pure, lift, stop_if, ◌>>=◌, ◌>>◌}
use nex_talk_relay.Platform.Http.{Request, Response, bad_request, err, err_with, json, retry_after}
use nex_talk_relay.Platform.World.{Run, now, kv_get, kv_put, random_hex, wait_until, replicate}
use nex_talk_relay.Shard.{Env, Cfg}
use nex_talk_relay.Shard.Limits.{client_ip, rate_limit, is_backlog_stale}
use nex_talk_relay.Shard.Crypto.{is_hex_string, ◌∶◌, sha256_hex, verify_sender_auth}
use nex_talk_relay.Shard.Keys.{build_shard_signed_response}
use nex_talk_relay.Shard.Envelope.{validate_envelope_shape}
use nex_talk_relay.Shard.Create.{mailbox_key}

-- What `handleSend` reads from its body.
pub record SendRequest : Type 0 where
  pub mailbox_id : Text
  pub message : Text
  pub sender : Json
  pub sender_pubkey : Text
  pub request_id : Json

-- the tests on the form of the body
unfoldable pub parse_send : Cfg → Option Json → Outcome SendRequest
parse_send cfg none = reply (bad_request (codes "Request body must be valid JSON"))
parse_send cfg (some body) =
    let mailbox_id = get (codes "mailbox_id") body in
    let message = get (codes "message") body in
    let sender = get (codes "sender") body in
    let sender_pubkey = get (codes "pubkey") sender in
    if not (is_hex_string 16 128 mailbox_id)
    then reply (bad_request (codes "mailbox_id must be a hex string"))
    else if not (truthy message && is_string message)
    then reply (bad_request (codes "message is required and must be a string"))
    else if ltb cfg.max_msg_bytes (length (utf8 (to_text message)))
    then reply (
        bad_request
          (codes "message exceeds " ++ (decimal cfg.max_msg_bytes ++ codes " byte limit")))
    else if not (is_hex_string 64 64 sender_pubkey)
    then reply
        (bad_request (codes "sender.pubkey must be a 64-char lowercase hex Ed25519 public key"))
    else value (record {
      mailbox_id = to_text mailbox_id;
      message = to_text message;
      sender = sender;
      sender_pubkey = to_text sender_pubkey;
      request_id = get (codes "request_id") body;
    })

-- The queue that has lain for the time to live is dropped.
unfoldable pub drop_stale : Cfg → ℕ → Mailbox → Mailbox
drop_stale cfg t m =
    if is_backlog_stale t m.messages_enqueued_at cfg.ttl_seconds
    then record m { messages = []; messages_enqueued_at = none }
    else m

-- `stored.messages.push(entry)`, with the time at which the queue began
unfoldable pub enqueue : ℕ → Json → Mailbox → Mailbox
enqueue t entry m = record m {
  messages = m.messages ++ entry ∷ [];
  messages_enqueued_at = elim m.messages_enqueued_at [ none ↦ some t | some since ↦ some since ];
}

-- `newEntry`
unfoldable pub new_entry : Text → ℕ → SendRequest → Json
new_entry id t r = object (
    (codes "id", str id)
    ∷ (codes "time", num t)
    ∷ (codes "message", str r.message)
    ∷ (codes "senderPubkey", str (to_lower r.sender_pubkey))
    ∷ [])

-- `Array.isArray(urls) && urls.length > 1`
unfoldable pub has_siblings : Json → Bool
has_siblings urls = is_array urls && ltb 1 (length (elements urls))

abbrev pub mailbox_full : Cfg → Response
mailbox_full cfg =
    err_with (codes "Mailbox is full (limit: " ++ (decimal cfg.max_messages ++ codes " messages)"))
      429 (retry_after (codes "3600"))

unfoldable pub send_result : Mailbox → Json
send_result m =
    object ((codes "success", bool true) ∷ (codes "queued", num (length m.messages)) ∷ [])

-- The envelope is tested only where the message is JSON.
unfoldable pub envelope_error : Option Json → Option Text
envelope_error none = none
envelope_error (some parsed) = validate_envelope_shape parsed

module _ (p : Platform) where
  unfoldable pub send_signed_message : SendRequest → Text
  send_signed_message r =
      codes "send"
      ∶ to_lower r.sender_pubkey
      ∶ to_lower r.mailbox_id
      ∶ to_text (get (codes "timestamp") r.sender)
      ∶ sha256_hex p r.message

  abbrev pub too_many : Text → Response
  too_many message = err_with message 429 (retry_after (codes "60"))

  -- Who sends, and how often: the authentication and the three rate limits.
  unfoldable pub admit_send : Request → Cfg → SendRequest → Run p Unit
  admit_send request cfg r = do
    auth_error ← verify_sender_auth p r.sender cfg.max_clock_skew (send_signed_message r)
    (elim auth_error [
      | some e ↦ lift (reply (err (codes "sender auth failed: " ++ e) 401))
      | none ↦ pure tt
    ])
    sender_ok ←
        rate_limit p (codes "send-sender:" ++ to_lower r.sender_pubkey) cfg.max_sends_per_sender 60
    stop_if (not sender_ok)
        (too_many (codes "Too many messages sent from this identity, slow down"))
    target_ok ←
        rate_limit p (codes "send-target:" ++ to_lower r.mailbox_id) cfg.max_sends_per_target 60
    stop_if (not target_ok) (too_many (codes "Too many messages to this recipient, slow down"))
    ip_ok ← rate_limit p (codes "send-ip:" ++ client_ip request) cfg.max_sends_per_ip 60
    stop_if (not ip_ok) (too_many (codes "Too many send requests, slow down"))
    (elim (envelope_error (p.parse r.message)) [
      | some e ↦ lift (reply (bad_request e))
      | none ↦ pure tt
    ])

  -- The stored mailbox at a key.
  unfoldable pub load_mailbox : Text → Run p Mailbox
  load_mailbox key = do
    raw ← kv_get p key
    (elim raw [
      | none ↦ lift (reply (err (codes "Mailbox not found or expired") 404))
      | some s ↦ elim (as_mailbox s) [
        | none ↦ lift (reply (err (codes "Internal storage error") 500))
        | some m ↦ pure m
      ]
    ])

  -- The new entry is stored, and its copies to the replicas are left to the background.
  unfoldable pub deliver : Cfg → SendRequest → Run p Mailbox
  deliver cfg r = do
    let key = mailbox_key (to_lower r.mailbox_id)
    stored ← load_mailbox key
    t ← now p
    let current = drop_stale cfg t stored
    stop_if (leb cfg.max_messages (length current.messages)) (mailbox_full cfg)
    id ← random_hex p 8
    let entry = new_entry id t r
    let next = enqueue t entry current
    kv_put p key (mailbox next) (some cfg.mailbox_ttl_seconds)
    let copies = replicate (to_lower r.mailbox_id) entry next.replica_shard_urls
    if has_siblings next.replica_shard_urls then wait_until p copies else pure tt
    pure next

  -- A response that carries the client's `request_id` is signed.
  unfoldable pub respond : Bool → Text → Json → Run p Response
  respond signed request_id result =
      if signed
      then (do wrapped ← build_shard_signed_response p request_id 200 result; pure (json wrapped))
      else pure (json result)

  unfoldable pub handle_send : Request → Env → Cfg → Run p Response
  handle_send request env cfg = do
    r ← lift (parse_send cfg request.body)
    admit_send request cfg r
    next ← deliver cfg r
    respond (truthy r.request_id && is_string r.request_id) (to_text r.request_id)
        (send_result next)
