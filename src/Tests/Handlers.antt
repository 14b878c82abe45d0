-- ===== src/Tests/Handlers.antt =====
-- The theorems on the handlers of a shard at concrete requests.
use nex_talk_relay.Base.{
  Text, codes, to_lower, ◌≡◌, ◌≢◌, refl, false, none, some, [], ◌∷◌, ◌++◌, number_digits, decimal,
  arith,
}
use nex_talk_relay.Encoding.{
  hex_to_bytes, bytes_to_hex, utf8, hex_char, diff_loop, constant_time_equal_bytes,
  constant_time_equal,
}
use nex_talk_relay.Js.{Json, undefined, null, str, arr, nil, object, get, to_text}
use nex_talk_relay.Js.Regex.{is_hex, is_hex_digit, is_digits}
use nex_talk_relay.Platform.{Mailbox, mailbox, number_of}
use nex_talk_relay.Platform.Exec.{value, reply}
use nex_talk_relay.Platform.Http.{Request, err, json, search_param}
use nex_talk_relay.Platform.World.{World, now, kv_get, kv_put, random_hex}
use nex_talk_relay.Shard.{Env, defaults}
use nex_talk_relay.Shard.Limits.{bucket_key, rate_limit, is_backlog_stale, client_ip}
use nex_talk_relay.Shard.Crypto.{
  is_hex_string, is_hex_value, lower_case, sha256_hex, verify_ed25519_message, replay_key,
  replay_ttl, check_sender, verify_sender_auth,
}
use nex_talk_relay.Shard.Crypto.Replay.{check, no_replay, replay_passes}
use nex_talk_relay.Shard.Create.{mailbox_key, client_key}
use nex_talk_relay.Shard.Frame.{view}
use nex_talk_relay.Shard.Send.{
  SendRequest, parse_send, admit_send, handle_send, drop_stale, enqueue, envelope_error,
  send_signed_message, deliver, load_mailbox, has_siblings, respond, new_entry,
}
use nex_talk_relay.Shard.Send.Delivery.{IsEntry, kept_messages, handle_send-accepts, next_entry}
use nex_talk_relay.Shard.Send.Rejection.{handle_send-rejects}
use nex_talk_relay.Shard.Exists.{mailbox_id_param}
use nex_talk_relay.Shard.Read.{ReadRequest, parse_read, handle_read}
use nex_talk_relay.Shard.Read.Handler.{handle_read-denied}
use nex_talk_relay.Shard.Read.Answers.{answer_of, handle_read-returns, send_then_read}
use nex_talk_relay.Shard.Replicate.{
  parse_replicate, store_replica, append_copy, load_or_shell, has_id, shell_mailbox,
}
use nex_talk_relay.Tests.Host.{Kv, host, host_laws, at_time, empty, kv_write}

unfoldable pub program : Unit {0}
unfolding is_hex_digit constant_time_equal_bytes hex_char diff_loop deliver load_mailbox
    has_siblings respond new_entry handle_send codes to_lower hex_to_bytes bytes_to_hex utf8
    constant_time_equal number_digits decimal get to_text is_hex is_digits number_of search_param
    now kv_get kv_put random_hex bucket_key rate_limit is_backlog_stale client_ip is_hex_string
    is_hex_value lower_case sha256_hex verify_ed25519_message replay_key replay_ttl check_sender
    verify_sender_auth mailbox_key view parse_send admit_send drop_stale envelope_error
    send_signed_message mailbox_id_param parse_read client_key store_replica append_copy
    load_or_shell has_id enqueue shell_mailbox parse_replicate
program = tt

abbrev pub key : Text
key = codes "00"

abbrev pub first_try : World host
first_try = (check host host_laws key (codes "5000") key (codes "m") 1000 (at_time 5000 empty)).1

abbrev pub second_try : World host
second_try = record first_try { time = 5001 }

-- A request that is stamped with 5 s and tried again a millisecond later, with a skew of 1 s.
no_replay_example :
    (check host host_laws key (codes "5000") key (codes "m") 1000 second_try).0 ≢ value none
unfolding program
no_replay_example =
    no_replay host host_laws key (codes "5000") key (codes "m") 1000 (at_time 5000 empty) second_try
      5000 refl (omega arith) refl (omega arith) refl

-- The default skew of half a minute: the request passes at 5 s, and again at 65 s.
replay_passes_example :
    (check host host_laws key
      (codes "35000")
      key
      (codes "m")
      30_000
      (record (check host host_laws key
        (codes "35000")
        key
        (codes "m")
        30_000
        (at_time 5000 empty)).1 { time = 65_000 })).0
    ≡ value none
unfolding program
replay_passes_example =
    replay_passes host host_laws key (codes "35000") key (codes "m") 30_000 (at_time 5000 empty)
      (omega arith) refl refl

abbrev pub id : Text
id = codes "00112233aabbccdd"

-- A mailbox that is read with the secret "k", with one message.
abbrev pub box : Mailbox
box = record {
  read_secret_hash = codes "6b";
  client_pubkey = null;
  messages = object ((codes "id", str (codes "m1")) ∷ []) ∷ [];
  created_at = 1000;
  messages_enqueued_at = some 2000;
  replica_shard_urls = arr nil;
}

abbrev pub stored : Kv
stored = kv_write empty 2000 (mailbox_key id) (mailbox box) (some 1_000_000)

abbrev pub key64 : Text
key64 = codes "00112233445566778899aabbccddeeff00112233445566778899aabbccddeeff"

abbrev pub sig128 : Text
sig128 =
    codes "00112233445566778899aabbccddeeff00112233445566778899aabbccddeeff"
    ++ codes "00112233445566778899aabbccddeeff00112233445566778899aabbccddeeff"

abbrev pub sender : Json
sender = object (
    (codes "pubkey", str key64)
    ∷ (codes "timestamp", str (codes "5000"))
    ∷ (codes "signature", str sig128)
    ∷ [])

abbrev pub send_request : Request
send_request = record {
  method = codes "POST";
  path = codes "/send";
  body = some (
      object (
        (codes "mailbox_id", str id)
        ∷ (codes "message", str (codes "hi"))
        ∷ (codes "sender", sender)
        ∷ []));
  query = [];
  connecting_ip = none;
  authorization = none;
}

abbrev pub parsed_send : SendRequest
parsed_send = record {
  mailbox_id = id;
  message = codes "hi";
  sender = sender;
  sender_pubkey = key64;
  request_id = undefined;
}

abbrev pub env : Env
env = record {
  router_signing_public = key64;
  router_shared_secret = none;
  router_url = none;
  self_url = none;
}

abbrev pub w : World host
w = at_time 5000 stored

abbrev pub admitted : World host
admitted = (admit_send host send_request defaults parsed_send w).1

handle_send-accepts_example :
    (n : Mailbox) × (view host (handle_send host send_request env defaults w).1 (to_lower id)
      ≡ some n)
    × (n.messages
        ≡ (drop_stale defaults 5000 box).messages ++ next_entry host admitted parsed_send ∷ [])
    × (n.read_secret_hash ≡ (drop_stale defaults 5000 box).read_secret_hash)
    × (view host (handle_send host send_request env defaults w).1 (codes "ff")
        ≡ view host w (codes "ff"))
unfolding program
handle_send-accepts_example =
    handle_send-accepts host host_laws send_request env defaults parsed_send w admitted box
      (codes "ff") (omega arith) refl refl refl (omega arith) (ground arith)

handle_send-rejects_example :
    view host (handle_send host (record send_request { body = none }) env defaults w).1 id
    ≡ view host w id
unfolding program
handle_send-rejects_example =
    handle_send-rejects host host_laws (record send_request { body = none }) env defaults w
      (err (codes "Request body must be valid JSON") 400) id refl

abbrev pub read_request : Request
read_request = record send_request {
  body = none;
  query = (codes "mailbox_id", id) ∷ (codes "read_secret", codes "k") ∷ [];
}

abbrev pub parsed_read : ReadRequest
parsed_read = record { mailbox_id = id; read_secret = codes "k"; peek = false; request_id = none }

abbrev pub limited : World host → World host
limited v = (rate_limit host (codes "read-ip:" ++ codes "unknown") 300 60 v).1

handle_read-returns_example :
    ((handle_read host read_request env defaults w).0
      ≡ value (json (answer_of false (kept_messages defaults 5000 box) 1000)))
    × (n : Mailbox) × (view host (handle_read host read_request env defaults w).1 (to_lower id)
        ≡ some n)
    × (n.messages ≡ [])
    × (n.read_secret_hash ≡ box.read_secret_hash)
unfolding program
handle_read-returns_example =
    handle_read-returns host host_laws read_request env defaults parsed_read w (limited w) box
      (omega arith) refl refl refl refl refl

abbrev pub wrong_request : Request
wrong_request = record read_request {
  query = (codes "mailbox_id", id) ∷ (codes "read_secret", codes "x") ∷ [];
}

handle_read-denied_example :
    ((handle_read host wrong_request env defaults w).0
      ≡ reply (err (codes "invalid read_secret") 401))
    × (view host (handle_read host wrong_request env defaults w).1 id ≡ view host w id)
unfolding program
handle_read-denied_example =
    handle_read-denied host host_laws wrong_request env defaults
      (record parsed_read { read_secret = codes "x" }) w (limited w) box id refl refl refl refl

abbrev pub behind_send : World host
behind_send = (handle_send host send_request env defaults w).1

send_then_read_example :
    (entry : Json) × IsEntry 5000 parsed_send entry
    × ((handle_read host read_request env defaults behind_send).0
        ≡ value (json (answer_of false (kept_messages defaults 5000 box ++ entry ∷ []) 1000)))
    × (n : Mailbox) × (view host
          (handle_read host read_request env defaults behind_send).1
          (to_lower id)
        ≡ some n)
    × (n.messages ≡ [])
    × (n.read_secret_hash ≡ box.read_secret_hash)
unfolding program
send_then_read_example =
    send_then_read host host_laws read_request env defaults send_request parsed_send parsed_read w
      admitted (limited behind_send) box (omega arith) (omega arith) refl refl refl (omega arith)
      refl refl refl refl refl refl
