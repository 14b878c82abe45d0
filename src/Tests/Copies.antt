-- ===== src/Tests/Copies.antt =====
-- The theorems on copies and on the bound of the queues at concrete requests.
use nex_talk_relay.Base.{codes, to_lower, ◌+◌, ◌≡◌, ◌⊎◌, refl, some, [], ◌∷◌, ◌++◌, length, arith}
use nex_talk_relay.Js.{Json, undefined, str, object}
use nex_talk_relay.Platform.{Mailbox}
use nex_talk_relay.Platform.Exec.{value}
use nex_talk_relay.Platform.Http.{Request}
use nex_talk_relay.Platform.World.{World}
use nex_talk_relay.Shard.{defaults}
use nex_talk_relay.Shard.Frame.{view, SameMailboxes}
use nex_talk_relay.Shard.Replicate.{
  ReplicateRequest, parse_replicate, handle_replicate, store_replica, deduped,
}
use nex_talk_relay.Shard.Replicate.Copies.{store_replica_twice, store_replica-unbounded}
use nex_talk_relay.Shard.Replicate.Trust.{IsTrusted, handle_replicate-trusted}
use nex_talk_relay.Shard.Capacity.{IsBounded, IsBounded-write}
use nex_talk_relay.Shard.Capacity.Steps.{Reach, send, wait, here, next, Reach-IsBounded}
use nex_talk_relay.Shard.Send.{handle_send}
use nex_talk_relay.Tests.Host.{host, host_laws, at_time, empty}
use nex_talk_relay.Tests.Handlers.{program, id, box, key64, sig128, send_request, env, w}

abbrev entry : Json
entry = object ((codes "id", str (codes "m2")) ∷ (codes "message", str (codes "hi")) ∷ [])

abbrev copy : ReplicateRequest
copy = record {
  mailbox_id = id;
  entry = entry;
  replica_shard_urls = undefined;
  origin_pubkey = str key64;
  timestamp = str (codes "5000");
  signature = sig128;
  unsigned = undefined;
}

abbrev stored_once : World host
stored_once = (store_replica host defaults copy w).1

abbrev later : World host
later = record stored_once { time = 9000 }

store_replica_twice_example : store_replica host defaults copy later ≡ (value deduped, later)
unfolding program
store_replica_twice_example =
    store_replica_twice host host_laws defaults copy (codes "m2") w later refl refl (omega arith)
      (omega arith) refl

store_replica-unbounded_example :
    (n : Mailbox) × (view host stored_once (to_lower id) ≡ some n)
    × (n.messages ≡ box.messages ++ entry ∷ [])
    × (length n.messages ≡ length box.messages + 1)
unfolding program
store_replica-unbounded_example =
    store_replica-unbounded host host_laws defaults copy (codes "m2") w box refl refl refl
      (omega arith)

abbrev copy_request : Request
copy_request = record send_request {
  body = some (
      object (
        (codes "mailbox_id", str id)
        ∷ (codes "entry", entry)
        ∷ (codes "origin_shard_pubkey", str key64)
        ∷ (codes "timestamp", str (codes "5000"))
        ∷ (codes "signature", str sig128)
        ∷ []));
}

handle_replicate-trusted_example :
    SameMailboxes host w (handle_replicate host copy_request env defaults w).1
    ⊎ ((r : ReplicateRequest) × (parse_replicate copy_request.body ≡ value r)
        × IsTrusted host host_laws defaults r w)
handle_replicate-trusted_example =
    handle_replicate-trusted host host_laws defaults copy_request env w

empty-IsBounded : IsBounded host host_laws defaults (at_time 2000 empty)
empty-IsBounded = record { at = λ u id m le found. absurd (ground arith) }

stored-IsBounded : IsBounded host host_laws defaults w
unfolding program
stored-IsBounded = record {
  at = λ u j m le found.
      (IsBounded-write host host_laws defaults (at_time 2000 empty) (record w { time = 2000 }) id
          box (some 1_000_000) refl refl (omega arith) empty-IsBounded).at
        u j m (omega arith) found;
}

abbrev after_send : World host
after_send = (handle_send host send_request env defaults (record w { time = w.time + 7 })).1

sent-Reach : Reach host host_laws defaults w after_send
sent-Reach = next (next here (wait 7)) (send send_request env)

Reach-IsBounded_example : IsBounded host host_laws defaults after_send
Reach-IsBounded_example = Reach-IsBounded host host_laws defaults sent-Reach stored-IsBounded
