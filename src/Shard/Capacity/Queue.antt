-- ===== src/Shard/Capacity/Queue.antt =====
-- What a mailbox promises: a queue with a bound, whose messages come from sends, and which readers empty
-- (shard/worker.js).
pub mod Writes
pub mod Refines
use nex_talk_relay.Base.{
  Text, to_lower, ℕ, ◌+◌, ◌*◌, ◌<◌, ◌≡◌, refl, ap, ◌∙◌, Bool, true, false, ◌&&◌, Option, none, some,
  List, [], ◌∷◌, ◌++◌, length, leb, Option-cases, if◌then◌else◌, inl, inr, arith,
}
use nex_talk_relay.Js.{Json}
use nex_talk_relay.Platform.{Platform, Mailbox}
use nex_talk_relay.Platform.Exec.{value}
use nex_talk_relay.Platform.Http.{Request}
use nex_talk_relay.Shard.{Cfg}
use nex_talk_relay.Shard.Create.{CreateRequest, parse_create}
use nex_talk_relay.Shard.Limits.{is_backlog_stale}
use nex_talk_relay.Shard.Send.{SendRequest, parse_send, drop_stale, enqueue}
use nex_talk_relay.Shard.Send.Delivery.{IsEntry}
use nex_talk_relay.Shard.Read.{ReadRequest, parse_read, consume}

-- The messages, oldest first, and the time at which the queue began.
pub record Backlog : Type 0 where
  pub messages : List Json
  pub since : Option ℕ

-- `none` where there is no mailbox.
abbrev pub Queue : Type 0
Queue = Option Backlog

abbrev pub empty_backlog : Backlog
empty_backlog = record { messages = []; since = none }

-- A queue that began `TTL_SECONDS` ago has lapsed.
abbrev pub has_lapsed : ℕ → ℕ → Option ℕ → Bool
has_lapsed ttl t none = false
has_lapsed ttl t (some since) = leb since t && leb (since + 1000 * ttl) t

abbrev pub lapse : ℕ → ℕ → Backlog → Backlog
lapse ttl t q = if has_lapsed ttl t q.since then empty_backlog else q

-- A message comes last; the first one begins the queue.
abbrev pub append_message : ℕ → Json → Backlog → Backlog
append_message t e q = record {
  messages = q.messages ++ e ∷ [];
  since = elim q.since [ none ↦ some t | some s ↦ some s ];
}

-- A request to the shard.
pub data Act : Type 0 where
  sent asked created : Request → Act

module _ (p : Platform) (cfg : Cfg) (t : ℕ) (id : Text) where
  -- What a request at the time `t` can do to the queue of the mailbox `id`: nothing; or, where the request
  -- is a send to that mailbox, put one message last, which is that of the request, on what has not
  -- lapsed of fewer than `MAX_MESSAGES` messages; or, where it is a read of that mailbox, empty it, or, if
  -- it peeks, drop a lapsed queue; or, where it creates that mailbox and there is none, make it empty.
  pub data Step : Act → Queue → Queue → Type 0 where
    kept : (a : Act) (q : Queue) → Step a q q
    pushed :
        (request : Request) (r : SendRequest) (e : Json) (q : Backlog)
        → parse_send cfg request.body ≡ value r
        → to_lower r.mailbox_id ≡ id
        → IsEntry t r e
        → length (lapse cfg.ttl_seconds t q).messages < cfg.max_messages
        → Step (sent request) (some q) (some (append_message t e (lapse cfg.ttl_seconds t q)))
    taken :
        (request : Request) (r : ReadRequest) (q : Backlog)
        → parse_read request ≡ value r
        → to_lower r.mailbox_id ≡ id
        → Step
            (asked request)
            (some q)
            (some (if r.peek then lapse cfg.ttl_seconds t q else empty_backlog))
    made :
        (request : Request) (r : CreateRequest)
        → parse_create p request.body ≡ value r
        → to_lower r.mailbox_id ≡ id
        → Step (created request) none (some empty_backlog)

  -- One step for each request, in their order, the last request first in the list.
  pub data Steps (start : Queue) : List Act → Queue → Type 0 where
    done : Steps start [] start
    then_step :
        {as' : List Act} {q r : Queue} (a : Act)
        → Steps start as' q
        → Step a q r
        → Steps start (a ∷ as') r

abbrev pub backlog : Mailbox → Backlog
backlog m = record { messages = m.messages; since = m.messages_enqueued_at }

abbrev pub queue_of : Option Mailbox → Queue
queue_of none = none
queue_of (some m) = some (backlog m)

is_backlog_stale-lapsed :
    (t : ℕ) (since : Option ℕ) (ttl : ℕ) → is_backlog_stale t since ttl ≡ has_lapsed ttl t since
unfolding is_backlog_stale
is_backlog_stale-lapsed t none ttl = refl
is_backlog_stale-lapsed t (some since) ttl = ground arith

pub backlog-drop_stale :
    (cfg : Cfg) (t : ℕ) (m : Mailbox)
    → backlog (drop_stale cfg t m) ≡ lapse cfg.ttl_seconds t (backlog m)
unfolding drop_stale
backlog-drop_stale cfg t m =
    rw (is_backlog_stale-lapsed t m.messages_enqueued_at cfg.ttl_seconds)
      (either (has_lapsed cfg.ttl_seconds t m.messages_enqueued_at))
  where
    either :
        (b : Bool)
        → backlog (if b then record m { messages = []; messages_enqueued_at = none } else m)
          ≡ (if b then empty_backlog else backlog m)
    either true = refl
    either false = refl

pub backlog-consume :
    (peek : Bool) (m : Mailbox)
    → backlog (consume peek m) ≡ (if peek then backlog m else empty_backlog)
unfolding consume
backlog-consume true m = refl
backlog-consume false m = refl

pub backlog-enqueue :
    (t : ℕ) (e : Json) (m : Mailbox) → backlog (enqueue t e m) ≡ append_message t e (backlog m)
unfolding enqueue
backlog-enqueue t e m = refl
