-- ===== src/Shard/Capacity.antt =====
-- The bound on the queues of a shard, and the writes that keep it.
pub mod Steps
pub mod Queue
use nex_talk_relay.Base.{
  Text, codes, same, eq_of_same, ne_of_same, to_lower, ℕ, ◌+◌, ◌*◌, ◌≤◌, ◌<◌, ◌≡◌, ◌≢◌, refl, sym,
  ap, ◌∙◌, Bool, true, false, not, Option, none, some, List, [], ◌∷◌, ◌++◌, length, length-append,
  ltb, leb, ltb→lt, Bool-cases, Option-cases, if◌then◌else◌, inl, inr, arith,
}
use nex_talk_relay.Js.{Json}
use nex_talk_relay.Platform.{Platform, Stored, Mailbox, mailbox, as_mailbox}
use nex_talk_relay.Platform.Ends.{Keeps, Keeps-bind, Keeps-lift, Keeps-stop_if}
use nex_talk_relay.Platform.Exec.{Outcome, value, reply, throw, pure, lift, stop_if, ◌>>=◌, ◌>>◌}
use nex_talk_relay.Platform.Http.{Request, Response}
use nex_talk_relay.Platform.Laws.{KvLaws, is_alive}
use nex_talk_relay.Platform.World.{World, Run, now, kv_get, kv_put}
use nex_talk_relay.Shard.{Env, Cfg}
use nex_talk_relay.Shard.Create.{
  mailbox_key, CreateRequest, mailbox_after_create, store_mailbox, handle_create, refreshed,
  created_mailbox, client_key, parse_create, check_capability,
}
use nex_talk_relay.Shard.Send.{
  SendRequest, drop_stale, enqueue, deliver, handle_send, parse_send, admit_send, respond,
}
use nex_talk_relay.Shard.Send.Delivery.{delivered, deliver-run, deliver-full, deliver-missing}
use nex_talk_relay.Shard.Read.{ReadRequest, consume, take_messages, handle_read, parse_read}
use nex_talk_relay.Shard.Read.Consumption.{
  may_read, take_messages-run, take_messages-denied, take_messages-missing,
}
use nex_talk_relay.Shard.Exists.{handle_exists}
use nex_talk_relay.Shard.Frame.{
  view, parsed, SameMailboxes, mailbox_key_injective, Frames, Frames-now, Frames-rate_limit,
  Frames-respond, Frames-admit_send, Frames-kv_get,
}

module _ (p : Platform) (laws : KvLaws p) (cfg : Cfg) where
  -- Now and later, no mailbox that can be read holds more than the configured number of messages.
  pub record IsBounded (w : World p) : Type 0 where
    pub at :
        (u : ℕ) (id : Text) (m : Mailbox)
        → w.time ≤ u
        → parsed p (p.read w.kv u (mailbox_key id)) ≡ some m
        → length m.messages ≤ cfg.max_messages

  pub IsBounded-SameMailboxes : (w v : World p) → SameMailboxes p w v → IsBounded w → IsBounded v
  IsBounded-SameMailboxes w v f b = record {
    at = λ u id m le found.
        b.at u id m (rw f.same_time at le) (ap (parsed p) (sym (f.reads u id)) ∙ found);
  }

  pub Keeps-Frames : {A : Type 0} (m : Run p A) → Frames p m → Keeps IsBounded m
  Keeps-Frames m f = record { at = λ w b. IsBounded-SameMailboxes w _ (f.at w) b }

  -- A mailbox within the bound may be written.
  pub IsBounded-write :
      (w v : World p) (id : Text) (m : Mailbox) (ttl : Option ℕ)
      → v.time ≡ w.time
      → v.kv ≡ p.write w.kv w.time (mailbox_key id) (mailbox m) ttl
      → length m.messages ≤ cfg.max_messages
      → IsBounded w
      → IsBounded v
  IsBounded-write w v id m ttl same_time stored fits b = record { at = bound }
    where
      hit :
          (alive : Bool) (n : Mailbox)
          → parsed p (if alive then some (mailbox m) else none) ≡ some n
          → length n.messages ≤ cfg.max_messages
      hit true n h = let e : m ≡ n = cc in rw (← e) fits
      hit false n h = cc

      bound :
          (u : ℕ) (j : Text) (n : Mailbox)
          → v.time ≤ u
          → parsed p (p.read v.kv u (mailbox_key j)) ≡ some n
          → length n.messages ≤ cfg.max_messages
      bound u j n le found = elim (Bool-cases (same id j)) [
        | inl here ↦
            let e = eq_of_same id j here in
            hit (is_alive w.time ttl u) n (
              rw
                (
                  stored,
                  ← e,
                  laws.read-write_self w.kv w.time (mailbox_key id) (mailbox m) ttl u
                      (rw same_time at le),
                )
                at found)
        | inr there ↦ b.at u j n (rw same_time at le) (
            rw
              (
                stored,
                laws.read-write_ne w.kv w.time (mailbox_key id) (mailbox m) ttl u (mailbox_key j)
                    (λ e. ne_of_same id j there (mailbox_key_injective id j e)),
              )
              at found)
      ]
