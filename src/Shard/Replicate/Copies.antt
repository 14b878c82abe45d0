-- ===== src/Shard/Replicate/Copies.antt =====
-- Where a copy goes, and what happens to a copy that comes twice.
use nex_talk_relay.Base.{
  Text, codes, same_refl, to_lower, ℕ, ◌+◌, ◌*◌, ◌≤◌, ◌<◌, ◌≡◌, ◌≢◌, refl, sym, ap, ◌∙◌, true,
  false, none, some, [], ◌∷◌, ◌++◌, any, any-append, length, length-append, Option-cases,
  Bool-cases, lt→ltb, if◌then◌else◌, inl, inr, arith,
}
use nex_talk_relay.Js.{Json, str, get, to_text}
use nex_talk_relay.Platform.{Platform, Mailbox, mailbox, as_mailbox}
use nex_talk_relay.Platform.Ends.{bind-value}
use nex_talk_relay.Platform.Exec.{Outcome, value, continue}
use nex_talk_relay.Platform.Http.{Response, json_response}
use nex_talk_relay.Platform.Laws.{KvLaws}
use nex_talk_relay.Platform.World.{World, now, kv_get, kv_put}
use nex_talk_relay.Shard.{Cfg}
use nex_talk_relay.Shard.Create.{mailbox_key}
use nex_talk_relay.Shard.Send.{enqueue}
use nex_talk_relay.Shard.Frame.{view}
use nex_talk_relay.Shard.Replicate.{
  ReplicateRequest, has_id, load_or_shell, append_copy, store_replica, deduped, replicated,
}

has_id_self : (i : Text) (entry : Json) → get (codes "id") entry ≡ str i → has_id i entry ≡ true
unfolding has_id
has_id_self i entry h = rw (h, has_id) (same_refl i)

enqueue-has_id :
    (t : ℕ) (i : Text) (entry : Json) (m : Mailbox)
    → get (codes "id") entry ≡ str i
    → any (has_id i) (enqueue t entry m).messages ≡ true
unfolding enqueue
enqueue-has_id t i entry m h =
    ground (arith, any-append (has_id i) m.messages (entry ∷ []), has_id_self i entry h)

module _ (p : Platform) (laws : KvLaws p) (cfg : Cfg) where
  abbrev key : ReplicateRequest → Text
  key r = mailbox_key (to_lower r.mailbox_id)

  -- A copy whose id is in the stored queue is not stored again.
  present-deduped :
      (r : ReplicateRequest) (i : Text) (z : World p) (m : Mailbox)
      → get (codes "id") r.entry ≡ str i
      → p.read z.kv z.time (key r) ≡ some (mailbox m)
      → any (has_id i) m.messages ≡ true
      → store_replica p cfg r z ≡ (value deduped, z)
  unfolding store_replica append_copy load_or_shell kv_get now to_text
  present-deduped r i z m id found here = rw (found, id, here) refl

  load-same : (r : ReplicateRequest) (k : Text) (w : World p) → (load_or_shell p r k w).1 ≡ w
  unfolding load_or_shell kv_get now
  load-same r k w = elim (Option-cases (p.read w.kv w.time k)) [
    | inl e ↦ rw e refl
    | inr (s, e) ↦ elim (Option-cases (as_mailbox s)) [
      | inl bad ↦ rw (e, bad) refl
      | inr (m, good) ↦ rw (e, good) refl
    ]
  ]

  -- A new copy is appended, whatever the length of the queue.
  append-new :
      (r : ReplicateRequest) (i : Text) (m : Mailbox) (w : World p)
      → get (codes "id") r.entry ≡ str i
      → any (has_id i) m.messages ≡ false
      → append_copy p cfg r m w ≡ (
        value replicated,
        record w {
          kv =
              p.write w.kv w.time
                (key r)
                (mailbox (enqueue w.time r.entry m))
                (some cfg.mailbox_ttl_seconds);
        },
      )
  unfolding append_copy kv_put now to_text
  append-new r i m w id new = rw (id, new) refl

  append-old :
      (r : ReplicateRequest) (i : Text) (m : Mailbox) (w : World p)
      → get (codes "id") r.entry ≡ str i
      → any (has_id i) m.messages ≡ true
      → append_copy p cfg r m w ≡ (value deduped, w)
  unfolding append_copy to_text
  append-old r i m w id old = rw (id, old) refl

  store-loaded :
      (r : ReplicateRequest) (m : Mailbox) (w : World p)
      → (load_or_shell p r (key r) w).0 ≡ value m
      → store_replica p cfg r w ≡ append_copy p cfg r m w
  unfolding store_replica
  store-loaded r m w e = λ ī. continue (e ī) (append_copy p cfg r) (load-same r (key r) w ī)

  loaded :
      (r : ReplicateRequest) (w : World p) (x : Response)
      → (store_replica p cfg r w).0 ≡ value x
      → (m : Mailbox) × ((load_or_shell p r (key r) w).0 ≡ value m)
  unfolding store_replica
  loaded r w x h = let (m, e, rest) = bind-value (load_or_shell p r (key r)) _ w x h in (m, e)

  replicated-ne-deduped : replicated ≢ deduped
  unfolding json_response
  replicated-ne-deduped h = let e = ap (λ (x : Response). x.body) h in cc

  -- A stored copy is in the queue, which holds it until it expires.
  stored-present :
      (r : ReplicateRequest) (i : Text) (w : World p)
      → get (codes "id") r.entry ≡ str i
      → (store_replica p cfg r w).0 ≡ value replicated
      → (m : Mailbox) × (any (has_id i) m.messages ≡ true)
        × ((store_replica p cfg r w).1.kv
            ≡ p.write w.kv w.time (key r) (mailbox m) (some cfg.mailbox_ttl_seconds))
  stored-present r i w id h =
      let (m, e) = loaded r w replicated h in
      let run = store-loaded r m w e in
      elim (Bool-cases (any (has_id i) m.messages)) [
        | inl old ↦
            let same_end : value replicated ≡ value deduped =
              sym h
              ∙ ap (λ (x : Outcome Response × World p). x.0) (run ∙ append-old r i m w id old) in
            absurd (replicated-ne-deduped cc)
        | inr new ↦ (
          enqueue w.time r.entry m,
          enqueue-has_id w.time i r.entry m id,
          ap (λ (x : Outcome Response × World p). x.1.kv) (run ∙ append-new r i m w id new),
        )
      ]

  -- A copy that was stored is not stored again while the mailbox lives and nothing else writes it:
  -- until it expires, as long as what is stored under its key is what the first request left there, a
  -- second request is answered as a duplicate and changes nothing.
  pub store_replica_twice :
      (r : ReplicateRequest) (i : Text) (w z : World p)
      → get (codes "id") r.entry ≡ str i
      → (store_replica p cfg r w).0 ≡ value replicated
      → w.time ≤ z.time
      → z.time < w.time + 1000 * cfg.mailbox_ttl_seconds
      → p.read z.kv z.time (mailbox_key (to_lower r.mailbox_id))
        ≡ p.read (store_replica p cfg r w).1.kv z.time (mailbox_key (to_lower r.mailbox_id))
      → store_replica p cfg r z ≡ (value deduped, z)
  store_replica_twice r i w z id first le alive untouched =
      let (m, here, stored) = stored-present r i w id first in
      let found : p.read z.kv z.time (key r) ≡ some (mailbox m) =
        untouched
        ∙ ap (λ s. p.read s z.time (key r)) stored
        ∙ laws.read-write_self w.kv w.time (key r) (mailbox m) (some cfg.mailbox_ttl_seconds) z.time
            le
        ∙ ap (λ b. if b then some (mailbox m) else none) (lt→ltb _ _ alive) in
      present-deduped r i z m id found here

  appended :
      (r : ReplicateRequest) (i : Text) (w : World p) (m : Mailbox)
      → get (codes "id") r.entry ≡ str i
      → p.read w.kv w.time (key r) ≡ some (mailbox m)
      → any (has_id i) m.messages ≡ false
      → store_replica p cfg r w ≡ (
        value replicated,
        record w {
          kv =
              p.write w.kv w.time
                (key r)
                (mailbox (enqueue w.time r.entry m))
                (some cfg.mailbox_ttl_seconds);
        },
      )
  unfolding load_or_shell kv_get now
  appended r i w m id found new = store-loaded r m w (rw found refl) ∙ append-new r i m w id new

  -- The mailbox behind a write.
  view-written :
      (w v : World p) (id : Text) (m : Mailbox)
      → v.time ≡ w.time
      → v.kv ≡ p.write w.kv w.time (mailbox_key id) (mailbox m) (some cfg.mailbox_ttl_seconds)
      → 0 < cfg.mailbox_ttl_seconds
      → view p v id ≡ some m
  unfolding view
  view-written w v id m same_time stored lives =
      rw
        (
          same_time,
          stored,
          laws.read-write_self w.kv w.time (mailbox_key id) (mailbox m)
              (some cfg.mailbox_ttl_seconds) w.time (omega arith),
          lt→ltb w.time (w.time + 1000 * cfg.mailbox_ttl_seconds) (omega arith),
        )
        refl

  -- A copy that is new goes to the end of the stored queue, whatever its length and its age: the
  -- queue comes to hold one message more, also where it held `MAX_MESSAGES` or more.
  pub store_replica-unbounded :
      (r : ReplicateRequest) (i : Text) (w : World p) (m : Mailbox)
      → get (codes "id") r.entry ≡ str i
      → p.read w.kv w.time (mailbox_key (to_lower r.mailbox_id)) ≡ some (mailbox m)
      → any (has_id i) m.messages ≡ false
      → 0 < cfg.mailbox_ttl_seconds
      → (n : Mailbox) × (view p (store_replica p cfg r w).1 (to_lower r.mailbox_id) ≡ some n)
        × (n.messages ≡ m.messages ++ r.entry ∷ [])
        × (length n.messages ≡ length m.messages + 1)
  unfolding enqueue
  store_replica-unbounded r i w m id found new lives =
      let run = appended r i w m id found new in
      (
        enqueue w.time r.entry m,
        view-written w (store_replica p cfg r w).1 (to_lower r.mailbox_id) _
            (ap (λ (x : Outcome Response × World p). x.1.time) run)
            (ap (λ (x : Outcome Response × World p). x.1.kv) run) lives,
        refl,
        length-append m.messages (r.entry ∷ []),
      )
