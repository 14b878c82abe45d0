-- ===== src/Shard/Capacity/Steps.antt =====
-- The bound on the queues, over the requests that a shard handles.
use nex_talk_relay.Base.{
  Text, to_lower, ℕ, ◌+◌, ◌≤◌, ◌≡◌, ◌⊎◌, refl, Bool, true, false, Option, none, some, [], ◌∷◌,
  length, length-append, ltb, ltb→lt, Bool-cases, Option-cases, inl, inr, arith,
}
use nex_talk_relay.Js.{Json}
use nex_talk_relay.Platform.{Platform, Stored, Mailbox, as_mailbox}
use nex_talk_relay.Platform.Ends.{Keeps, Keeps-bind, Keeps-lift, Keeps-stop_if}
use nex_talk_relay.Platform.Http.{Request}
use nex_talk_relay.Platform.Laws.{KvLaws}
use nex_talk_relay.Platform.World.{World, now, kv_get, kv_put}
use nex_talk_relay.Shard.{Env, Cfg}
use nex_talk_relay.Shard.Create.{
  mailbox_key, CreateRequest, mailbox_after_create, store_with, store_mailbox, handle_create,
  refreshed, created_mailbox, client_key, parse_create, check_capability,
}
use nex_talk_relay.Shard.Send.{SendRequest, drop_stale, enqueue, deliver, handle_send, parse_send}
use nex_talk_relay.Shard.Send.Delivery.{delivered, deliver-run, deliver-full, deliver-missing}
use nex_talk_relay.Shard.Read.{ReadRequest, consume, take_messages, handle_read, parse_read}
use nex_talk_relay.Shard.Read.Consumption.{
  may_read, take_messages-run, take_messages-denied, take_messages-missing,
}
use nex_talk_relay.Shard.Frame.{
  view, Frames-now, Frames-rate_limit, Frames-respond, Frames-admit_send,
}
use nex_talk_relay.Shard.Capacity.{IsBounded, Keeps-Frames, IsBounded-write}

length-drop_stale :
    (cfg : Cfg) (t : ℕ) (m : Mailbox) → length (drop_stale cfg t m).messages ≤ length m.messages
unfolding drop_stale
length-drop_stale cfg t m = ground arith

length-consume : (peek : Bool) (m : Mailbox) → length (consume peek m).messages ≤ length m.messages
unfolding consume
length-consume true m = omega arith
length-consume false m = omega arith

length-enqueue :
    (t : ℕ) (e : Json) (m : Mailbox) → length (enqueue t e m).messages ≡ length m.messages + 1
unfolding enqueue
length-enqueue t e m = length-append m.messages (e ∷ [])

module _ (p : Platform) (laws : KvLaws p) (cfg : Cfg) where
  abbrev Bounded : World p → Type 0
  Bounded = IsBounded p laws cfg

  bound_now :
      (w : World p) (id : Text) (m : Mailbox)
      → Bounded w
      → view p w id ≡ some m
      → length m.messages ≤ cfg.max_messages
  unfolding view
  bound_now w id m b found = b.at w.time id m (omega arith) found

  length-delivered :
      (r : SendRequest) (w : World p) (m : Mailbox)
      → length (delivered p cfg r w m).messages ≡ length (drop_stale cfg w.time m).messages + 1
  unfolding delivered
  length-delivered r w m = length-enqueue w.time _ (drop_stale cfg w.time m)

  deliver-IsBounded : (r : SendRequest) → Keeps Bounded (deliver p cfg r)
  deliver-IsBounded r = record {
    at = λ w b. step w b (Option-cases (view p w (to_lower r.mailbox_id)));
  }
    where
      step :
          (w : World p)
          → Bounded w
          → (view p w (to_lower r.mailbox_id) ≡ none)
            ⊎ ((m : Mailbox) × (view p w (to_lower r.mailbox_id) ≡ some m))
          → Bounded (deliver p cfg r w).1
      step w b (inl gone) = rw (deliver-missing p cfg r w gone) b
      step w b (inr (m, found)) =
          elim (Bool-cases (ltb (length (drop_stale cfg w.time m).messages) cfg.max_messages)) [
            | inl room ↦
                let (v, run, same_time, stored) = deliver-run p cfg r w m found (ltb→lt _ _ room) in
                rw run (
                  IsBounded-write p laws cfg w v _ _ _ same_time stored
                    (omega (arith, length-delivered r w m, ltb→lt _ _ room)) b)
            | inr full ↦ rw (deliver-full p cfg r w m found (ground arith)) b
          ]

  take_messages-IsBounded : (r : ReadRequest) → Keeps Bounded (take_messages p cfg r)
  take_messages-IsBounded r = record {
    at = λ w b. step w b (Option-cases (view p w (to_lower r.mailbox_id)));
  }
    where
      step :
          (w : World p)
          → Bounded w
          → (view p w (to_lower r.mailbox_id) ≡ none)
            ⊎ ((m : Mailbox) × (view p w (to_lower r.mailbox_id) ≡ some m))
          → Bounded (take_messages p cfg r w).1
      step w b (inl gone) = rw (take_messages-missing p cfg r w gone) b
      step w b (inr (m, found)) = elim (Bool-cases (may_read p cfg r w m)) [
        | inl ok ↦
            let (v, run, same_time, stored) = take_messages-run p cfg r w m found ok in
            rw run (
              IsBounded-write p laws cfg w v _ _ _ same_time stored
                (omega (
                  arith,
                  length-consume r.peek (drop_stale cfg w.time m),
                  length-drop_stale cfg w.time m,
                  bound_now w (to_lower r.mailbox_id) m b found,
                ))
                b)
        | inr bad ↦ rw (take_messages-denied p cfg r w m found bad) b
      ]

  created-fits :
      (r : CreateRequest) (client : Json) (w : World p)
      → Bounded w
      → (o : Option Stored) → p.read w.kv w.time (mailbox_key (to_lower r.mailbox_id)) ≡ o
      → length (mailbox_after_create r client w.time o).0.messages ≤ cfg.max_messages
  unfolding mailbox_after_create refreshed created_mailbox
  created-fits r client w b none found = omega arith
  created-fits r client w b (some s) found = elim (Option-cases (as_mailbox s)) [
    | inl bad ↦ rw bad (omega arith)
    | inr (m, good) ↦ rw good (b.at w.time (to_lower r.mailbox_id) m (omega arith) (rw found good))
  ]

  store_with-IsBounded :
      (r : CreateRequest) (client : Json) → Keeps Bounded (store_with p cfg r client)
  unfolding store_with kv_get kv_put now
  store_with-IsBounded r client = record {
    at = λ w b.
        IsBounded-write p laws cfg w _ (to_lower r.mailbox_id) _ (some cfg.mailbox_ttl_seconds) refl
          refl (created-fits r client w b _ refl) b;
  }

  store_mailbox-IsBounded : (r : CreateRequest) → Keeps Bounded (store_mailbox p cfg r)
  unfolding store_mailbox
  store_mailbox-IsBounded r =
      Keeps-bind Bounded _ _ (Keeps-lift Bounded (client_key r)) (store_with-IsBounded r)

  module _ (request : Request) (env : Env) where
    -- Every end of a send keeps the bound.
    pub handle_send-IsBounded : Keeps Bounded (handle_send p request env cfg)
    unfolding handle_send
    handle_send-IsBounded =
        Keeps-bind Bounded _ _ (Keeps-lift Bounded (parse_send cfg request.body)) λ r.
          Keeps-bind Bounded _ _
            (Keeps-Frames p laws cfg _ (Frames-admit_send p laws request cfg r))
            λ _.
              Keeps-bind Bounded _ _ (deliver-IsBounded r)
                λ m. Keeps-Frames p laws cfg _ (Frames-respond p laws _ _ _)

    pub handle_read-IsBounded : Keeps Bounded (handle_read p request env cfg)
    unfolding handle_read
    handle_read-IsBounded = Keeps-bind Bounded _ _ (Keeps-lift Bounded (parse_read request)) λ r.
        Keeps-bind Bounded _ _ (Keeps-Frames p laws cfg _ (Frames-rate_limit p laws _ _ _)) λ ok.
          Keeps-bind Bounded _ _ (Keeps-stop_if Bounded _ _) λ _.
            Keeps-bind Bounded _ _ (take_messages-IsBounded r)
              λ m. Keeps-Frames p laws cfg _ (Frames-respond p laws _ _ _)

    pub handle_create-IsBounded : Keeps Bounded (handle_create p request env cfg)
    unfolding handle_create
    handle_create-IsBounded =
        Keeps-bind Bounded _ _ (Keeps-lift Bounded (parse_create p request.body)) λ r.
          Keeps-bind Bounded _ _ (Keeps-Frames p laws cfg _ (Frames-now p)) λ t.
            Keeps-bind Bounded _ _ (Keeps-lift Bounded (check_capability p env t r)) λ ok.
              Keeps-bind Bounded _ _ (Keeps-stop_if Bounded _ _) λ _.
                Keeps-bind Bounded _ _ (Keeps-Frames p laws cfg _ (Frames-rate_limit p laws _ _ _))
                  λ ip.
                    Keeps-bind Bounded _ _ (Keeps-stop_if Bounded _ _)
                      λ _. store_mailbox-IsBounded r

  -- What a client or the Router can make a shard do, and the passing of time.
  pub data Step (w : World p) : World p → Type 0 where
    send : (request : Request) (env : Env) → Step w (handle_send p request env cfg w).1
    read : (request : Request) (env : Env) → Step w (handle_read p request env cfg w).1
    create : (request : Request) (env : Env) → Step w (handle_create p request env cfg w).1
    wait : (t : ℕ) → Step w (record w { time = w.time + t })

  pub data Reach (w : World p) : World p → Type 0 where
    here : Reach w w
    next : {u v : World p} → Reach w u → Step u v → Reach w v

  Step-IsBounded : {u v : World p} → Step u v → Bounded u → Bounded v
  Step-IsBounded (send request env) b = (handle_send-IsBounded request env).at _ b
  Step-IsBounded (read request env) b = (handle_read-IsBounded request env).at _ b
  Step-IsBounded (create request env) b = (handle_create-IsBounded request env).at _ b
  Step-IsBounded (wait t) b = record { at = λ u id m le found. b.at u id m (omega arith) found }

  -- In any sequence of sends, reads and creations, whatever their bodies and however they end, with
  -- any time between them, no mailbox comes to hold more than `MAX_MESSAGES` messages.
  pub Reach-IsBounded :
      {w v : World p} → Reach w v → IsBounded p laws cfg w → IsBounded p laws cfg v
  Reach-IsBounded here b = b
  Reach-IsBounded (next r s) b = Step-IsBounded s (Reach-IsBounded r b)
