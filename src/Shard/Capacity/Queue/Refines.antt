-- ===== src/Shard/Capacity/Queue/Refines.antt =====
-- The requests of clients and of the Router do to a mailbox what its queue allows (shard/worker.js,
-- `handleSend`, `handleRead`, `handleCreate`).
use nex_talk_relay.Shard.Capacity.Queue.Writes.{
  queue, Before, Behind, nothing_done, Frames-Before, Frames-Behind, deliver-Leads,
  take_messages-Leads, store_mailbox-Leads, same_start,
}
use nex_talk_relay.Base.{ℕ, Text, ◌<◌, ◌≡◌, refl, ◌∙◌, List, [], ◌∷◌, inl, inr}
use nex_talk_relay.Platform.{Platform}
use nex_talk_relay.Platform.Ends.{Keeps-lift, Keeps-stop_if, Leads-bind, Leads-then, Outcome-cases}
use nex_talk_relay.Platform.Http.{Request}
use nex_talk_relay.Platform.Laws.{KvLaws}
use nex_talk_relay.Platform.World.{World}
use nex_talk_relay.Shard.{Env, Cfg}
use nex_talk_relay.Shard.Create.{handle_create, parse_create, check_capability}
use nex_talk_relay.Shard.Send.{admit_send, deliver, handle_send, parse_send}
use nex_talk_relay.Shard.Read.{take_messages, handle_read, parse_read}
use nex_talk_relay.Shard.Frame.{Frames-now, Frames-rate_limit, Frames-respond, Frames-admit_send}
use nex_talk_relay.Shard.Capacity.Queue.{
  Queue, Act, sent, asked, created, Step, Steps, done, then_step,
}

module _ (p : Platform) (laws : KvLaws p) (cfg : Cfg) (lasts : 0 < cfg.mailbox_ttl_seconds) where
  module _ (v : World p) (id : Text) (request : Request) where
    module _ (env : Env) where
      -- Each handler does to the mailbox what its request may do.
      handle_send-Behind :
          Behind p laws cfg lasts v id (sent request) (handle_send p request env cfg v).1
      unfolding handle_send
      handle_send-Behind =
          let P = Before p laws cfg lasts v id (sent request) in
          let Q = Behind p laws cfg lasts v id (sent request) in
          let idle = nothing_done p laws cfg lasts v id (sent request) in
          elim (Outcome-cases (parse_send cfg request.body)) [
            | inr (inl (x, bad)) ↦ rw bad (idle v (same_start p laws cfg lasts v id request _))
            | inr (inr (x, bad)) ↦ rw bad (idle v (same_start p laws cfg lasts v id request _))
            | inl (r, form) ↦
                (rw form (
                  (Leads-bind P Q (admit_send p request cfg r) _ idle
                      (Frames-Before p laws cfg lasts v id (sent request) _
                        (Frames-admit_send p laws request cfg r))
                      λ _.
                        Leads-then P Q (deliver p cfg r) _
                          (deliver-Leads p laws cfg lasts v id request r form)
                          λ m.
                            Frames-Behind p laws cfg lasts v id (sent request) _
                              (Frames-respond p laws _ _ _)).at
                    v (same_start p laws cfg lasts v id request _)))
          ]

      handle_read-Behind :
          Behind p laws cfg lasts v id (asked request) (handle_read p request env cfg v).1
      unfolding handle_read
      handle_read-Behind =
          let P = Before p laws cfg lasts v id (asked request) in
          let Q = Behind p laws cfg lasts v id (asked request) in
          let idle = nothing_done p laws cfg lasts v id (asked request) in
          elim (Outcome-cases (parse_read request)) [
            | inr (inl (x, bad)) ↦ rw bad (idle v (same_start p laws cfg lasts v id request _))
            | inr (inr (x, bad)) ↦ rw bad (idle v (same_start p laws cfg lasts v id request _))
            | inl (r, form) ↦
                (rw form (
                  (Leads-bind P Q _ _ idle
                      (Frames-Before p laws cfg lasts v id (asked request) _
                        (Frames-rate_limit p laws _ _ _))
                      λ ok. Leads-bind P Q _ _ idle (Keeps-stop_if P _ _) λ _.
                        Leads-then P Q (take_messages p cfg r) _
                          (take_messages-Leads p laws cfg lasts v id request r form)
                          λ m.
                            Frames-Behind p laws cfg lasts v id (asked request) _
                              (Frames-respond p laws _ _ _)).at
                    v (same_start p laws cfg lasts v id request _)))
          ]

      handle_create-Behind :
          Behind p laws cfg lasts v id (created request) (handle_create p request env cfg v).1
      unfolding handle_create
      handle_create-Behind =
          let P = Before p laws cfg lasts v id (created request) in
          let Q = Behind p laws cfg lasts v id (created request) in
          let idle = nothing_done p laws cfg lasts v id (created request) in
          elim (Outcome-cases (parse_create p request.body)) [
            | inr (inl (x, bad)) ↦ rw bad (idle v (same_start p laws cfg lasts v id request _))
            | inr (inr (x, bad)) ↦ rw bad (idle v (same_start p laws cfg lasts v id request _))
            | inl (r, form) ↦
                (rw form (
                  (Leads-bind P Q _ _ idle
                      (Frames-Before p laws cfg lasts v id (created request) _ (Frames-now p))
                      λ t. Leads-bind P Q _ _ idle (Keeps-lift P (check_capability p env t r)) λ ok.
                        Leads-bind P Q _ _ idle (Keeps-stop_if P _ _) λ _.
                          Leads-bind P Q _ _ idle
                            (Frames-Before p laws cfg lasts v id (created request) _
                              (Frames-rate_limit p laws _ _ _))
                            λ ip.
                              Leads-bind P Q _ _ idle (Keeps-stop_if P _ _)
                                λ _. store_mailbox-Leads p laws cfg lasts v id request r form).at
                    v (same_start p laws cfg lasts v id request _)))
          ]

  -- The requests of clients and of the Router for mailboxes, one after the other at an instant, the last
  -- one first in the list.
  pub data Requests (w : World p) : List Act → World p → Type 0 where
    none_yet : Requests w [] w
    send :
        {v : World p} {as' : List Act} (request : Request) (env : Env)
        → Requests w as' v
        → Requests w (sent request ∷ as') (handle_send p request env cfg v).1
    read :
        {v : World p} {as' : List Act} (request : Request) (env : Env)
        → Requests w as' v
        → Requests w (asked request ∷ as') (handle_read p request env cfg v).1
    create :
        {v : World p} {as' : List Act} (request : Request) (env : Env)
        → Requests w as' v
        → Requests w (created request ∷ as') (handle_create p request env cfg v).1

  at_same_time :
      (t u : ℕ) (id : Text) (a : Act) (q r : Queue)
      → t ≡ u
      → Step p cfg t id a q r
      → Step p cfg u id a q r
  at_same_time t u id a q r e h = rw e at h

  next_step :
      (w v u : World p) (id : Text) (as' : List Act) (a : Act)
      → (v.time ≡ w.time)
        × Steps p cfg w.time id (queue p laws cfg lasts w id) as' (queue p laws cfg lasts v id)
      → Behind p laws cfg lasts v id a u
      → (u.time ≡ w.time)
        × Steps p cfg w.time id
            (queue p laws cfg lasts w id)
            (a ∷ as')
            (queue p laws cfg lasts u id)
  next_step w v u id as' a (clock, before) behind = (
    behind.clock ∙ clock,
    then_step a before (
        at_same_time v.time w.time id a (queue p laws cfg lasts v id) (queue p laws cfg lasts u id)
          clock behind.step),
  )

  Requests-Steps :
      {w v : World p} {as' : List Act} (id : Text)
      → Requests w as' v
      → (v.time ≡ w.time)
        × Steps p cfg w.time id (queue p laws cfg lasts w id) as' (queue p laws cfg lasts v id)
  Requests-Steps id none_yet = (refl, done)
  Requests-Steps {w} id (send {v} request env h) =
      next_step w v _ id _ (sent request) (Requests-Steps id h)
        (handle_send-Behind v id request env)
  Requests-Steps {w} id (read {v} request env h) =
      next_step w v _ id _ (asked request) (Requests-Steps id h)
        (handle_read-Behind v id request env)
  Requests-Steps {w} id (create {v} request env h) =
      next_step w v _ id _ (created request) (Requests-Steps id h)
        (handle_create-Behind v id request env)

  -- Any sends, reads and creations, whatever their bodies and however they end, do to the queue of every
  -- mailbox one step each, in their order. A send to the mailbox puts its one message last, with its text
  -- and its sender, on what has not lapsed of fewer than `MAX_MESSAGES` messages; a read of it empties the
  -- queue, or, if it peeks, drops a lapsed one; a creation makes an empty queue where there was no mailbox;
  -- and each may do nothing. A request for another mailbox does nothing. The requests come at one instant,
  -- and the lifetime of mailboxes is not zero.
  pub Requests-refine :
      {w v : World p} {as' : List Act} (id : Text)
      → Requests w as' v
      → Steps p cfg w.time id (queue p laws cfg lasts w id) as' (queue p laws cfg lasts v id)
  Requests-refine id h = (Requests-Steps id h).1
