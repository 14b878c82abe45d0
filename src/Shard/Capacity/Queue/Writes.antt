-- ===== src/Shard/Capacity/Queue/Writes.antt =====
-- The writes of the handlers do to a mailbox what its queue allows (shard/worker.js, `handleSend`,
-- `handleRead`, `handleCreate`).
use nex_talk_relay.Base.{
  if◌then◌else◌, Text, same, eq_of_same, ne_of_same, to_lower, ◌<◌, ◌≡◌, ◌⊎◌, refl, sym, ap, ◌∙◌,
  Option, none, some, length, ltb, ltb→lt, Bool-cases, Option-cases, inl, inr, arith,
}
use nex_talk_relay.Js.{Json}
use nex_talk_relay.Platform.{Platform, Stored, Mailbox, mailbox, as_mailbox}
use nex_talk_relay.Platform.Ends.{Keeps, Keeps-lift, Leads, Leads-bind}
use nex_talk_relay.Platform.Exec.{value}
use nex_talk_relay.Platform.Http.{Request}
use nex_talk_relay.Platform.Laws.{KvLaws}
use nex_talk_relay.Platform.World.{World, Run, now, kv_get, kv_put}
use nex_talk_relay.Shard.{Cfg}
use nex_talk_relay.Shard.Create.{
  mailbox_key, CreateRequest, mailbox_after_create, store_with, store_mailbox, refreshed,
  created_mailbox, client_key, parse_create,
}
use nex_talk_relay.Shard.Send.{SendRequest, drop_stale, deliver, parse_send}
use nex_talk_relay.Shard.Send.Delivery.{
  delivered, deliver-run, deliver-full, deliver-missing, view-write, next_entry, new_entry-IsEntry,
}
use nex_talk_relay.Shard.Read.{ReadRequest, take_messages, parse_read}
use nex_talk_relay.Shard.Read.Consumption.{
  may_read, take_messages-run, take_messages-denied, take_messages-missing,
}
use nex_talk_relay.Shard.Frame.{view, view-SameMailboxes, Frames}
use nex_talk_relay.Shard.Capacity.Queue.{
  consume, Queue, Backlog, empty_backlog, lapse, append_message, Act, sent, asked, created, Step,
  kept, pushed, taken, made, backlog, queue_of, backlog-drop_stale, backlog-consume,
  backlog-enqueue,
}

module _ (p : Platform) (laws : KvLaws p) (cfg : Cfg) (lasts : 0 < cfg.mailbox_ttl_seconds) where
  abbrev pub queue : World p → Text → Queue
  queue w id = queue_of (view p w id)

  module _ (v : World p) (id : Text) (a : Act) where
    -- The request has done nothing to the mailbox yet.
    pub record Before (w : World p) : Type 0 where
      pub clock : w.time ≡ v.time
      pub same_view : view p w id ≡ view p v id

    -- The request has done what it may do.
    pub record Behind (w : World p) : Type 0 where
      pub clock : w.time ≡ v.time
      pub step : Step p cfg v.time id a (queue v id) (queue w id)

    pub nothing_done : (w : World p) → Before w → Behind w
    nothing_done w h = record {
      clock = h.clock;
      step = rw (ap queue_of h.same_view) (kept a (queue v id));
    }

    pub Frames-Before : {A : Type 0} (m : Run p A) → Frames p m → Keeps Before m
    Frames-Before m f = record {
      at = λ w h. record {
        clock = (f.at w).same_time ∙ h.clock;
        same_view = view-SameMailboxes p w _ id (f.at w) ∙ h.same_view;
      };
    }

    pub Frames-Behind : {A : Type 0} (m : Run p A) → Frames p m → Keeps Behind m
    Frames-Behind m f = record {
      at = λ w h. record {
        clock = (f.at w).same_time ∙ h.clock;
        step = rw (ap queue_of (view-SameMailboxes p w _ id (f.at w))) h.step;
      };
    }

    -- A write of a mailbox is a step where that mailbox is the one that is watched.
    written :
        (w u : World p) (j : Text) (m : Mailbox)
        → u.time ≡ w.time
        → u.kv ≡ p.write w.kv w.time (mailbox_key j) (mailbox m) (some cfg.mailbox_ttl_seconds)
        → (j ≡ id → Step p cfg v.time id a (queue v id) (some (backlog m)))
        → Before w
        → Behind u
    written w u j m same_time stored moved h =
        let (there, other) =
          view-write p laws w u j m cfg.mailbox_ttl_seconds lasts same_time stored in
        record {
          clock = same_time ∙ h.clock;
          step = elim (Bool-cases (same j id)) [
            | inl here ↦
                (let e = eq_of_same j id here in
                  let seen : view p u id ≡ some m = ap (view p u) (sym e) ∙ there in
                  rw (ap queue_of seen) (moved e))
            | inr away ↦
                rw (ap queue_of (other id (ne_of_same j id away) ∙ h.same_view))
                  (kept a (queue v id))
          ];
        }

    -- The queue before the request, where its mailbox is the one that is watched.
    at_mailbox :
        (w : World p) (j : Text) (m : Mailbox)
        → view p w j ≡ some m
        → Before w
        → j ≡ id
        → queue v id ≡ some (backlog m)
    at_mailbox w j m found h e = ap queue_of (sym h.same_view ∙ ap (view p w) (sym e) ∙ found)

  module _ (v : World p) (id : Text) (request : Request) where
    delivered-pushed :
        (r : SendRequest) (w : World p) (m : Mailbox)
        → parse_send cfg request.body ≡ value r
        → Before v id (sent request) w
        → length (drop_stale cfg w.time m).messages < cfg.max_messages
        → to_lower r.mailbox_id ≡ id
        → Step p cfg v.time id
            (sent request)
            (some (backlog m))
            (some (backlog (delivered p cfg r w m)))
    unfolding delivered next_entry
    delivered-pushed r w m form h room e =
        let entry = next_entry p w r in
        let left : backlog (drop_stale cfg w.time m) ≡ lapse cfg.ttl_seconds v.time (backlog m) =
          backlog-drop_stale cfg w.time m ∙ ap (λ t. lapse cfg.ttl_seconds t (backlog m)) h.clock in
        let whole : backlog (delivered p cfg r w m)
            ≡ append_message v.time entry (lapse cfg.ttl_seconds v.time (backlog m)) =
          backlog-enqueue w.time entry (drop_stale cfg w.time m)
          ∙ ap (append_message w.time entry) left
          ∙ ap (λ t. append_message t entry (lapse cfg.ttl_seconds v.time (backlog m))) h.clock in
        rw whole (
          pushed request r entry (backlog m) form e (new_entry-IsEntry _ w.time v.time r h.clock)
            (rw (ap (λ (q : Backlog). q.messages) left) at room))

    pub deliver-Leads :
        (r : SendRequest)
        → parse_send cfg request.body ≡ value r
        → Leads (Before v id (sent request)) (Behind v id (sent request)) (deliver p cfg r)
    deliver-Leads r form = record {
      at = λ w h. step w h (Option-cases (view p w (to_lower r.mailbox_id)));
    }
      where
        step :
            (w : World p)
            → Before v id (sent request) w
            → (view p w (to_lower r.mailbox_id) ≡ none)
              ⊎ ((m : Mailbox) × (view p w (to_lower r.mailbox_id) ≡ some m))
            → Behind v id (sent request) (deliver p cfg r w).1
        step w h (inl gone) =
            rw (deliver-missing p cfg r w gone) (nothing_done v id (sent request) w h)
        step w h (inr (m, found)) =
            elim (Bool-cases (ltb (length (drop_stale cfg w.time m).messages) cfg.max_messages)) [
              | inr full ↦
                  rw (deliver-full p cfg r w m found (ground arith))
                    (nothing_done v id (sent request) w h)
              | inl room ↦
                  let (u, run, same_time, stored) =
                    deliver-run p cfg r w m found (ltb→lt _ _ room) in
                  rw run (
                    written v id (sent request) w u _ _ same_time stored
                      (λ e.
                        rw (at_mailbox v id (sent request) w _ m found h e)
                          (delivered-pushed r w m form h (ltb→lt _ _ room) e))
                      h)
            ]

    pub take_messages-Leads :
        (r : ReadRequest)
        → parse_read request ≡ value r
        → Leads (Before v id (asked request)) (Behind v id (asked request)) (take_messages p cfg r)
    take_messages-Leads r form = record {
      at = λ w h. step w h (Option-cases (view p w (to_lower r.mailbox_id)));
    }
      where
        emptied :
            (w : World p) (m : Mailbox)
            → Before v id (asked request) w
            → to_lower r.mailbox_id ≡ id
            → Step p cfg v.time id
                (asked request)
                (some (backlog m))
                (some (backlog (consume r.peek (drop_stale cfg w.time m))))
        emptied w m h e =
            let left = backlog-drop_stale cfg w.time m in
            let whole : backlog (consume r.peek (drop_stale cfg w.time m))
                ≡ (if r.peek then lapse cfg.ttl_seconds v.time (backlog m) else empty_backlog) =
              backlog-consume r.peek (drop_stale cfg w.time m)
              ∙ ap (λ (q : Backlog). if r.peek then q else empty_backlog) left
              ∙ ap (λ t. if r.peek then lapse cfg.ttl_seconds t (backlog m) else empty_backlog)
                  h.clock in
            rw whole (taken request r (backlog m) form e)

        step :
            (w : World p)
            → Before v id (asked request) w
            → (view p w (to_lower r.mailbox_id) ≡ none)
              ⊎ ((m : Mailbox) × (view p w (to_lower r.mailbox_id) ≡ some m))
            → Behind v id (asked request) (take_messages p cfg r w).1
        step w h (inl gone) =
            rw (take_messages-missing p cfg r w gone) (nothing_done v id (asked request) w h)
        step w h (inr (m, found)) = elim (Bool-cases (may_read p cfg r w m)) [
          | inr bad ↦
              rw (take_messages-denied p cfg r w m found bad)
                (nothing_done v id (asked request) w h)
          | inl ok ↦
              let (u, run, same_time, stored) = take_messages-run p cfg r w m found ok in
              rw run (
                written v id (asked request) w u _ _ same_time stored
                  (λ e. rw (at_mailbox v id (asked request) w _ m found h e) (emptied w m h e)) h)
        ]

    missing :
        (r : CreateRequest) (w : World p)
        → Before v id (created request) w
        → to_lower r.mailbox_id ≡ id
        → view p w (to_lower r.mailbox_id) ≡ none
        → queue v id ≡ none
    missing r w h e gone = ap queue_of (sym h.same_view ∙ ap (view p w) (sym e) ∙ gone)

    created-step :
        (r : CreateRequest) (client : Json) (w : World p)
        → parse_create p request.body ≡ value r
        → Before v id (created request) w
        → to_lower r.mailbox_id ≡ id
        → (o : Option Stored) → p.read w.kv w.time (mailbox_key (to_lower r.mailbox_id)) ≡ o
        → Step p cfg v.time id
            (created request)
            (queue v id)
            (some (backlog (mailbox_after_create r client w.time o).0))
    unfolding mailbox_after_create refreshed created_mailbox view
    created-step r client w form h e none found =
        let seen : view p w (to_lower r.mailbox_id) ≡ none = rw (found, view) refl in
        rw (missing r w h e seen) (made request r form e)
    created-step r client w form h e (some s) found = elim (Option-cases (as_mailbox s)) [
      | inl bad ↦
          (let seen : view p w (to_lower r.mailbox_id) ≡ none = rw (found, view) bad in
            rw (bad, missing r w h e seen) (made request r form e))
      | inr (m, good) ↦
          rw (good, at_mailbox v id (created request) w _ m (rw (found, view) good) h e)
            (kept (created request) (some (backlog m)))
    ]

    pub store_mailbox-Leads :
        (r : CreateRequest)
        → parse_create p request.body ≡ value r
        → Leads
            (Before v id (created request))
            (Behind v id (created request))
            (store_mailbox p cfg r)
    unfolding store_mailbox store_with kv_get kv_put now
    store_mailbox-Leads r form =
        Leads-bind (Before v id (created request)) (Behind v id (created request)) _ _
          (nothing_done v id (created request)) (Keeps-lift _ (client_key r))
          λ client. record {
            at = λ w h.
                written v id (created request) w _ (to_lower r.mailbox_id) _ refl refl
                  (λ e. created-step r client w form h e _ refl) h;
          }

    pub same_start : (a : Act) → Before v id a v
    same_start a = record { clock = refl; same_view = refl }
