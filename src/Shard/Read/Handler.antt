-- ===== src/Shard/Read/Handler.antt =====
-- `handleRead` from outside: what it answers and what it leaves.
use nex_talk_relay.Base.{
  Text, codes, to_lower, ℕ, ◌<◌, ◌≡◌, refl, ap, ◌∙◌, Bool, true, false, Option, none, some, [], ◌∷◌,
  ◌++◌, length, arith,
}
use nex_talk_relay.Js.{Json}
use nex_talk_relay.Platform.{Platform, Mailbox}
use nex_talk_relay.Platform.Exec.{Outcome, value, reply}
use nex_talk_relay.Platform.Http.{Request, Response, err, json}
use nex_talk_relay.Platform.Laws.{KvLaws}
use nex_talk_relay.Platform.World.{World, Run}
use nex_talk_relay.Shard.{Env, Cfg}
use nex_talk_relay.Shard.Limits.{client_ip, rate_limit, is_backlog_stale}
use nex_talk_relay.Shard.Send.{
  SendRequest, drop_stale, enqueue, parse_send, admit_send, handle_send, respond,
}
use nex_talk_relay.Shard.Send.Delivery.{
  view-write, handle_send-stores, handle_send-time, next_entry,
}
use nex_talk_relay.Shard.Read.{
  ReadRequest, consume, read_result, handle_read, parse_read, has_request_id, request_id_text,
}
use nex_talk_relay.Shard.Read.Consumption.{may_read, take_messages-run, take_messages-denied}
use nex_talk_relay.Shard.Frame.{view, SameMailboxes, view-SameMailboxes, Frames-rate_limit}

-- A queue that a message was just put into is not stale.
drop_stale-enqueue :
    (cfg : Cfg) (t : ℕ) (e : Json) (m : Mailbox)
    → 0 < cfg.ttl_seconds
    → drop_stale cfg t (enqueue t e (drop_stale cfg t m)) ≡ enqueue t e (drop_stale cfg t m)
unfolding drop_stale enqueue is_backlog_stale
drop_stale-enqueue cfg t e m pos = ground arith

abbrev read_answer : Bool → Mailbox → Outcome Response
read_answer peek m = value (json (read_result peek m))

answer-enqueue :
    (t : ℕ) (entry : Json) (m : Mailbox)
    → read_answer false (enqueue t entry m)
      ≡ read_answer false (record m { messages = m.messages ++ entry ∷ [] })
unfolding read_result enqueue
answer-enqueue t entry m = refl

consume-enqueue :
    (t : ℕ) (entry : Json) (m : Mailbox)
    → consume false (enqueue t entry m) ≡ record m { messages = []; messages_enqueued_at = none }
unfolding consume enqueue
consume-enqueue t entry m = refl

secret-enqueue :
    (cfg : Cfg) (t : ℕ) (e : Json) (m : Mailbox)
    → (enqueue t e (drop_stale cfg t m)).read_secret_hash ≡ m.read_secret_hash
unfolding drop_stale enqueue
secret-enqueue cfg t e m = ground arith

module _ (p : Platform) (laws : KvLaws p) (request : Request) (env : Env) (cfg : Cfg) where
  abbrev pub read_limit : Run p Bool
  read_limit = rate_limit p (codes "read-ip:" ++ client_ip request) 300 60

  limit-frame : (w v : World p) → read_limit w ≡ (value true, v) → SameMailboxes p w v
  limit-frame w v h =
      rw h at ((Frames-rate_limit p laws (codes "read-ip:" ++ client_ip request) 300 60).at w)

  respond-plain :
      (o : Option Text) (body : Json) (u : World p)
      → o ≡ none
      → respond p (has_request_id p o) (request_id_text p o) body u ≡ (value (json body), u)
  unfolding respond
  respond-plain none body u h = refl
  respond-plain (some t) body u h = cc

  -- A read that passes, in the words of the code.
  pub handle_read-run :
      (r : ReadRequest) (w v : World p) (m : Mailbox)
      → 0 < cfg.mailbox_ttl_seconds
      → parse_read request ≡ value r
      → r.request_id ≡ none
      → read_limit w ≡ (value true, v)
      → view p w (to_lower r.mailbox_id) ≡ some m
      → may_read p cfg r w m ≡ true
      → ((handle_read p request env cfg w).0
          ≡ value (json (read_result r.peek (drop_stale cfg w.time m))))
        × (view p (handle_read p request env cfg w).1 (to_lower r.mailbox_id)
            ≡ some (consume r.peek (drop_stale cfg w.time m)))
  unfolding handle_read
  handle_read-run r w v m pos form plain limited found ok =
      let f = limit-frame w v limited in
      let found' : view p v (to_lower r.mailbox_id) ≡ some m =
        view-SameMailboxes p w v _ f ∙ found in
      let (u, run, same_time, stored) = take_messages-run p cfg r v m found' ok in
      let (here, other) = view-write p laws v u _ _ cfg.mailbox_ttl_seconds pos same_time stored in
      let whole =
        respond-plain r.request_id (read_result r.peek (drop_stale cfg v.time m)) u plain in
      rw (form, limited, run)
        (
          ap (λ (x : Outcome Response × World p). x.0) whole
              ∙ ap (λ t. value (json (read_result r.peek (drop_stale cfg t m)))) f.same_time,
          ap (λ (x : Outcome Response × World p). view p x.1 (to_lower r.mailbox_id)) whole
              ∙ here
              ∙ ap (λ t. some (consume r.peek (drop_stale cfg t m))) f.same_time,
        )

  -- A read with another secret than that of the mailbox is refused, and no mailbox changes.
  pub handle_read-denied :
      (r : ReadRequest) (w v : World p) (m : Mailbox) (j : Text)
      → parse_read request ≡ value r
      → read_limit w ≡ (value true, v)
      → view p w (to_lower r.mailbox_id) ≡ some m
      → may_read p cfg r w m ≡ false
      → ((handle_read p request env cfg w).0 ≡ reply (err (codes "invalid read_secret") 401))
        × (view p (handle_read p request env cfg w).1 j ≡ view p w j)
  unfolding handle_read
  handle_read-denied r w v m j form limited found bad =
      let f = limit-frame w v limited in
      let found' : view p v (to_lower r.mailbox_id) ≡ some m =
        view-SameMailboxes p w v _ f ∙ found in
      rw (form, limited, take_messages-denied p cfg r v m found' bad)
        (refl, view-SameMailboxes p w v j f)

  -- A read behind a send, in the words of the code.
  pub sent-read :
      (sent : Request) (s : SendRequest) (r : ReadRequest) (w v u : World p) (m : Mailbox)
      → 0 < cfg.mailbox_ttl_seconds
      → 0 < cfg.ttl_seconds
      → parse_send cfg sent.body ≡ value s
      → admit_send p sent cfg s w ≡ (value tt, v)
      → view p w (to_lower s.mailbox_id) ≡ some m
      → length (drop_stale cfg w.time m).messages < cfg.max_messages
      → parse_read request ≡ value r
      → r.request_id ≡ none
      → r.peek ≡ false
      → to_lower r.mailbox_id ≡ to_lower s.mailbox_id
      → read_limit (handle_send p sent env cfg w).1 ≡ (value true, u)
      → may_read p cfg r w m ≡ true
      → ((handle_read p request env cfg (handle_send p sent env cfg w).1).0
          ≡ value (
              json (
                read_result false (record (drop_stale cfg w.time m) {
                  messages = (drop_stale cfg w.time m).messages ++ next_entry p v s ∷ [];
                }))))
        × (view p
              (handle_read p request env cfg (handle_send p sent env cfg w).1).1
              (to_lower s.mailbox_id)
            ≡ some
                (record (drop_stale cfg w.time m) { messages = []; messages_enqueued_at = none }))
  sent-read sent s r w v u m pos live form admitted found room rform plain whole eq limited ok =
      let after = enqueue w.time (next_entry p v s) (drop_stale cfg w.time m) in
      let z = (handle_send p sent env cfg w).1 in
      let clock : z.time ≡ w.time =
        handle_send-time p laws sent env cfg s w v m form admitted found room in
      let there : view p z (to_lower s.mailbox_id) ≡ some after =
        handle_send-stores p laws sent env cfg s w v m form admitted found room pos in
      let fresh : drop_stale cfg z.time after ≡ after =
        rw clock (drop_stale-enqueue cfg w.time (next_entry p v s) m live) in
      let (answer, left) =
        handle_read-run r z u after pos rform plain limited (rw eq there)
          (rw (secret-enqueue cfg w.time (next_entry p v s) m) ok) in
      let answered : (handle_read p request env cfg z).0 ≡ read_answer false after =
        cc (answer, ap (λ b. read_answer b after) whole, fresh) in
      let emptied : view p (handle_read p request env cfg z).1 (to_lower s.mailbox_id)
          ≡ some (consume false after) =
        cc (left, eq, ap (λ b. some (consume b after)) whole, fresh) in
      (
        answered ∙ answer-enqueue w.time (next_entry p v s) (drop_stale cfg w.time m),
        emptied ∙ ap some (consume-enqueue w.time (next_entry p v s) (drop_stale cfg w.time m)),
      )
