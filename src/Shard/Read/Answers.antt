-- ===== src/Shard/Read/Answers.antt =====
-- What a reader gets, and what is left (shard/worker.js, `handleRead`).
use nex_talk_relay.Shard.Read.Handler.{read_limit, handle_read-run, sent-read}
use nex_talk_relay.Base.{
  not, List, if◌then◌else◌, codes, to_lower, ℕ, ◌<◌, ◌≡◌, refl, ap, ◌∙◌, Bool, true, false, none,
  some, [], ◌∷◌, ◌++◌, length,
}
use nex_talk_relay.Encoding.{bytes_to_hex}
use nex_talk_relay.Js.{Json, bool, num, arr, from_list, object}
use nex_talk_relay.Platform.{Platform, Mailbox}
use nex_talk_relay.Platform.Exec.{value}
use nex_talk_relay.Platform.Http.{Request, json}
use nex_talk_relay.Platform.Laws.{KvLaws}
use nex_talk_relay.Platform.World.{World}
use nex_talk_relay.Shard.{Env, Cfg}
use nex_talk_relay.Shard.Send.{SendRequest, drop_stale, parse_send, admit_send, handle_send}
use nex_talk_relay.Shard.Send.Delivery.{
  IsEntry, new_entry-IsEntry, kept_messages, drop_stale-kept, admit-frame, next_entry,
}
use nex_talk_relay.Shard.Read.{ReadRequest, consume, read_result, handle_read, parse_read}
use nex_talk_relay.Shard.Read.Consumption.{may_read}
use nex_talk_relay.Shard.Frame.{view}

-- The answer of a read: the messages, how many they are, when the mailbox was made, and whether they are
-- gone.
abbrev pub answer_of : Bool → List Json → ℕ → Json
answer_of peek messages created_at = object (
    (codes "messages", arr (from_list messages))
    ∷ (codes "count", num (length messages))
    ∷ (codes "createdAt", num created_at)
    ∷ (codes "consumed", bool (not peek))
    ∷ [])

read_result-answer :
    (peek : Bool) (m : Mailbox) (messages : List Json)
    → m.messages ≡ messages
    → read_result peek m ≡ answer_of peek messages m.created_at
unfolding read_result
read_result-answer peek m messages e = rw e refl

consume-messages :
    (peek : Bool) (m : Mailbox)
    → ((consume peek m).messages ≡ (if peek then m.messages else []))
      × ((consume peek m).read_secret_hash ≡ m.read_secret_hash)
unfolding consume
consume-messages true m = (refl, refl)
consume-messages false m = (refl, refl)

module _ (p : Platform) (laws : KvLaws p) (request : Request) (env : Env) (cfg : Cfg) where
  -- Let a read have the right form (`r`), pass the rate limit, carry the secret of the mailbox, and
  -- ask for no signature. It answers with the messages that are there, oldest first, of which there are
  -- none where the queue began `TTL_SECONDS` ago, with their number, and with the time at which the
  -- mailbox was made. Afterwards the mailbox has no messages, or, after a peek, the same, and its secret
  -- is what it was.
  pub handle_read-returns :
      (r : ReadRequest) (w v : World p) (m : Mailbox)
      → 0 < cfg.mailbox_ttl_seconds
      → parse_read request ≡ value r
      → r.request_id ≡ none
      → read_limit p laws request env cfg w ≡ (value true, v)
      → view p w (to_lower r.mailbox_id) ≡ some m
      → may_read p cfg r w m ≡ true
      → ((handle_read p request env cfg w).0
          ≡ value (json (answer_of r.peek (kept_messages cfg w.time m) m.created_at)))
        × (n : Mailbox) × (view p (handle_read p request env cfg w).1 (to_lower r.mailbox_id)
            ≡ some n)
        × (n.messages ≡ (if r.peek then kept_messages cfg w.time m else []))
        × (n.read_secret_hash ≡ m.read_secret_hash)
  handle_read-returns r w v m pos form plain limited found ok =
      let (answer, left) =
        handle_read-run p laws request env cfg r w v m pos form plain limited found ok in
      let (kept, created, secret) = drop_stale-kept cfg w.time m in
      let (messages, same_secret) = consume-messages r.peek (drop_stale cfg w.time m) in
      (
        answer
            ∙ ap (λ b. value (json b))
                (read_result-answer r.peek (drop_stale cfg w.time m) (kept_messages cfg w.time m)
                    kept
                  ∙ ap (answer_of r.peek (kept_messages cfg w.time m)) created),
        consume r.peek (drop_stale cfg w.time m),
        left,
        messages ∙ ap (λ (q : List Json). if r.peek then q else []) kept,
        same_secret ∙ secret,
      )

  -- The message of a send that is accepted is what a reader of the mailbox gets last, behind all earlier
  -- messages in their order, of which there are none where the queue began `TTL_SECONDS` ago, and the
  -- reader leaves no message. The last message has the text of the send, its sender and its time. The read
  -- comes at the instant of the send and next after it, passes the rate limit, has the secret of the
  -- mailbox, does not peek, and asks for no signature.
  pub send_then_read :
      (sent : Request) (s : SendRequest) (r : ReadRequest) (w v u : World p) (m : Mailbox)
      → 0 < cfg.mailbox_ttl_seconds
      → 0 < cfg.ttl_seconds
      → parse_send cfg sent.body ≡ value s
      → admit_send p sent cfg s w ≡ (value tt, v)
      → view p w (to_lower s.mailbox_id) ≡ some m
      → length (kept_messages cfg w.time m) < cfg.max_messages
      → parse_read request ≡ value r
      → r.request_id ≡ none
      → r.peek ≡ false
      → to_lower r.mailbox_id ≡ to_lower s.mailbox_id
      → read_limit p laws request env cfg (handle_send p sent env cfg w).1 ≡ (value true, u)
      → may_read p cfg r w m ≡ true
      → (entry : Json) × IsEntry w.time s entry
        × ((handle_read p request env cfg (handle_send p sent env cfg w).1).0
            ≡ value
                (json (answer_of false (kept_messages cfg w.time m ++ entry ∷ []) m.created_at)))
        × (n : Mailbox) × (view p
              (handle_read p request env cfg (handle_send p sent env cfg w).1).1
              (to_lower s.mailbox_id)
            ≡ some n)
        × (n.messages ≡ [])
        × (n.read_secret_hash ≡ m.read_secret_hash)
  unfolding next_entry
  send_then_read sent s r w v u m pos live form admitted found room rform plain whole eq limited
        ok =
      let (kept, created, secret) = drop_stale-kept cfg w.time m in
      let (answer, left) =
        sent-read p laws request env cfg sent s r w v u m pos live form admitted found
          (rw kept room) rform plain whole eq limited ok in
      let f = admit-frame p laws sent env cfg s w v admitted in
      (
        next_entry p v s,
        new_entry-IsEntry (bytes_to_hex (p.random_bytes v.draws 8)) v.time w.time s f.same_time,
        answer
            ∙ ap (λ b. value (json b))
                (read_result-answer false _ (kept_messages cfg w.time m ++ next_entry p v s ∷ [])
                    (ap (λ q. q ++ next_entry p v s ∷ []) kept)
                  ∙ ap (answer_of false (kept_messages cfg w.time m ++ next_entry p v s ∷ []))
                      created),
        _,
        left,
        refl,
        secret,
      )
