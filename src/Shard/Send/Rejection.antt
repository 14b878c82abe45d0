-- ===== src/Shard/Send/Rejection.antt =====
-- `handleSend` that answers early changes no mailbox.
use nex_talk_relay.Base.{
  Text, to_lower, ◌≡◌, refl, ap, ◌∙◌, Bool, ◌&&◌, length, ltb, ltb→lt, Bool-cases, Option-cases,
  inl, inr, arith,
}
use nex_talk_relay.Js.{Json, truthy, is_string, to_text}
use nex_talk_relay.Platform.{Platform, Mailbox, as_identity}
use nex_talk_relay.Encoding.{utf8}
use nex_talk_relay.Platform.Ends.{
  NeverReplies, NeverReplies-pure, NeverReplies-throw, NeverReplies-if, NeverReplies-option,
  NeverReplies-bind, reply-bind,
}
use nex_talk_relay.Platform.Exec.{Outcome, value, reply, throw, lift, ◌>>=◌, ◌>>◌}
use nex_talk_relay.Platform.Http.{Request, Response}
use nex_talk_relay.Platform.Laws.{KvLaws}
use nex_talk_relay.Platform.World.{World, Run, now, kv_get, kv_put, generate_key}
use nex_talk_relay.Shard.{Env, Cfg}
use nex_talk_relay.Shard.Keys.{
  ensure_shard_identity, sign_with_shard_key, build_shard_signed_response,
}
use nex_talk_relay.Shard.Send.{
  SendRequest, drop_stale, deliver, handle_send, parse_send, admit_send, respond, send_result,
}
use nex_talk_relay.Shard.Send.Delivery.{deliver-run, deliver-full, deliver-missing}
use nex_talk_relay.Shard.Frame.{
  view, SameMailboxes, SameMailboxes-refl, view-SameMailboxes, Frames-admit_send,
}

module _ (p : Platform) where
  get-never : (k : Text) → NeverReplies (kv_get p k)
  unfolding kv_get
  get-never k = record { at = λ w e h. cc }

  identity-never : NeverReplies (ensure_shard_identity p)
  unfolding ensure_shard_identity generate_key kv_put
  identity-never = NeverReplies-bind _ _ (get-never _) λ raw.
      NeverReplies-option raw _ _ (record { at = λ w e h. cc })
        (λ s.
          NeverReplies-option (as_identity s) _ _ (NeverReplies-throw _) (λ i. NeverReplies-pure i))

  now-never : NeverReplies (now p)
  unfolding now
  now-never = record { at = λ w e h. cc }

  sign-never : (key message : Text) → NeverReplies (sign_with_shard_key p key message)
  unfolding sign_with_shard_key
  sign-never key message =
      NeverReplies-option (p.sign key (utf8 message)) _ _ (NeverReplies-throw _)
        (λ s. NeverReplies-pure _)

  -- The signed or plain response at the end of a handler is no early answer.
  pub respond-NeverReplies :
      (signed : Bool) (id : Text) (result : Json) → NeverReplies (respond p signed id result)
  unfolding respond build_shard_signed_response
  respond-NeverReplies signed id result =
      NeverReplies-if signed _ _
        (NeverReplies-bind _ _
          (NeverReplies-bind _ _ identity-never λ own.
            NeverReplies-bind _ _ now-never
              λ t. NeverReplies-bind _ _ (sign-never _ _) λ s. NeverReplies-pure _)
          λ v. NeverReplies-pure _)
        (NeverReplies-pure _)

  -- What `deliver` answers early has changed nothing.
  deliver-reply :
      (cfg : Cfg) (r : SendRequest) (w : World p) (e : Response)
      → (deliver p cfg r w).0 ≡ reply e
      → (deliver p cfg r w).1 ≡ w
  deliver-reply cfg r w e h = elim (Option-cases (view p w (to_lower r.mailbox_id))) [
    | inl gone ↦ rw (deliver-missing p cfg r w gone) refl
    | inr (m, found) ↦
        elim (Bool-cases (ltb (length (drop_stale cfg w.time m).messages) cfg.max_messages)) [
          | inl room ↦
              let (v, run, t, s) = deliver-run p cfg r w m found (ltb→lt _ _ room) in
              absurd (cc (h, ap (λ (o : Outcome Mailbox × World p). o.0) run))
          | inr full ↦ rw (deliver-full p cfg r w m found (ground arith)) refl
        ]
  ]

module _ (p : Platform) (laws : KvLaws p) (request : Request) (env : Env) (cfg : Cfg) where
  after_admission : SendRequest → Run p Response
  after_admission r = do
    next ← deliver p cfg r
    respond p (truthy r.request_id && is_string r.request_id) (to_text r.request_id)
        (send_result next)

  after_admission-reply :
      (r : SendRequest) (w : World p) (e : Response)
      → (after_admission r w).0 ≡ reply e
      → (after_admission r w).1 ≡ w
  unfolding after_admission
  after_admission-reply r w e h =
      let (early, stays) =
        reply-bind (deliver p cfg r) _ w e (λ next. respond-NeverReplies p _ _ _) h in
      stays ∙ deliver-reply p cfg r w e early

  admitted-reply :
      (r : SendRequest) (o : Outcome Unit) (w v : World p) (e : Response)
      → SameMailboxes p w v
      → ((lift o >> after_admission r) v).0 ≡ reply e
      → SameMailboxes p w ((lift o >> after_admission r) v).1
  admitted-reply r (value u) w v e f h = rw (after_admission-reply r v e h) f
  admitted-reply r (reply x) w v e f h = f
  admitted-reply r (throw x) w v e f h = f

  parsed-reply :
      (o : Outcome SendRequest) (w : World p) (e : Response)
      → ((do r ← lift o; admit_send p request cfg r; after_admission r) w).0 ≡ reply e
      → SameMailboxes p w ((do r ← lift o; admit_send p request cfg r; after_admission r) w).1
  parsed-reply (value r) w e h =
      admitted-reply r (admit_send p request cfg r w).0 w (admit_send p request cfg r w).1 e
        ((Frames-admit_send p laws request cfg r).at w) h
  parsed-reply (reply x) w e h = SameMailboxes-refl p w
  parsed-reply (throw x) w e h = SameMailboxes-refl p w

  -- A send that is answered early, whatever the reason, leaves every mailbox as it was.
  pub handle_send-rejects :
      (w : World p) (e : Response) (id : Text)
      → (handle_send p request env cfg w).0 ≡ reply e
      → view p (handle_send p request env cfg w).1 id ≡ view p w id
  unfolding handle_send after_admission
  handle_send-rejects w e id h =
      view-SameMailboxes p w _ id (parsed-reply (parse_send cfg request.body) w e h)
