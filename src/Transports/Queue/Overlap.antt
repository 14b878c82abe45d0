-- ===== src/Transports/Queue/Overlap.antt =====
-- Long frames: `ntx_alloc` starts again from the bottom of its heap (transports/tools/wasmasm.mjs) while
-- the host still needs the frame that lies there (transports/tools/verify-wasm.mjs `put`).
use nex_talk_relay.Base.{
  ℕ, zero, suc, ◌+◌, ◌-◌, ◌≤◌, ◌<◌, ◌≡◌, refl, sym, ◌∙◌, ap, Bool-cases, inl, inr, some, [], ◌∷◌,
  ◌++◌, length, length-append, ltb, ltb→lt, arith,
}
use nex_talk_relay.Encoding.{Bytes}
use nex_talk_relay.Transports.Assembler.{queue_at}
use nex_talk_relay.Transports.Machine.{Memory, call}
use nex_talk_relay.Transports.Host.{byte_at, write, drop_bytes, send_frame}
use nex_talk_relay.Transports.Queue.{Contains}
use nex_talk_relay.Transports.Queue.Calls.{inst_of, alloc_at, up_to_eights, framed, send-fits_lem}
use nex_talk_relay.Transports.Queue.Contents.{
  byte_at-append_left, byte_at-append_right, write-inside, write-apart, framed-Contains,
}
use nex_talk_relay.Transports.Queue.Sent.{put_lem}
use nex_talk_relay.Transports.Queue.Polled.{poll_frames_lem}
use nex_talk_relay.Transports.Queue.Refines.{
  send, poll, code, found, session, serve_all-nil, serve_all-cons, serve-send, serve-poll,
}

-- The frame with the recipient written over its first bytes.
abbrev pub overwritten : Bytes → Bytes → Bytes
overwritten f recipient = recipient ++ drop_bytes (length recipient) f

length-drop_bytes : (l : ℕ) (f : Bytes) → l ≤ length f → length (drop_bytes l f) + l ≡ length f
length-drop_bytes zero f h = omega arith
length-drop_bytes (suc l) [] h = absurd (omega arith)
length-drop_bytes (suc l) (b ∷ f) h = omega (arith, length-drop_bytes l f (omega arith))

byte_at-drop_bytes : (l : ℕ) (f : Bytes) (i : ℕ) → byte_at (drop_bytes l f) i ≡ byte_at f (l + i)
byte_at-drop_bytes zero f i = ap (byte_at f) (omega arith)
byte_at-drop_bytes (suc l) [] i = refl
byte_at-drop_bytes (suc l) (b ∷ f) i = ground (arith, byte_at-drop_bytes l f i)

length-overwritten : (f r : Bytes) → length r ≤ length f → length (overwritten f r) ≡ length f
length-overwritten f r h =
    omega (arith, length-append r (drop_bytes (length r) f), length-drop_bytes (length r) f h)

-- Two blocks at one address.
twice_written :
    (m : Memory) (p : ℕ) (f r : Bytes) (i : ℕ)
    → length r ≤ length f
    → i < length f
    → write (write m p f) p r (p + i) ≡ byte_at (overwritten f r) i
twice_written m p f r i short h = elim (Bool-cases (ltb i (length r))) [
  | inl first ↦
      write-inside (write m p f) p r i (ltb→lt _ _ first)
      ∙ sym (byte_at-append_left r (drop_bytes (length r) f) i (ltb→lt _ _ first))
  | inr rest ↦
      (let e : length r + (i - length r) ≡ i = ground arith in
        let tail : byte_at (overwritten f r) i ≡ byte_at f i = rw e at (
          byte_at-append_right r (drop_bytes (length r) f) (i - length r)
          ∙ byte_at-drop_bytes (length r) f (i - length r)) in
        write-apart (write m p f) p r (p + i) (inl (ground arith))
        ∙ write-inside m p f i h
        ∙ sym tail)
]

module _ (f recipient : Bytes) (m : Memory) (short : length recipient ≤ length f)
    (long : 12032 < length f + length recipient) (fits : length f ≤ 12032) where
  abbrev bump1 : ℕ
  bump1 = up_to_eights (0x1000 + length f)

  abbrev m2 : Memory
  m2 = write (write m 0x1000 f) 0x1000 recipient

  abbrev bump2 : ℕ
  bump2 = up_to_eights (0x1000 + length recipient)

  same_place :
      (alloc_at 0x1000 (length f) ≡ 0x1000)
      × (alloc_at bump1 (length recipient) ≡ 0x1000)
      × (0x1000 ≤ bump1)
      × (bump1 ≤ 0x3f00)
  same_place = ground arith

  send_frame-overwrites :
      send_frame f recipient (inst_of 1 0 0x1000 m)
      ≡ some (0, inst_of 1 (0 + length f + 4) bump2 (framed m2 (queue_at + 0) 0x1000 (length f)))
  unfolding send_frame
  send_frame-overwrites =
      let (first, second, low, high) = same_place in
      let put1 = put_lem f 1 0 0x1000 m (omega arith) (omega arith) fits in
      let put2 = put_lem recipient 1 0 bump1 (write m 0x1000 f) low high (omega arith) in
      rw
        (
          put1,
          first,
          put2,
          second,
          first,
          send-fits_lem 0x1000 (length f) 0x1000 (length recipient) 0 bump2 m2 (omega arith)
              (omega arith),
          send_frame,
        )
        refl

  -- The entry of the queue is the frame with the recipient over its first bytes.
  holds_overwritten :
      Contains
        (overwritten f recipient ∷ [])
        (0 + length f + 4)
        bump2
        (framed m2 (queue_at + 0) 0x1000 (length f))
  holds_overwritten =
      let same_length = length-overwritten f recipient short in
      let empty : Contains [] 0 bump2 m2 = record {
        size = refl;
        room = omega arith;
        bottom = ground arith;
        top = ground arith;
        held = λ i h. absurd (omega arith);
      } in
      rw same_length at (
        framed-Contains 0x1000 (overwritten f recipient) empty
          (λ i h. twice_written m 0x1000 f recipient i short (omega (arith, same_length)))
          (omega (arith, same_length)) (omega (arith, same_length)))

  -- A first frame that leaves no room for its recipient in the module's heap of 12032 bytes is
  -- delivered damaged, although the module accepts it: `ntx_alloc` gives the recipient the place where
  -- the frame lies, and the poll returns the frame with the recipient over its first bytes. The frame
  -- alone fits the heap, and the recipient, which is not empty, is no longer than the frame.
  pub long_frame-overwritten :
      (mailbox : Bytes)
      → 0 < length recipient
      → length mailbox ≤ 12032
      → session m (send f recipient ∷ poll mailbox ∷ [])
        ≡ some (code 0 ∷ found (overwritten f recipient ∷ [], []) ∷ [])
  unfolding session call
  long_frame-overwritten mailbox some_recipient mailbox_fits =
      let filled : 0 < length (overwritten f recipient) =
        omega (arith, length-overwritten f recipient short) in
      let (bump', m', run, _) =
        poll_frames_lem mailbox (overwritten f recipient ∷ []) 1 (0 + length f + 4) bump2
          (framed m2 (queue_at + 0) 0x1000 (length f)) mailbox_fits holds_overwritten
          (filled, tt) in
      serve_all-cons (send f recipient) (poll mailbox ∷ []) _ _ (code 0) _
        (serve-send f recipient _ _ 0 send_frame-overwrites)
        (serve_all-cons (poll mailbox) [] _ (inst_of 1 0 bump' m')
          (found (overwritten f recipient ∷ [], [])) [] (serve-poll mailbox _ _ _ run)
          (serve_all-nil (inst_of 1 0 bump' m')))
