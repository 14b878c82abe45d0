-- ===== src/Transports/Queue/Polled.antt =====
-- Polling: what `frames` finds in the output of the queue module (transports/tools/verify-wasm.mjs).
use Prim.Native.Nat.{min}
use nex_talk_relay.Base.{
  ℕ, zero, suc, ◌+◌, ◌-◌, ◌*◌, ◌/◌, ◌%◌, ◌^◌, ◌≤◌, ◌<◌, ◌≡◌, refl, ap, ◌∙◌, some, List, [], ◌∷◌,
  ◌++◌, length, length-append, le→leb, lt→ltb, arith,
}
use nex_talk_relay.Encoding.{Bytes}
use nex_talk_relay.Transports.Assembler.{queue_at, out_at}
use nex_talk_relay.Transports.Machine.{Memory, memory_size, copy}
use nex_talk_relay.Transports.Host.{
  byte_at, write, bytes_at, blob, max_frame, take_bytes, drop_bytes, be32_value, frames_loop,
  frames, poll_frames,
}
use nex_talk_relay.Transports.Queue.{layout, Contains, AllFilled}
use nex_talk_relay.Transports.Queue.Calls.{inst_of, alloc_at, up_to_eights, poll_lem}
use nex_talk_relay.Transports.Queue.Contents.{write-Contains}
use nex_talk_relay.Transports.Queue.Sent.{alloc_at_bounds, put_lem}

take_bytes-append : (f r : Bytes) → take_bytes (length f) (f ++ r) ≡ f
take_bytes-append [] r = refl
take_bytes-append (b ∷ f) r = rw (take_bytes-append f r) refl

drop_bytes-append : (f r : Bytes) → drop_bytes (length f) (f ++ r) ≡ r
drop_bytes-append [] r = refl
drop_bytes-append (b ∷ f) r = drop_bytes-append f r

be32_value-be32 :
    (n : ℕ)
    → n < 2 ^ 32
    → be32_value (n / 2 ^ 24 % 256) (n / 2 ^ 16 % 256) (n / 2 ^ 8 % 256) (n % 256) ≡ n
be32_value-be32 n h = omega arith

frames_loop-layout :
    (rounds : ℕ) (q : List Bytes)
    → length (layout q) ≤ rounds
    → length (layout q) ≤ max_frame
    → AllFilled q
    → frames_loop rounds (layout q) ≡ (q, [])
unfolding frames_loop
frames_loop-layout rounds [] h small full = refl
frames_loop-layout zero (f ∷ q) h small full = absurd (omega arith)
frames_loop-layout (suc rounds) (f ∷ q) h small full =
    let sum : length (f ++ layout q) ≡ length f + length (layout q) = length-append f (layout q) in
    let again = frames_loop-layout rounds q (omega arith) (omega arith) full.1 in
    rw
      (
        be32_value-be32 (length f) (omega arith),
        take_bytes-append f (layout q),
        drop_bytes-append f (layout q),
        again,
        lt→ltb 0 (length f) full.0,
        le→leb (length f) max_frame (omega arith),
        le→leb (length f) (length (f ++ layout q)) (omega arith),
      )
      refl

-- The frames of a queue are found in its bytes, in their order.
frames-layout :
    (q : List Bytes) → length (layout q) ≤ max_frame → AllFilled q → frames (layout q) ≡ (q, [])
unfolding frames
frames-layout q small full = frames_loop-layout (length (layout q)) q (omega arith) small full

pub bytes_at-eq :
    (bs : Bytes) (m : Memory) (p : ℕ)
    → ((i : ℕ) → i < length bs → m (p + i) ≡ byte_at bs i)
    → bytes_at m p (length bs) ≡ bs
bytes_at-eq [] m p h = refl
bytes_at-eq (b ∷ bs) m p h =
    let first : m p ≡ b = ap m (omega arith) ∙ h 0 (omega arith) in
    let rest = bytes_at-eq bs m (p + 1) (λ i k. ap m (omega arith) ∙ h (suc i) (omega arith)) in
    cc (first, rest)

copied-out :
    (m : Memory) (n i : ℕ) → i < n → copy m out_at queue_at n (out_at + i) ≡ m (queue_at + i)
copied-out m n i h =
    let e : out_at + i - out_at + queue_at ≡ queue_at + i = omega arith in ground (arith, ap m e)

blob-layout :
    (q : List Bytes) (qlen bump : ℕ) (m : Memory)
    → Contains q qlen bump m
    → blob (0x8000 * 2 ^ 32 + qlen) (copy m out_at queue_at qlen) ≡ layout q
unfolding blob
blob-layout q qlen bump m c =
    let p : (0x8000 * 2 ^ 32 + qlen) / 2 ^ 32 ≡ out_at = omega (arith, c.room) in
    let l : (0x8000 * 2 ^ 32 + qlen) % 2 ^ 32 ≡ qlen = omega (arith, c.room) in
    let n : min qlen (memory_size - out_at) ≡ length (layout q) = ground (arith, c.room, c.size) in
    let at : (i : ℕ)
        → i < length (layout q)
        → copy m out_at queue_at qlen (out_at + i) ≡ byte_at (layout q) i =
      λ i h. copied-out m qlen i (omega (arith, c.size)) ∙ c.held i (omega (arith, c.size)) in
    rw (p, l, n) (bytes_at-eq (layout q) (copy m out_at queue_at qlen) out_at at)

copied-Contains :
    {q : List Bytes} {qlen bump : ℕ} {m : Memory}
    → Contains q qlen bump m
    → Contains [] 0 bump (copy m out_at queue_at qlen)
copied-Contains c = record {
  size = refl;
  room = omega arith;
  bottom = c.bottom;
  top = c.top;
  held = λ i h. absurd (omega arith);
}

-- A poll returns the frames of the queue in their order, with no failure, and empties the queue.
pub poll_frames_lem :
    (mailbox : Bytes) (q : List Bytes) (run qlen bump : ℕ) (m : Memory)
    → length mailbox ≤ 0x2f00
    → Contains q qlen bump m
    → AllFilled q
    → (bump' : ℕ) × (m' : Memory) × (poll_frames mailbox (inst_of run qlen bump m)
        ≡ some ((q, []), inst_of run 0 bump' m'))
      × Contains [] 0 bump' m'
unfolding poll_frames
poll_frames_lem mailbox q run qlen bump m fits c full =
    let n : ℕ = length mailbox in
    let p : ℕ = alloc_at bump n in
    let bump' : ℕ = up_to_eights (p + n) in
    let m1 : Memory = write m p mailbox in
    let (low, high, next_low, next_high) = alloc_at_bounds bump n c.bottom c.top fits in
    let c1 : Contains q qlen bump' m1 =
      write-Contains p bump' mailbox c (omega arith) next_low next_high in
    (
      bump',
      copy m1 out_at queue_at qlen,
      rw
          (
            put_lem mailbox run qlen bump m c.bottom c.top fits,
            poll_lem 10 p 1 run qlen bump' m1 c.room,
            blob-layout q qlen bump' m1 c1,
            frames-layout q (omega (arith, c.size, c.room)) full,
            poll_frames,
          )
          refl,
      copied-Contains c1,
    )
