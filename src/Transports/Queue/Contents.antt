-- ===== src/Transports/Queue/Contents.antt =====
-- The bytes of the queue in the memory (transports/tools/wasmasm.mjs), through the writes of the host
-- and of the module.
use mathlib.Core.List.{append_assoc, append-nil}
use nex_talk_relay.Base.{
  ℕ, zero, suc, ◌+◌, ◌-◌, ◌%◌, ◌^◌, ◌≤◌, ◌<◌, ◌≡◌, refl, ap, sym, ◌∙◌, Bool-cases, ◌⊎◌, inl, inr,
  List, [], ◌∷◌, ◌++◌, length, length-append, ltb, ltb→lt, arith,
}
use nex_talk_relay.Encoding.{Bytes}
use nex_talk_relay.Transports.Assembler.{queue_at}
use nex_talk_relay.Transports.Machine.{Memory}
use nex_talk_relay.Transports.Host.{byte_at, write}
use nex_talk_relay.Transports.Queue.{be32, layout, Contains}
use nex_talk_relay.Transports.Queue.Calls.{framed}

pub byte_at-append_left :
    (xs ys : Bytes) (i : ℕ) → i < length xs → byte_at (xs ++ ys) i ≡ byte_at xs i
byte_at-append_left [] ys i h = absurd (omega arith)
byte_at-append_left (x ∷ xs) ys zero h = refl
byte_at-append_left (x ∷ xs) ys (suc i) h = byte_at-append_left xs ys i (omega arith)

pub byte_at-append_right :
    (xs ys : Bytes) (i : ℕ) → byte_at (xs ++ ys) (length xs + i) ≡ byte_at ys i
byte_at-append_right [] ys i = ground arith
byte_at-append_right (x ∷ xs) ys i = ground (arith, byte_at-append_right xs ys i)

layout-append :
    (q : List Bytes) (f : Bytes) → layout (q ++ f ∷ []) ≡ layout q ++ (be32 (length f) ++ f)
layout-append [] f = ground (arith, append-nil f)
layout-append (g ∷ q) f = simp (layout-append q f, append_assoc)

-- Outside the block that is written, the memory is as it was.
pub write-apart :
    (m : Memory) (p : ℕ) (d : Bytes) (a : ℕ) → (p + length d ≤ a) ⊎ (a < p) → write m p d a ≡ m a
write-apart m p d a h = ground arith

write-below : (m : Memory) (p : ℕ) (d : Bytes) (a : ℕ) → p + length d ≤ a → write m p d a ≡ m a
write-below m p d a h = ground arith

pub write-inside :
    (m : Memory) (p : ℕ) (d : Bytes) (i : ℕ) → i < length d → write m p d (p + i) ≡ byte_at d i
write-inside m p d i h = let e : p + i - p ≡ i = omega arith in ground (arith, ap (byte_at d) e)

-- What `ntx_send` leaves below the new entry, in its four first bytes and behind them.
framed-below :
    (m : Memory) (qlen fp n i : ℕ)
    → i < qlen
    → qlen + n + 4 ≤ 0x4000
    → framed m (queue_at + qlen) fp n (queue_at + i) ≡ m (queue_at + i)
framed-below m qlen fp n i h k = ground arith

framed-header :
    (m : Memory) (qlen fp n i : ℕ)
    → i < 4
    → qlen + n + 4 ≤ 0x4000
    → framed m (queue_at + qlen) fp n (queue_at + (qlen + i)) ≡ byte_at (be32 n) i
framed-header m qlen fp n zero h k = ground arith
framed-header m qlen fp n (suc zero) h k = ground arith
framed-header m qlen fp n (suc (suc zero)) h k = ground arith
framed-header m qlen fp n (suc (suc (suc zero))) h k = ground arith
framed-header m qlen fp n (suc (suc (suc (suc i)))) h k = absurd (omega arith)

framed-inside :
    (m : Memory) (qlen fp n i : ℕ)
    → i < n
    → fp + n ≤ queue_at
    → qlen + n + 4 ≤ 0x4000
    → framed m (queue_at + qlen) fp n (queue_at + (qlen + 4 + i)) ≡ m (fp + i)
framed-inside m qlen fp n i h below k =
    let e : queue_at + (qlen + 4 + i) - (queue_at + qlen + 4) % 2 ^ 32 + fp ≡ fp + i =
      omega arith in
    ground (arith, ap m e)

pub length-layout_snoc :
    (q : List Bytes) (f : Bytes) → length (layout (q ++ f ∷ [])) ≡ length (layout q) + length f + 4
length-layout_snoc q f =
    rw (layout-append q f) (omega (arith, length-append {0} (layout q) (be32 (length f) ++ f)))

-- A block that the host writes below the queue.
pub write-Contains :
    {q : List Bytes} {qlen bump : ℕ} {m : Memory} (p next : ℕ) (d : Bytes)
    → Contains q qlen bump m
    → p + length d ≤ queue_at
    → 0x1000 ≤ next
    → next ≤ 0x3f00
    → Contains q qlen next (write m p d)
write-Contains {m} p next d c below low high = record {
  size = c.size;
  room = c.room;
  bottom = low;
  top = high;
  held = λ i h. write-below m p d (queue_at + i) (omega arith) ∙ c.held i h;
}

-- An entry that `ntx_send` puts behind the queue.
pub framed-Contains :
    {q : List Bytes} {qlen bump : ℕ} {m : Memory} (fp : ℕ) (f : Bytes)
    → Contains q qlen bump m
    → ((i : ℕ) → i < length f → m (fp + i) ≡ byte_at f i)
    → fp + length f ≤ queue_at
    → qlen + length f + 4 ≤ 0x4000
    → Contains (q ++ f ∷ []) (qlen + length f + 4) bump (framed m (queue_at + qlen) fp (length f))
framed-Contains {q} {qlen} {bump} {m} fp f c there below fits = record {
  size = omega (arith, c.size, length-layout_snoc q f);
  room = fits;
  bottom = c.bottom;
  top = c.top;
  held = held;
}
  where
    n : ℕ
    n = length f

    after : Memory
    after = framed m (queue_at + qlen) fp n

    entry : (k : ℕ) → byte_at (layout (q ++ f ∷ [])) (qlen + k) ≡ byte_at (be32 n ++ f) k
    entry k = rw (layout-append q f, c.size) (byte_at-append_right (layout q) (be32 n ++ f) k)

    header :
        (k : ℕ) → k < 4 → after (queue_at + (qlen + k)) ≡ byte_at (layout (q ++ f ∷ [])) (qlen + k)
    header k h =
        framed-header m qlen fp n k h fits
        ∙ sym (byte_at-append_left (be32 n) f k h)
        ∙ sym (entry k)

    inside :
        (k : ℕ)
        → k < n
        → after (queue_at + (qlen + 4 + k)) ≡ byte_at (layout (q ++ f ∷ [])) (qlen + (4 + k))
    inside k h =
        framed-inside m qlen fp n k h below fits
        ∙ there k h
        ∙ sym (byte_at-append_right (be32 n) f k)
        ∙ sym (entry (4 + k))

    old : (i : ℕ) → i < qlen → after (queue_at + i) ≡ byte_at (layout (q ++ f ∷ [])) i
    old i h =
        framed-below m qlen fp n i h fits
        ∙ c.held i h
        ∙ rw (layout-append q f)
            (sym (byte_at-append_left (layout q) (be32 n ++ f) i (omega (arith, c.size))))

    held : (i : ℕ) → i < qlen + n + 4 → after (queue_at + i) ≡ byte_at (layout (q ++ f ∷ [])) i
    held i h = elim (Bool-cases (ltb i qlen)) [
      | inl before ↦ old i (ltb→lt _ _ before)
      | inr behind ↦ elim (Bool-cases (ltb i (qlen + 4))) [
        | inl in_header ↦
            (let e : qlen + (i - qlen) ≡ i = ground arith in
              rw e at (header (i - qlen) (ground arith)))
        | inr in_frame ↦
            (let e : qlen + 4 + (i - qlen - 4) ≡ i = ground arith in
              let e' : qlen + (4 + (i - qlen - 4)) ≡ i = ground arith in
              rw (e, e') at (inside (i - qlen - 4) (ground arith)))
      ]
    ]
