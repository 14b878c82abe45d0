-- ===== src/Transports/Ntx/Crc.antt =====
-- The checksum of the zip writer (transports/tools/ntx.mjs, `crcTable` and `crc32`) against the
-- definition of CRC-32 bit by bit.
use Prim.Native.Nat.{bit_xor}
use nex_talk_relay.Base.{
  ℕ, zero, suc, ◌*◌, ◌/◌, ◌%◌, ◌^◌, ◌<◌, ◌≡◌, refl, ap, sym, ◌∙◌, Bool-cases, inl, inr, [], ◌∷◌,
  ◌==◌, arith,
}
use native.Mathlib.Nat.{pow-suc}
use nex_talk_relay.Encoding.{Bytes}
use nex_talk_relay.Encoding.RoundTrip.{AllBytes}
use nex_talk_relay.Transports.Ntx.{crc_round, crc_rounds, crc_table, crc_loop, crc32}
use nex_talk_relay.Transports.Ntx.Xor.{
  half-xor, parity-xor, xor_comm, xor_assoc, xor_beside, xor-lt,
}

-- CRC-32 with no table: eight rounds of the shift register for each byte.
crc_bits : ℕ → Bytes → ℕ
crc_bits c [] = c
crc_bits c (x ∷ b) = crc_bits (crc_rounds 8 (bit_xor c x)) b

pub crc32_bits : Bytes → ℕ
unfolding crc_bits
crc32_bits b = bit_xor (crc_bits 0xffffffff b) 0xffffffff

-- A round moves the upper digits down and does not mix them.
crc_round-xor : (a b : ℕ) → crc_round (bit_xor a (2 * b)) ≡ bit_xor (crc_round a) b
unfolding crc_round
crc_round-xor a b =
    let half : bit_xor a (2 * b) / 2 ≡ bit_xor (a / 2) b =
      half-xor a (2 * b) ∙ ap (bit_xor (a / 2)) (omega arith) in
    let parity : bit_xor a (2 * b) % 2 ≡ a % 2 = omega (arith, parity-xor a (2 * b)) in
    elim (Bool-cases (a % 2 == 1)) [
      | inl odd ↦ rw (parity, half, odd) (sym (xor_assoc 0xedb88320 (a / 2) b))
      | inr even ↦ rw (parity, half, even) refl
    ]

crc_rounds-xor : (k a b : ℕ) → crc_rounds k (bit_xor a (2 ^ k * b)) ≡ bit_xor (crc_rounds k a) b
crc_rounds-xor zero a b = ap (bit_xor a) (omega arith)
crc_rounds-xor (suc k) a b =
    let twice : 2 ^ suc k * b ≡ 2 * (2 ^ k * b) =
      omega (arith, ap (λ (t : ℕ). t * b) (pow-suc 2 k)) in
    ap (λ t. crc_rounds k (crc_round (bit_xor a t))) twice
    ∙ ap (crc_rounds k) (crc_round-xor a (2 ^ k * b))
    ∙ crc_rounds-xor k (crc_round a) b

xor-high : (c x : ℕ) → x < 256 → bit_xor c x / 256 ≡ c / 256
xor-high c x h =
    let r : ℕ = c % 256 in
    let high : ℕ = 2 ^ 8 * (c / 256) in
    let apart : bit_xor r high ≡ c = xor_beside 8 r (c / 256) (omega arith) ∙ omega arith in
    let moved : bit_xor (bit_xor r x) high ≡ bit_xor c x =
      xor_assoc r x high
      ∙ ap (bit_xor r) (xor_comm x high)
      ∙ sym (xor_assoc r high x)
      ∙ ap (λ t. bit_xor t x) apart in
    let low : bit_xor r x < 256 = xor-lt 8 r x (omega arith) h in
    omega (arith, moved, xor_beside 8 (bit_xor r x) (c / 256) low)

-- A step of the table is eight rounds.
table_step :
    (c x : ℕ)
    → x < 256
    → bit_xor (crc_table (bit_xor c x % 256)) (c / 256) ≡ crc_rounds 8 (bit_xor c x)
unfolding crc_table
table_step c x h =
    let y : ℕ = bit_xor c x in
    let apart : bit_xor (y % 256) (2 ^ 8 * (y / 256)) ≡ y =
      xor_beside 8 (y % 256) (y / 256) (omega arith) ∙ omega arith in
    ap (bit_xor (crc_rounds 8 (y % 256))) (sym (xor-high c x h))
    ∙ sym (crc_rounds-xor 8 (y % 256) (y / 256))
    ∙ ap (crc_rounds 8) apart

crc_loop-bits : (c : ℕ) (b : Bytes) → AllBytes b → crc_loop c b ≡ crc_bits c b
unfolding crc_loop crc_bits
crc_loop-bits c [] h = refl
crc_loop-bits c (x ∷ b) h =
    ap (λ t. crc_loop t b) (table_step c x h.0) ∙ crc_loop-bits (crc_rounds 8 (bit_xor c x)) b h.1

-- On every list of bytes the checksum by table is CRC-32 as it is defined bit by bit.
pub crc32-bits : (b : Bytes) → AllBytes b → crc32 b ≡ crc32_bits b
unfolding crc32 crc32_bits
crc32-bits b h = ap (λ t. bit_xor t 0xffffffff) (crc_loop-bits 0xffffffff b h)
