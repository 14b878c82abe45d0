-- ===== src/Transports/Machine/Bits.antt =====
-- The bit operations of the queue module (transports/tools/wasmasm.mjs) in plain arithmetic.
use Prim.Native.Nat.{min, max, bit_and, bit_or, bit_and-bitwise, bit_or-bitwise}
use native.Mathlib.Nat.{pow-suc, one-le-pow}
use nex_talk_relay.Transports.Digits.{fuel_irrelevant}
use nex_talk_relay.Base.{ℕ, zero, suc, ◌+◌, ◌-◌, ◌*◌, ◌/◌, ◌%◌, ◌^◌, ◌≤◌, ◌<◌, ◌≡◌, refl, ap, arith}

-- The lowest digit apart.
bit_or_halves : (a b : ℕ) → bit_or a b ≡ bit_or (a / 2) (b / 2) * 2 + max (a % 2) (b % 2)
bit_or_halves zero b = omega (arith, bit_or-bitwise zero b, bit_or-bitwise zero (b / 2))
bit_or_halves (suc a) b = omega (
  arith,
  bit_or-bitwise (suc a) b,
  bit_or-bitwise (suc a / 2) (b / 2),
  fuel_irrelevant (λ y. y) max a (suc a / 2) (suc a / 2) (b / 2) (omega arith) (omega arith),
)

bit_and_halves : (a b : ℕ) → bit_and a b ≡ bit_and (a / 2) (b / 2) * 2 + min (a % 2) (b % 2)
bit_and_halves zero b = omega (arith, bit_and-bitwise zero b, bit_and-bitwise zero (b / 2))
bit_and_halves (suc a) b = omega (
  arith,
  bit_and-bitwise (suc a) b,
  bit_and-bitwise (suc a / 2) (b / 2),
  fuel_irrelevant (λ y. 0) min a (suc a / 2) (suc a / 2) (b / 2) (omega arith) (omega arith),
)

bit_or-none : (n a : ℕ) → a ≤ n → bit_or a 0 ≡ a
bit_or-none zero zero h = refl
bit_or-none zero (suc a) h = absurd (omega arith)
bit_or-none (suc n) a h = ground (arith, bit_or_halves a 0, bit_or-none n (a / 2))

-- The low digits of one number beside the high ones of another.
pub bit_or_beside : (k q r : ℕ) → r < 2 ^ k → bit_or (q * 2 ^ k) r ≡ q * 2 ^ k + r
bit_or_beside zero q r h = ground (arith, bit_or-none q q)
bit_or_beside (suc k) q r h = omega (
  arith,
  pow-suc 2 k,
  ap (λ (t : ℕ). q * t) (pow-suc 2 k),
  bit_or_halves (q * 2 ^ suc k) r,
  ap (λ t. bit_or t (r / 2)) half,
  bit_or_beside k q (r / 2) (omega (arith, pow-suc 2 k)),
)
  where
    half : q * 2 ^ suc k / 2 ≡ q * 2 ^ k
    half = omega (arith, ap (λ (t : ℕ). q * t) (pow-suc 2 k))

bit_and-none : (n a : ℕ) → a ≤ n → bit_and a 0 ≡ 0
bit_and-none zero zero h = refl
bit_and-none zero (suc a) h = absurd (omega arith)
bit_and-none (suc n) a h = ground (arith, bit_and_halves a 0, bit_and-none n (a / 2))

-- A mask of `k` ones keeps a number of `k` digits.
bit_and_ones : (k a : ℕ) → a < 2 ^ k → bit_and a (2 ^ k - 1) ≡ a
bit_and_ones zero a h = ground (arith, bit_and-none a a)
bit_and_ones (suc k) a h = omega (
  arith,
  pow-suc 2 k,
  one-le-pow k 2,
  bit_and_halves a (2 ^ suc k - 1),
  ap (bit_and (a / 2)) half,
  bit_and_ones k (a / 2) (omega (arith, pow-suc 2 k)),
)
  where
    half : (2 ^ suc k - 1) / 2 ≡ 2 ^ k - 1
    half = omega (arith, pow-suc 2 k, one-le-pow k 2)

-- `x & -8` in 32 bits.
pub bit_and_eights : (a : ℕ) → a < 2 ^ 32 → bit_and a 4294967288 ≡ a - a % 8
bit_and_eights a h = omega (
  arith,
  bit_and_halves a 4294967288,
  bit_and_halves (a / 2) 2147483644,
  bit_and_halves (a / 2 / 2) 1073741822,
  bit_and_ones 29 (a / 2 / 2 / 2) (omega arith),
)
