-- ===== src/Transports/Ntx/Xor.antt =====
-- Laws of `^` on numbers, for the checksum of transports/tools/ntx.mjs.
use Prim.Native.Nat.{bit_xor, differ, bit_xor-bitwise}
use native.Mathlib.Nat.{pow-suc}
use nex_talk_relay.Transports.Digits.{fuel_irrelevant}
use nex_talk_relay.Base.{ℕ, zero, suc, ◌+◌, ◌*◌, ◌/◌, ◌%◌, ◌≤◌, ◌<◌, ◌≡◌, refl, ap, ◌∙◌, ◌^◌, arith}

differ-bit : (x y : ℕ) → x < 2 → y < 2 → differ x y ≡ (x + y) % 2
differ-bit zero zero h k = refl
differ-bit zero (suc zero) h k = refl
differ-bit zero (suc (suc y)) h k = absurd (omega arith)
differ-bit (suc zero) zero h k = refl
differ-bit (suc zero) (suc zero) h k = refl
differ-bit (suc zero) (suc (suc y)) h k = absurd (omega arith)
differ-bit (suc (suc x)) y h k = absurd (omega arith)

-- The lowest digit apart.
xor_halves : (a b : ℕ) → bit_xor a b ≡ bit_xor (a / 2) (b / 2) * 2 + (a + b) % 2
xor_halves zero b = omega (arith, bit_xor-bitwise zero b, bit_xor-bitwise zero (b / 2))
xor_halves (suc a) b = omega (
  arith,
  bit_xor-bitwise (suc a) b,
  bit_xor-bitwise (suc a / 2) (b / 2),
  fuel_irrelevant (λ y. y) differ a (suc a / 2) (suc a / 2) (b / 2) (omega arith) (omega arith),
  differ-bit (suc a % 2) (b % 2) (omega arith) (omega arith),
)

pub zero-xor : (b : ℕ) → bit_xor 0 b ≡ b
zero-xor b = bit_xor-bitwise 0 b

pub half-xor : (a b : ℕ) → bit_xor a b / 2 ≡ bit_xor (a / 2) (b / 2)
half-xor a b = omega (arith, xor_halves a b)

pub parity-xor : (a b : ℕ) → bit_xor a b % 2 ≡ (a + b) % 2
parity-xor a b = omega (arith, xor_halves a b)

xor_comm_fuel : (n a b : ℕ) → a ≤ n → b ≤ n → bit_xor a b ≡ bit_xor b a
xor_comm_fuel zero zero zero p q = refl
xor_comm_fuel zero (suc a) b p q = absurd (omega arith)
xor_comm_fuel zero zero (suc b) p q = absurd (omega arith)
xor_comm_fuel (suc n) a b p q = omega (
  arith,
  xor_halves a b,
  xor_halves b a,
  xor_comm_fuel n (a / 2) (b / 2) (omega arith) (omega arith),
)

xor_assoc_fuel :
    (n a b c : ℕ) → a ≤ n → b ≤ n → c ≤ n → bit_xor (bit_xor a b) c ≡ bit_xor a (bit_xor b c)
xor_assoc_fuel zero zero zero zero p q r = refl
xor_assoc_fuel zero (suc a) b c p q r = absurd (omega arith)
xor_assoc_fuel zero zero (suc b) c p q r = absurd (omega arith)
xor_assoc_fuel zero zero zero (suc c) p q r = absurd (omega arith)
xor_assoc_fuel (suc n) a b c p q r = omega (
  arith,
  xor_halves (bit_xor a b) c,
  ap (λ t. bit_xor t (c / 2)) (half-xor a b),
  parity-xor a b,
  xor_halves a (bit_xor b c),
  ap (bit_xor (a / 2)) (half-xor b c),
  parity-xor b c,
  xor_assoc_fuel n (a / 2) (b / 2) (c / 2) (omega arith) (omega arith) (omega arith),
)

pub xor_comm : (a b : ℕ) → bit_xor a b ≡ bit_xor b a
xor_comm a b = xor_comm_fuel (a + b) a b (omega arith) (omega arith)

pub xor_assoc : (a b c : ℕ) → bit_xor (bit_xor a b) c ≡ bit_xor a (bit_xor b c)
xor_assoc a b c = xor_assoc_fuel (a + b + c) a b c (omega arith) (omega arith) (omega arith)

-- The low digits of one number beside the high ones of another.
pub xor_beside : (k r q : ℕ) → r < 2 ^ k → bit_xor r (2 ^ k * q) ≡ 2 ^ k * q + r
xor_beside zero r q h =
    let none : r ≡ 0 = omega arith in rw none (zero-xor (2 ^ 0 * q) ∙ omega arith)
xor_beside (suc k) r q h =
    let half : 2 ^ suc k * q / 2 ≡ 2 ^ k * q = omega (arith, ap (λ (t : ℕ). t * q) (pow-suc 2 k)) in
    omega (
      arith,
      ap (λ (t : ℕ). t * q) (pow-suc 2 k),
      xor_halves r (2 ^ suc k * q),
      ap (bit_xor (r / 2)) half,
      xor_beside k (r / 2) q (omega (arith, pow-suc 2 k)),
    )

pub xor-lt : (k a b : ℕ) → a < 2 ^ k → b < 2 ^ k → bit_xor a b < 2 ^ k
xor-lt zero a b p q =
    let a_zero : a ≡ 0 = omega arith in
    let b_zero : b ≡ 0 = omega arith in rw (a_zero, b_zero) (omega arith)
xor-lt (suc k) a b p q = omega (
  arith,
  pow-suc 2 k,
  xor_halves a b,
  xor-lt k (a / 2) (b / 2) (omega (arith, pow-suc 2 k)) (omega (arith, pow-suc 2 k)),
)
