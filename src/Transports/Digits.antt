-- ===== src/Transports/Digits.antt =====
-- The bit operations of JavaScript and WebAssembly are recursions on the binary digits.
use Prim.Native.Nat.{digits}
use nex_talk_relay.Base.{ℕ, zero, suc, ◌/◌, ◌≤◌, ◌≡◌, refl, arith}

-- How much fuel the recursion on the digits has does not matter, if it has enough.
module _ (z : ℕ → ℕ) (f : ℕ → ℕ → ℕ) where
  pub fuel_irrelevant : (n m a b : ℕ) → a ≤ n → a ≤ m → digits z f n a b ≡ digits z f m a b
  fuel_irrelevant zero zero a b p q = refl
  fuel_irrelevant zero (suc m) zero b p q = refl
  fuel_irrelevant zero (suc m) (suc a) b p q = absurd (omega arith)
  fuel_irrelevant (suc n) zero zero b p q = refl
  fuel_irrelevant (suc n) zero (suc a) b p q = absurd (omega arith)
  fuel_irrelevant (suc n) (suc m) zero b p q = refl
  fuel_irrelevant (suc n) (suc m) (suc a) b p q =
      omega (arith, fuel_irrelevant n m (suc a / 2) (b / 2) (omega arith) (omega arith))
