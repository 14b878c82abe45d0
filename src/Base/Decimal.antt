-- ===== src/Base/Decimal.antt =====
-- Decimal numerals: `String(n)` of a natural number, and `Number(s)` of a text of digits.
use Prim.Native.Nat.{ℕ, zero, suc, ◌+◌, ◌-◌, ◌*◌, ◌/◌, ◌%◌, ◌<◌}
use mathlib.Core.Path.{◌≡◌}
use mathlib.Core.Bool.{◌&&◌}
use mathlib.Core.Logic.{inl, inr}
use mathlib.Core.List.{[], ◌∷◌}
use mathlib.Core.Option.{Option, none, some}
use native.Mathlib.Omega.{arith}
use nex_talk_relay.Base.Strings.{Text}
use nex_talk_relay.Base.Tests.{leb, ltb, if◌then◌else◌, Bool-cases}

-- The digits of `n` in front of `acc`.
decimal_onto : ℕ → ℕ → Text → Text
decimal_onto zero n acc = acc
decimal_onto (suc f) n acc =
    let rest = decimal_onto f (n / 10) ((48 + n % 10) ∷ acc) in
    if ltb n 10 then (48 + n) ∷ acc else rest

unfoldable pub decimal : ℕ → Text
unfolding decimal_onto
decimal n = decimal_onto (suc n) n []

abbrev pub parse_digits : ℕ → Text → Option ℕ
parse_digits acc [] = some acc
parse_digits acc (c ∷ t) =
    if leb 48 c && leb c 57 then parse_digits (acc * 10 + (c - 48)) t else none

unfoldable pub number_digits : Text → Option ℕ
number_digits [] = none
number_digits (c ∷ t) = parse_digits 0 (c ∷ t)

parse_digits-decimal_onto :
    (f n : ℕ) (acc : Text) → n < f → number_digits (decimal_onto f n acc) ≡ parse_digits n acc
unfolding decimal_onto number_digits
parse_digits-decimal_onto zero n acc h = absurd (omega arith)
parse_digits-decimal_onto (suc f) n acc h = elim (Bool-cases (ltb n 10)) [
  | inl small ↦ rw small (ground arith)
  | inr big ↦
      rw big
        (ground (arith, parse_digits-decimal_onto f (n / 10) ((48 + n % 10) ∷ acc) (ground arith)))
]

-- Reading a printed number gives it back.
pub number_digits-decimal : (n : ℕ) → number_digits (decimal n) ≡ some n
unfolding decimal
number_digits-decimal n = parse_digits-decimal_onto (suc n) n [] (omega arith)
