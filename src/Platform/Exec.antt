-- ===== src/Platform/Exec.antt =====
-- Asynchronous functions that read and write the world, return early, or throw.
use nex_talk_relay.Base.{Text, Bool, if◌then◌else◌}
use nex_talk_relay.Platform.Http.{Response}

-- `value` goes on, `reply` is a response that the handler returns early, `throw` an exception.
pub data Outcome (A : Type 0) : Type 0 where
  value : A → Outcome A
  reply : Response → Outcome A
  throw : Text → Outcome A

abbrev pub Exec : Type 0 → Type 0 → Type 0
Exec W A = W → Outcome A × W

module _ {W A : Type 0} where
  abbrev pub pure : A → Exec W A
  pure a w = (value a, w)

  abbrev pub lift : Outcome A → Exec W A
  lift r w = (r, w)

module _ {W A B : Type 0} where
  abbrev pub continue : Outcome A → (A → Exec W B) → Exec W B
  continue (value a) f w = f a w
  continue (reply r) f w = (reply r, w)
  continue (throw e) f w = (throw e, w)

  infixl 5 ◌>>=◌ ◌>>◌
  abbrev pub ◌>>=◌ : Exec W A → (A → Exec W B) → Exec W B
  ◌>>=◌ m f w = let (r, w') = m w in continue r f w'

  abbrev pub ◌>>◌ : Exec W A → Exec W B → Exec W B
  m >> k = m >>= λ _. k

-- `if (test) return response`
abbrev pub stop_if : {W : Type 0} → Bool → Response → Exec W (Unit {0})
stop_if b r w = if b then (reply r, w) else (value tt, w)
