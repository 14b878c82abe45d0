-- ===== src/Platform/Ends.antt =====
-- How steps end: steps that never answer early, and what a step keeps of the state.
use nex_talk_relay.Base.{
  ◌≡◌, ◌≢◌, ◌⊎◌, refl, inl, inr, Bool, true, false, Option, none, some, Text, if◌then◌else◌,
}
use nex_talk_relay.Platform.Exec.{
  Outcome, Exec, value, reply, throw, continue, pure, lift, stop_if, ◌>>=◌,
}
use nex_talk_relay.Platform.Http.{Response}

-- The three ends of a step.
pub Outcome-cases :
    {A : Type 0} (r : Outcome A)
    → ((a : A) × (r ≡ value a)) ⊎ (((x : Response) × (r ≡ reply x)) ⊎ ((x : Text) × (r ≡ throw x)))
Outcome-cases (value a) = inl (a, refl)
Outcome-cases (reply x) = inr (inl (x, refl))
Outcome-cases (throw x) = inr (inr (x, refl))

-- A step that goes on did so at each of its parts.
pub bind-value :
    {W A B : Type 0} (m : W → Outcome A × W) (f : A → W → Outcome B × W) (w : W) (b : B)
    → ((m >>= f) w).0 ≡ value b
    → (a : A) × ((m w).0 ≡ value a) × ((f a (m w).1).0 ≡ value b)
bind-value {A = A} {B = B} m f w b h = go (m w).0 refl h
  where
    go :
        (r : Outcome A)
        → (m w).0 ≡ r
        → (continue r f (m w).1).0 ≡ value b
        → (a : A) × ((m w).0 ≡ value a) × ((f a (m w).1).0 ≡ value b)
    go (value a) e k = (a, e, k)
    go (reply x) e k = cc
    go (throw x) e k = cc

-- A step that goes on or throws.
pub record NeverReplies {W A : Type 0} (m : Exec W A) : Type 0 where
  pub at : (w : W) (e : Response) → (m w).0 ≢ reply e

module _ {W A : Type 0} where
  pub NeverReplies-pure : (a : A) → NeverReplies {W = W} (pure a)
  NeverReplies-pure a = record { at = λ w e h. cc }

  pub NeverReplies-throw : (t : Text) → NeverReplies {W = W} {A = A} (lift (throw t))
  NeverReplies-throw t = record { at = λ w e h. cc }

  pub NeverReplies-if :
      (b : Bool) (m n : Exec W A)
      → NeverReplies m
      → NeverReplies n
      → NeverReplies (if b then m else n)
  NeverReplies-if true m n hm hn = hm
  NeverReplies-if false m n hm hn = hn

module _ {W A B : Type 0} where
  pub NeverReplies-option :
      (o : Option A) (m : Exec W B) (f : A → Exec W B)
      → NeverReplies m
      → ((a : A) → NeverReplies (f a))
      → NeverReplies (elim o [ none ↦ m | some a ↦ f a ])
  NeverReplies-option none m f hm hf = hm
  NeverReplies-option (some a) m f hm hf = hf a

  continue-reply :
      (r : Outcome A) (f : A → Exec W B) (w : W) (e : Response)
      → ((a : A) → NeverReplies (f a))
      → (continue r f w).0 ≡ reply e
      → (r ≡ reply e) × ((continue r f w).1 ≡ w)
  continue-reply (value a) f w e hf h = absurd ((hf a).at w e h)
  continue-reply (reply x) f w e hf h = (cc, refl)
  continue-reply (throw t) f w e hf h = cc

  pub NeverReplies-bind :
      (m : Exec W A) (f : A → Exec W B)
      → NeverReplies m
      → ((a : A) → NeverReplies (f a))
      → NeverReplies (m >>= f)
  NeverReplies-bind m f hm hf = record {
    at = λ w e h. hm.at w e (continue-reply (m w).0 f (m w).1 e hf h).0;
  }

  -- Where the rest never answers early, an early answer comes from the first step.
  pub reply-bind :
      (m : Exec W A) (f : A → Exec W B) (w : W) (e : Response)
      → ((a : A) → NeverReplies (f a))
      → ((m >>= f) w).0 ≡ reply e
      → ((m w).0 ≡ reply e) × (((m >>= f) w).1 ≡ (m w).1)
  reply-bind m f w e hf h = continue-reply (m w).0 f (m w).1 e hf h

-- A step keeps a property of the state, however it ends.
pub record Keeps {W A : Type 0} (P : W → Type 0) (m : Exec W A) : Type 0 where
  pub at : (w : W) → P w → P (m w).1

module _ {W A B : Type 0} (P : W → Type 0) where
  continue-keeps :
      (r : Outcome A) (f : A → Exec W B) (w : W)
      → ((a : A) → Keeps P (f a))
      → P w
      → P (continue r f w).1
  continue-keeps (value a) f w hf h = (hf a).at w h
  continue-keeps (reply e) f w hf h = h
  continue-keeps (throw e) f w hf h = h

  pub Keeps-bind :
      (m : Exec W A) (f : A → Exec W B) → Keeps P m → ((a : A) → Keeps P (f a)) → Keeps P (m >>= f)
  Keeps-bind m f hm hf = record { at = λ w h. continue-keeps (m w).0 f (m w).1 hf (hm.at w h) }

pub Keeps-lift : {W A : Type 0} (P : W → Type 0) (r : Outcome A) → Keeps P (lift r)
Keeps-lift P r = record { at = λ w h. h }

pub Keeps-stop_if : {W : Type 0} (P : W → Type 0) (b : Bool) (r : Response) → Keeps P (stop_if b r)
Keeps-stop_if P true r = record { at = λ w h. h }
Keeps-stop_if P false r = record { at = λ w h. h }

-- A step leads from a property of the state to another one, however it ends.
pub record Leads {W A : Type 0} (P Q : W → Type 0) (m : Exec W A) : Type 0 where
  pub at : (w : W) → P w → Q (m w).1

module _ {W A B : Type 0} (P Q : W → Type 0) where
  continue-leads :
      (r : Outcome A) (f : A → Exec W B) (w : W)
      → ((w : W) → P w → Q w)
      → ((a : A) → Leads P Q (f a))
      → P w
      → Q (continue r f w).1
  continue-leads (value a) f w weaker hf h = (hf a).at w h
  continue-leads (reply e) f w weaker hf h = weaker w h
  continue-leads (throw e) f w weaker hf h = weaker w h

  pub Leads-bind :
      (m : Exec W A) (f : A → Exec W B)
      → ((w : W) → P w → Q w)
      → Keeps P m
      → ((a : A) → Leads P Q (f a))
      → Leads P Q (m >>= f)
  Leads-bind m f weaker hm hf = record {
    at = λ w h. continue-leads (m w).0 f (m w).1 weaker hf (hm.at w h);
  }

  pub Leads-then :
      (m : Exec W A) (f : A → Exec W B)
      → Leads P Q m
      → ((a : A) → Keeps Q (f a))
      → Leads P Q (m >>= f)
  Leads-then m f hm hf = record { at = λ w h. continue-keeps Q (m w).0 f (m w).1 hf (hm.at w h) }
