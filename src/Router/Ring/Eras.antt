-- ===== src/Router/Ring/Eras.antt =====
-- The eras that the Router probes: sorted, without repetition, and complete.
use nex_talk_relay.Base.{
  Text, ℕ, ◌≡◌, refl, ◌∙◌, Bool, true, false, ◌&&◌, ◌||◌, List, [], ◌∷◌, length, any, ltb, leb,
  ◌==◌, if◌then◌else◌, arith,
}
use nex_talk_relay.Js.{Json, undefined, null, bool, num, str, arr, obj}
use nex_talk_relay.Router.Ring.{
  era_count, insert_count, insert_all, prior_counts, era_counts_descending,
}

-- Each count is above the next.
abbrev pub is_falling : List ℕ → Bool
is_falling [] = true
is_falling (n ∷ []) = true
is_falling (n ∷ m ∷ ms) = ltb m n && is_falling (m ∷ ms)

-- A count is the number `n`.
abbrev pub is_number : ℕ → Json → Bool
is_number n (num m) = n == m
is_number n _ = false

insert_count-any :
    (k n : ℕ) (ms : List ℕ)
    → any (λ m. k == m) (insert_count n ms) ≡ (k == n || any (λ m. k == m) ms)
unfolding insert_count
insert_count-any k n [] = refl
insert_count-any k n (m ∷ ms) = ground (arith, insert_count-any k n ms)

insert_count-falling :
    (n : ℕ) (ms : List ℕ) → is_falling ms ≡ true → is_falling (insert_count n ms) ≡ true
unfolding insert_count
insert_count-falling n [] h = refl
insert_count-falling n (m ∷ []) h = ground arith
insert_count-falling n (m ∷ k ∷ ms) h = ground (arith, insert_count-falling n (k ∷ ms))

-- Putting a number in front of the insertion, if it passes the filter.
insert_if-any :
    (b : Bool) (k m : ℕ) (ms : List ℕ)
    → any (λ j. k == j) (insert_all (if b then m ∷ [] else []) ms)
      ≡ ((b && k == m) || any (λ j. k == j) ms)
unfolding insert_all
insert_if-any true k m ms = insert_count-any k m ms
insert_if-any false k m ms = refl

insert_if-falling :
    (b : Bool) (m : ℕ) (ms : List ℕ)
    → is_falling ms ≡ true
    → is_falling (insert_all (if b then m ∷ [] else []) ms) ≡ true
unfolding insert_all
insert_if-falling true m ms h = insert_count-falling m ms h
insert_if-falling false m ms h = h

insert_era-any :
    (bound k : ℕ) (v : Json) (ms : List ℕ)
    → any (λ j. k == j) (insert_all (era_count bound v) ms)
      ≡ ((is_number k v && (ltb 0 k && leb k bound)) || any (λ j. k == j) ms)
unfolding insert_all
insert_era-any bound k (num m) ms = ground (arith, insert_if-any (ltb 0 m && leb m bound) k m ms)
insert_era-any bound k undefined ms = refl
insert_era-any bound k null ms = refl
insert_era-any bound k (bool b) ms = refl
insert_era-any bound k (str t) ms = refl
insert_era-any bound k (arr xs) ms = refl
insert_era-any bound k (obj fs) ms = refl

insert_era-falling :
    (bound : ℕ) (v : Json) (ms : List ℕ)
    → is_falling ms ≡ true
    → is_falling (insert_all (era_count bound v) ms) ≡ true
unfolding insert_all
insert_era-falling bound (num m) ms h = insert_if-falling (ltb 0 m && leb m bound) m ms h
insert_era-falling bound undefined ms h = h
insert_era-falling bound null ms h = h
insert_era-falling bound (bool b) ms h = h
insert_era-falling bound (str t) ms h = h
insert_era-falling bound (arr xs) ms h = h
insert_era-falling bound (obj fs) ms h = h

prior_counts-any :
    (bound k : ℕ) (vs : List Json)
    → any (λ j. k == j) (prior_counts bound vs) ≡ (any (is_number k) vs && (ltb 0 k && leb k bound))
unfolding prior_counts
prior_counts-any bound k [] = refl
prior_counts-any bound k (v ∷ vs) =
    insert_era-any bound k v (prior_counts bound vs) ∙ ground (arith, prior_counts-any bound k vs)

prior_counts-falling : (bound : ℕ) (vs : List Json) → is_falling (prior_counts bound vs) ≡ true
unfolding prior_counts
prior_counts-falling bound [] = refl
prior_counts-falling bound (v ∷ vs) =
    insert_era-falling bound v (prior_counts bound vs) (prior_counts-falling bound vs)

-- The eras are in strictly falling order, and a count is among them if and only if it is positive, no
-- larger than the number of shards, and either that number or one of the prior counts.
pub era_counts_descending_lem :
    (urls : List Text) (prior : List Json) (n : ℕ)
    → (is_falling (era_counts_descending urls prior) ≡ true)
      × (any (λ m. n == m) (era_counts_descending urls prior)
          ≡ ((n == length urls || any (is_number n) prior) && (ltb 0 n && leb n (length urls))))
unfolding era_counts_descending
era_counts_descending_lem urls prior n = (
  insert_era-falling (length urls) (num (length urls)) _ (prior_counts-falling (length urls) prior),
  insert_era-any (length urls) n (num (length urls)) (prior_counts (length urls) prior)
      ∙ ground (arith, prior_counts-any (length urls) n prior),
)
