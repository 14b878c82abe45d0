-- ===== src/Shard/Limits/Counting.antt =====
-- How many attempts `rateLimit` grants in one window.
use Prim.Native.Nat.{min}
use native.Mathlib.Nat.{div-add-mod, mod-lt}
use nex_talk_relay.Base.{
  Text, ℕ, suc, ◌+◌, ◌-◌, ◌*◌, ◌/◌, ◌≤◌, ◌<◌, ◌≡◌, refl, sym, ap, ◌∙◌, Bool, true, false, none,
  some, List, [], ◌∷◌, decimal, number_digits, number_digits-decimal, ltb, le→leb, lt-leb, lt→ltb,
  length, Bool-cases, ltb→lt, inl, inr, arith,
}
use nex_talk_relay.Platform.{Platform, text, number_of}
use nex_talk_relay.Platform.Exec.{Outcome, value, reply, throw}
use nex_talk_relay.Platform.Laws.{KvLaws}
use nex_talk_relay.Platform.World.{World, now, kv_get, kv_put}
use nex_talk_relay.Shard.Limits.{bucket_key, counter, rate_limit}

-- A grant counts one.
abbrev pub grant : Outcome Bool → ℕ → ℕ
grant (value true) n = suc n
grant (value false) n = n
grant (reply e) n = n
grant (throw e) n = n

ltb-false : (a b : ℕ) → ltb a b ≡ false → b ≤ a
ltb-false a b h = ground arith

counter_text :
    (p : Platform) (t : Text) (n : ℕ)
    → number_digits t ≡ some n
    → counter p (some (text t)) ≡ some n
unfolding number_of number_digits
counter_text p [] n h = cc
counter_text p (c ∷ t) n h = ground arith

counter-decimal : (p : Platform) (n : ℕ) → counter p (some (text (decimal n))) ≡ some n
counter-decimal p n = counter_text p (decimal n) n (number_digits-decimal n)

same_window : (m t u : ℕ) → 0 < m → t ≤ u → u / m ≡ t / m → u < t + m
same_window m t u pos le e =
    let b : m * (u / m) ≡ m * (t / m) = ap (λ (q : ℕ). m * q) e in
    omega (arith, div-add-mod u m, div-add-mod t m, mod-lt u {m = m} pos, b)

module _ (p : Platform) (laws : KvLaws p) (bucket : Text) (limit window : ℕ) where
  -- The count `c` stands under the bucket in the window `k`, now and up to the window's end.
  record Counts (k c : ℕ) (w : World p) : Type 0 where
    at :
        (u : ℕ)
        → w.time ≤ u
        → u / (window * 1000) ≡ k
        → counter p (p.read w.kv u (bucket_key bucket window u)) ≡ some c

  -- A granted attempt is counted: what it writes outlives the window.
  lives_on :
      0 < window
      → (t u : ℕ) → t ≤ u
      → u / (window * 1000) ≡ t / (window * 1000)
      → u < t + 1000 * (window + 5)
  lives_on pos t u le e = omega (arith, same_window (window * 1000) t u (omega arith) le e)

  same_key :
      (t u : ℕ)
      → t / (window * 1000) ≡ u / (window * 1000)
      → bucket_key bucket window t ≡ bucket_key bucket window u
  unfolding bucket_key
  same_key t u e = rw e refl

  granted :
      0 < window
      → (k c : ℕ) (w : World p) → w.time / (window * 1000) ≡ k
      → Counts k c w
      → c < limit
      → ((rate_limit p bucket limit window w).0 ≡ value true)
        × ((rate_limit p bucket limit window w).1.time ≡ w.time)
        × Counts k (c + 1) (rate_limit p bucket limit window w).1
  unfolding rate_limit now kv_get kv_put
  granted pos k c w at_k counts room =
      rw (counts.at w.time (omega arith) at_k, lt-leb c limit room)
        (refl, refl, record { at = λ u le in_k. recount u le in_k })
    where
      recount :
          (u : ℕ)
          → w.time ≤ u
          → u / (window * 1000) ≡ k
          → counter p (
              p.read
                (p.write w.kv w.time
                  (bucket_key bucket window w.time)
                  (text (decimal (c + 1)))
                  (some (window + 5)))
                u
                (bucket_key bucket window u))
            ≡ some (c + 1)
      recount u le in_k = rw (
        same_key u w.time (in_k ∙ sym at_k),
        laws.read-write_self w.kv w.time (bucket_key bucket window w.time) (text (decimal (c + 1)))
            (some (window + 5)) u le,
        lt→ltb u (w.time + 1000 * (window + 5)) (lives_on pos w.time u le (in_k ∙ sym at_k)),
        counter-decimal p (c + 1),
      )

  denied :
      (k c : ℕ) (w : World p)
      → w.time / (window * 1000) ≡ k
      → Counts k c w
      → limit ≤ c
      → rate_limit p bucket limit window w ≡ (value false, w)
  unfolding rate_limit now kv_get
  denied k c w at_k counts full = rw (counts.at w.time (omega arith) at_k, le→leb limit c full) refl

  -- The number of grants in a row of attempts, one after each of the given waits.
  unfoldable pub attempts : List ℕ → World p → ℕ
  attempts [] w = 0
  attempts (d ∷ ds) w =
      let run = rate_limit p bucket limit window (record w { time = w.time + d }) in
      grant run.0 (attempts ds run.1)

  -- Each attempt falls into the window `k`.
  abbrev pub AllWithin : ℕ → ℕ → List ℕ → Type 0
  AllWithin k t [] = Unit
  AllWithin k t (d ∷ ds) = ((t + d) / (window * 1000) ≡ k) × AllWithin k (t + d) ds

  later : (k c d : ℕ) (w : World p) → Counts k c w → Counts k c (record w { time = w.time + d })
  later k c d w counts = record { at = λ u le in_k. counts.at u (omega arith) in_k }

  attempts_from :
      0 < window
      → (ds : List ℕ) (k c : ℕ) (w : World p) → Counts k c w
      → AllWithin k w.time ds
      → c ≤ limit
      → attempts ds w ≡ min (length ds) (limit - c)
  unfolding attempts
  attempts_from pos [] k c w counts within le = omega arith
  attempts_from pos (d ∷ ds) k c w counts (at_k, within) le =
      let w' = record w { time = w.time + d } in
      elim (Bool-cases (ltb c limit)) [
        | inl room ↦
            let (yes_, clock, counts') =
              granted pos k c w' at_k (later k c d w counts) (ltb→lt c limit room) in
            let rest =
              attempts_from pos ds k (c + 1) _ counts' (rw clock within)
                (omega (arith, ltb→lt c limit room)) in
            rw yes_ (omega (arith, rest, ltb→lt c limit room))
        | inr full ↦
            let same_world = denied k c w' at_k (later k c d w counts) (ground arith) in
            let rest = attempts_from pos ds k c w' (later k c d w counts) within le in
            ap (λ (x : Outcome Bool × World p). grant x.0 (attempts ds x.1)) same_world
            ∙ done c le (ltb-false c limit full) (attempts ds w') (length ds) rest
      ]
    where
      done :
          (c : ℕ)
          → c ≤ limit
          → limit ≤ c
          → (n l : ℕ) → n ≡ min l (limit - c)
          → n ≡ min (suc l) (limit - c)
      done c le ge n l e = omega arith

  -- Where nothing stands under the bucket's key of the window `k` from now on, the attempts that fall into that
  -- window are granted up to the limit, in any number and with any waits between them, and the rest
  -- are refused.
  pub attempts-eq-min :
      (ds : List ℕ) (k : ℕ) (w : World p)
      → 0 < window
      → ((u : ℕ)
          → w.time ≤ u
          → u / (window * 1000) ≡ k
          → p.read w.kv u (bucket_key bucket window u) ≡ none)
      → AllWithin k w.time ds
      → attempts ds w ≡ min (length ds) limit
  attempts-eq-min ds k w pos fresh within = omega (
    arith,
    attempts_from pos ds k 0 w (record { at = λ u le in_k. rw (fresh u le in_k) refl }) within
        (omega arith),
  )
