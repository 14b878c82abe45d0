-- ===== src/Shard/Work/First.antt =====
-- What the search for a proof of work finds.
use nex_talk_relay.Base.{
  Text, ℕ, zero, suc, ◌+◌, ◌<◌, ◌≡◌, ap, ◌∙◌, Bool, true, false, some, decimal, arith,
}
use nex_talk_relay.Platform.{Platform}
use nex_talk_relay.Shard.Work.{is_solution, solve_loop, solve_pow, pow_solve_max_attempts}

module _ (p : Platform) (nonce shard_url : Text) (difficulty : ℕ) where
  abbrev good : ℕ → Bool
  good n = is_solution p nonce shard_url difficulty (decimal n)

  loop-first :
      (i attempts n : ℕ)
      → n < attempts
      → good (i + n) ≡ true
      → ((k : ℕ) → k < n → good (i + k) ≡ false)
      → solve_loop p nonce shard_url difficulty i attempts ≡ some (decimal (i + n))
  unfolding solve_loop
  loop-first i zero n h ok earlier = elim h [ ]
  loop-first i (suc attempts) zero h ok earlier =
      let here : good i ≡ true = ap good (omega arith) ∙ ok in
      rw here (ap (λ m. some (decimal m)) (omega arith))
  loop-first i (suc attempts) (suc n) h ok earlier =
      let missed : good i ≡ false = ap good (omega arith) ∙ earlier zero (omega arith) in
      let found : good (suc i + n) ≡ true = ap good (omega arith) ∙ ok in
      let before : (k : ℕ) → k < n → good (suc i + k) ≡ false =
        λ k lt. ap good (omega arith) ∙ earlier (suc k) (omega arith) in
      rw missed (
        loop-first (suc i) attempts n (omega arith) found before
        ∙ ap (λ m. some (decimal m)) (omega arith))

  -- If `n` is the first number below eight million whose text meets the difficulty, the search ends
  -- with it.
  pub solve_pow-first :
      (n : ℕ)
      → n < pow_solve_max_attempts
      → is_solution p nonce shard_url difficulty (decimal n) ≡ true
      → ((k : ℕ) → k < n → is_solution p nonce shard_url difficulty (decimal k) ≡ false)
      → solve_pow p nonce shard_url difficulty ≡ some (decimal n)
  unfolding solve_pow
  solve_pow-first n h ok earlier =
      loop-first 0 pow_solve_max_attempts n h (ap good (omega arith) ∙ ok)
        (λ k lt. ap good (omega arith) ∙ earlier k lt)
      ∙ ap (λ m. some (decimal m)) (omega arith)
