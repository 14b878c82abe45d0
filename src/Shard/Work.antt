-- ===== src/Shard/Work.antt =====
-- The proof of work of a shard that registers itself (shard/worker.js).
pub mod First
use nex_talk_relay.Base.{
  Text, codes, ℕ, zero, suc, ◌+◌, ◌*◌, Bool, true, false, Option, none, some, List, [], ◌∷◌,
  decimal, leb, if◌then◌else◌, ◌==◌,
}
use nex_talk_relay.Encoding.{Bytes, utf8}
use nex_talk_relay.Platform.{Platform}
use nex_talk_relay.Shard.Crypto.{◌∶◌}

-- The inner loop of `leadingZeroBits`: `x` is shifted up until its bit 0x80 is set. A byte that is not
-- zero needs at most seven turns.
unfoldable pub shift_loop : ℕ → ℕ → ℕ
shift_loop zero x = 0
shift_loop (suc turns) x = let rest = shift_loop turns (x * 2) in if leb 128 x then 0 else rest + 1

unfoldable pub leading_zero_bits : Bytes → ℕ
leading_zero_bits [] = 0
leading_zero_bits (b ∷ bs) =
    let rest = leading_zero_bits bs in if b == 0 then 8 + rest else shift_loop 8 b

abbrev pub pow_solve_max_attempts : ℕ
pow_solve_max_attempts = 8_000_000

module _ (p : Platform) where
  -- Whether a solution meets the difficulty.
  unfoldable pub is_solution : Text → Text → ℕ → Text → Bool
  is_solution nonce shard_url difficulty solution =
      leb difficulty (leading_zero_bits (p.sha256 (utf8 (nonce ∶ shard_url ∶ solution))))

  -- The attempts from `i` on; `none` is the error that no solution was found.
  unfoldable pub solve_loop : Text → Text → ℕ → ℕ → ℕ → Option Text
  solve_loop nonce shard_url difficulty i zero = none
  solve_loop nonce shard_url difficulty i (suc attempts) =
      let rest = solve_loop nonce shard_url difficulty (suc i) attempts in
      if is_solution nonce shard_url difficulty (decimal i) then some (decimal i) else rest

  unfoldable pub solve_pow : Text → Text → ℕ → Option Text
  solve_pow nonce shard_url difficulty =
      solve_loop nonce shard_url difficulty 0 pow_solve_max_attempts
