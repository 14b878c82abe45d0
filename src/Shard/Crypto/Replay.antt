-- ===== src/Shard/Crypto/Replay.antt =====
-- When a signed request of a sender can be used twice.
use nex_talk_relay.Base.{
  Text, codes, ℕ, ◌+◌, ◌*◌, ◌≤◌, ◌<◌, ◌≡◌, ◌≢◌, refl, ap, ◌∙◌, true, false, Option, none, some,
  lt→ltb, ltb-ge, if◌then◌else◌, arith,
}
use nex_talk_relay.Platform.{Platform, Stored, text, number_of}
use nex_talk_relay.Platform.Exec.{Outcome, value}
use nex_talk_relay.Platform.Laws.{KvLaws}
use nex_talk_relay.Platform.World.{World, Run, now, kv_get, kv_put}
use nex_talk_relay.Shard.Crypto.{
  is_apart, replay_key, replay_ttl, check_sender, verify_ed25519_message,
}

module _ (p : Platform) (laws : KvLaws p) (pubkey timestamp signature message : Text)
    (skew : ℕ) where
  abbrev pub check : Run p (Option Text)
  check = check_sender p pubkey timestamp signature skew message

  abbrev key : Text
  key = replay_key p pubkey timestamp signature

  -- The world behind a request that passes.
  accepted :
      (w : World p)
      → (check w).0 ≡ value none
      → (is_apart w.time (number_of p timestamp) skew ≡ false)
        × (check w ≡ (
          value none,
          record w { kv = p.write w.kv w.time key (text (codes "1")) (some (replay_ttl skew)) },
        ))
  unfolding check_sender now kv_get kv_put
  accepted w h = ground arith

  ttl_short : 30_000 ≤ skew → 1000 * replay_ttl skew ≤ 2 * skew
  unfolding replay_ttl
  ttl_short wide = omega arith

  -- Without a mark of its use, a request with a good signature and a recent time passes.
  passes :
      (w : World p)
      → is_apart w.time (number_of p timestamp) skew ≡ false
      → p.read w.kv w.time key ≡ none
      → verify_ed25519_message p pubkey message signature ≡ true
      → (check w).0 ≡ value none
  unfolding check_sender now kv_get kv_put
  passes w near unmarked good = rw (near, unmarked, good) refl

  verified :
      (w : World p)
      → (check w).0 ≡ value none
      → verify_ed25519_message p pubkey message signature ≡ true
  unfolding check_sender now kv_get kv_put
  verified w h = ground arith

  marked-refused :
      (w : World p) (s : Stored) → p.read w.kv w.time key ≡ some s → (check w).0 ≢ value none
  unfolding check_sender now kv_get kv_put
  marked-refused w s mark h = ground arith

  -- Two times that are both close to the time stamp are close to one another.
  both_near :
      (t u n : ℕ)
      → is_apart t (some n) skew ≡ false
      → is_apart u (some n) skew ≡ false
      → u ≤ t + 2 * skew
  both_near t u n a b = ground arith

  -- Let twice the permitted clock skew be less than the life of the mark that a used request leaves.
  -- Then a request that passed once does not pass at any later time, as long as nothing else touches
  -- the mark.
  pub no_replay :
      (w z : World p) (n : ℕ)
      → number_of p timestamp ≡ some n
      → 2 * skew < 1000 * replay_ttl skew
      → (check w).0 ≡ value none
      → w.time ≤ z.time
      → p.read z.kv z.time key ≡ p.read (check w).1.kv z.time key
      → (check z).0 ≢ value none
  no_replay w z n stamp short first le untouched second =
      let (near, run) = accepted w first in
      let (near', run') = accepted z second in
      let close : z.time ≤ w.time + 2 * skew =
        both_near w.time z.time n (rw stamp at near) (rw stamp at near') in
      let mark : p.read z.kv z.time key ≡ some (text (codes "1")) =
        untouched
        ∙ ap (λ (x : Outcome (Option Text) × World p). p.read x.1.kv z.time key) run
        ∙ laws.read-write_self w.kv w.time key (text (codes "1")) (some (replay_ttl skew)) z.time le
        ∙ ap (λ b. if b then some (text (codes "1")) else none)
            (lt→ltb z.time (w.time + 1000 * replay_ttl skew) (omega arith)) in
      marked-refused z _ mark second

  -- Where the permitted skew is half a minute or more, the mark is gone while the time stamp is still
  -- good: a request that is stamped with the latest time that passes at `w.time` passes again after
  -- twice the skew, with nothing else done in between.
  pub replay_passes :
      (w : World p)
      → 30_000 ≤ skew
      → number_of p timestamp ≡ some (w.time + skew)
      → (check w).0 ≡ value none
      → (check (record (check w).1 { time = w.time + 2 * skew })).0 ≡ value none
  replay_passes w wide stamp first =
      let (near, run) = accepted w first in
      let gone : p.read (check w).1.kv (w.time + 2 * skew) key ≡ none =
        ap (λ (x : Outcome (Option Text) × World p). p.read x.1.kv (w.time + 2 * skew) key) run
        ∙ laws.read-write_self w.kv w.time key (text (codes "1")) (some (replay_ttl skew))
            (w.time + 2 * skew) (omega arith)
        ∙ ap (λ b. if b then some (text (codes "1")) else none)
            (ltb-ge (w.time + 2 * skew) (w.time + 1000 * replay_ttl skew)
              (omega (arith, ttl_short wide))) in
      passes _ (rw stamp (ground arith)) gone (verified w first)
