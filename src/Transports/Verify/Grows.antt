-- ===== src/Transports/Verify/Grows.antt =====
-- The checks on a running instance only add failures (transports/tools/verify-wasm.mjs, `verifyWasm`).
use nex_talk_relay.Base.{
  Text, ℕ, ◌≡◌, refl, Bool, true, false, Option, none, some, List, [], ◌∷◌, ◌++◌, Option-cases, inl,
  inr, arith,
}
use nex_talk_relay.Encoding.{Bytes}
use nex_talk_relay.Transports.Host.{frames}
use nex_talk_relay.Transports.Verify.{
  Engine, State, Check, ◌>>=◌, pure, ok, reset, ask, set_bytes, put_alloc, put_scratch, verify_put,
  verify_blob, verify_frames, check_claim, check_caps, check_idle, send_test, check_start,
  poll_test, check_loopback, check_traffic, check_stop,
}

left_of_nil : (xs ys : List Text) → xs ++ ys ≡ [] → xs ≡ []
left_of_nil [] ys h = refl
left_of_nil (x ∷ xs) ys h = cc

module _ (e : Engine) where
  -- A step after which there is no failure started with none.
  pub record Grows {A : Type 0} (m : Check e A) : Type 0 where
    pub none_before :
        (s : State e) (a : A) (s' : State e) → m s ≡ some (a, s') → s'.fails ≡ [] → s.fails ≡ []

  pub >>=-eq-some :
      {A B : Type 0} (m : Check e A) (f : A → Check e B) (s : State e) (b : B) (s' : State e)
      → ◌>>=◌ e m f s ≡ some (b, s')
      → (a : A) × (t : State e) × (m s ≡ some (a, t)) × (f a t ≡ some (b, s'))
  >>=-eq-some m f s b s' h = elim (Option-cases (m s)) [
    | inl stuck ↦ (let wrong = rw (stuck, ◌>>=◌) at h in cc)
    | inr ((a, t), run) ↦ (a, t, run, rw (run, ◌>>=◌) at h)
  ]

  pub >>=-Grows :
      {A B : Type 0} {m : Check e A} {f : A → Check e B}
      → Grows m
      → ((a : A) → Grows (f a))
      → Grows (◌>>=◌ e m f)
  >>=-Grows {m} {f} g k = record {
    none_before = λ s b s' h empty.
        let (a, t, one, two) = >>=-eq-some m f s b s' h in
        g.none_before s a t one ((k a).none_before t b s' two empty);
  }

  pure-Grows : {A : Type 0} (a : A) → Grows (pure e a)
  pure-Grows a = record { none_before = λ s b s' h empty. cc }

  pub ok-Grows : (c : Bool) (m : Text) → Grows (ok e c m)
  ok-Grows true m = record { none_before = λ s b s' h empty. cc }
  ok-Grows false m = record {
    none_before = λ s b s' h empty.
        let joined : s.fails ++ m ∷ [] ≡ [] = cc in left_of_nil s.fails (m ∷ []) joined;
  }

  reset-Grows : Grows (reset e)
  reset-Grows = record { none_before = λ s b s' h empty. cc }

  pub ask-Grows : (name : Text) (args : List ℕ) → Grows (ask e name args)
  ask-Grows name args = record {
    none_before = λ s b s' h empty. elim (Option-cases (e.invoke name args s.inst)) [
      | inl trap ↦ (let wrong = rw (trap, ask) at h in cc)
      | inr ((r, i), run) ↦ (let done = rw (run, ask) at h in cc)
    ];
  }

  set_bytes-Grows : (at : ℕ) (d : Bytes) → Grows (set_bytes e at d)
  set_bytes-Grows at d = record { none_before = λ s b s' h empty. ground arith }

  verify_blob-Grows : (packed : ℕ) → Grows (verify_blob e packed)
  unfolding verify_blob
  verify_blob-Grows packed = record { none_before = λ s b s' h empty. cc }

  verify_frames-Grows : (b : Bytes) → Grows (verify_frames e b)
  unfolding verify_frames
  verify_frames-Grows b = record {
    none_before = λ s fs s' h empty.
        let joined : s.fails ++ (frames b).1 ≡ [] = cc in left_of_nil s.fails (frames b).1 joined;
  }

  ruleset steps = (
    >>=-Grows, pure-Grows, ok-Grows, reset-Grows, ask-Grows, set_bytes-Grows, verify_blob-Grows,
    verify_frames-Grows,
  )

  put_alloc-Grows : (d : Bytes) → Grows (put_alloc e d)
  unfolding put_alloc
  put_alloc-Grows d = search steps

  put_scratch-Grows : (d : Bytes) → Grows (put_scratch e d)
  unfolding put_scratch
  put_scratch-Grows d = record {
    none_before = λ s a s' h empty.
        (>>=-Grows (set_bytes-Grows _ d) (λ _. pure-Grows _)).none_before _ a s' h empty;
  }

  verify_put-Grows : (has_alloc : Bool) (d : Bytes) → Grows (verify_put e has_alloc d)
  unfolding verify_put
  verify_put-Grows true d = put_alloc-Grows d
  verify_put-Grows false d = put_scratch-Grows d

  pub claim-Grows :
      (manifest_caps : Option (List Text)) (c : Text) → Grows (check_claim e manifest_caps c)
  unfolding check_claim
  claim-Grows none c = pure-Grows tt
  claim-Grows (some ms) c = ok-Grows _ _

  pub check_caps-Grows :
      (manifest_caps : Option (List Text)) (cs : List Text) → Grows (check_caps e manifest_caps cs)
  unfolding check_caps
  check_caps-Grows manifest_caps [] = pure-Grows tt
  check_caps-Grows manifest_caps (c ∷ cs) =
      >>=-Grows (ok-Grows _ _)
        (λ _. >>=-Grows (claim-Grows manifest_caps c) (λ _. check_caps-Grows manifest_caps cs))

  pub check_idle-Grows : Grows (check_idle e)
  unfolding check_idle
  check_idle-Grows = search steps

  send_test-Grows : (has_alloc : Bool) → Grows (send_test e has_alloc)
  unfolding send_test
  send_test-Grows has_alloc = search (steps, verify_put-Grows)

  pub check_start-Grows : (has_alloc : Bool) → Grows (check_start e has_alloc)
  unfolding check_start
  check_start-Grows has_alloc = search (steps, verify_put-Grows, send_test-Grows) depth 30

  poll_test-Grows : (m : ℕ) → Grows (poll_test e m)
  unfolding poll_test
  poll_test-Grows m = search steps

  check_loopback-Grows :
      (loopback : Bool) (m : ℕ) (got : List Bytes) → Grows (check_loopback e loopback m got)
  unfolding check_loopback
  check_loopback-Grows false m got = pure-Grows tt
  check_loopback-Grows true m got = search (steps, poll_test-Grows)

  pub check_traffic-Grows : (has_alloc loopback : Bool) → Grows (check_traffic e has_alloc loopback)
  unfolding check_traffic
  check_traffic-Grows has_alloc loopback =
      search (steps, verify_put-Grows, send_test-Grows, poll_test-Grows, check_loopback-Grows) depth
        30

  pub check_stop-Grows : (has_alloc : Bool) → Grows (check_stop e has_alloc)
  unfolding check_stop
  check_stop-Grows has_alloc = search (steps, verify_put-Grows) depth 30
