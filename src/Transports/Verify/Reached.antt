-- ===== src/Transports/Verify/Reached.antt =====
-- The instances that a host gets from a module by what `verifyWasm` does to one
-- (transports/tools/verify-wasm.mjs).
use nex_talk_relay.Base.{
  ◌==◌, Text, codes, ℕ, ◌+◌, ◌≡◌, Bool, true, false, Bool-cases, Option-cases, inl, inr, some, List,
  [], ◌∷◌, length, leb, ltb,
}
use nex_talk_relay.Encoding.{Bytes}
use nex_talk_relay.Transports.Verify.{
  pure, Engine, State, Check, ◌>>=◌, ok, ask, reset, set_bytes, put_alloc, put_scratch, verify_put,
  check_ready,
}
use nex_talk_relay.Transports.Verify.Grows.{>>=-eq-some}

module _ (e : Engine) (bytes : Bytes) where
  open e use {Inst, instantiate, invoke, save, grow}

  -- An instance of the module `bytes`, behind any calls of its exports, writes and growths.
  pub data Reached : Inst → Type 0 where
    made : Reached (instantiate bytes)
    called :
        {i j : Inst} (name : Text) (args : List ℕ) (r : ℕ)
        → Reached i
        → invoke name args i ≡ some (r, j)
        → Reached j
    filled : {i : Inst} (at : ℕ) (d : Bytes) → Reached i → Reached (save at d i)
    grown : {i : Inst} (pages : ℕ) → Reached i → Reached (grow pages i)

  -- A check that goes on from an instance of the module has one behind it.
  pub record Stays {A : Type 0} (m : Check e A) : Type 0 where
    pub at :
        (s : State e) (a : A) (s' : State e) → m s ≡ some (a, s') → Reached s.inst → Reached s'.inst

  >>=-Stays :
      {A B : Type 0} {m : Check e A} {f : A → Check e B}
      → Stays m
      → ((a : A) → Stays (f a))
      → Stays (◌>>=◌ e m f)
  >>=-Stays {m} {f} g k = record {
    at = λ s b s' h there.
        let (a, t, one, two) = >>=-eq-some e m f s b s' h in
        (k a).at t b s' two (g.at s a t one there);
  }

  ask-Stays : (name : Text) (args : List ℕ) → Stays (ask e name args)
  ask-Stays name args = record {
    at = λ s a s' h there. elim (Option-cases (invoke name args s.inst)) [
      | inl trap ↦ (let wrong = rw (trap, ask) at h in cc)
      | inr ((r, j), run) ↦
          (let done = rw (run, ask) at h in
            let same_inst : j ≡ s'.inst = cc in rw (← same_inst) (called name args r there run))
    ];
  }

  ok-Stays : (c : Bool) (m : Text) → Stays (ok e c m)
  ok-Stays c m = record {
    at = λ s a s' h there. let same_inst : s.inst ≡ s'.inst = cc in rw (← same_inst) there;
  }

  reset-Stays : Stays (reset e)
  reset-Stays = record {
    at = λ s a s' h there. let same_inst : s.inst ≡ s'.inst = cc in rw (← same_inst) there;
  }

  set_bytes-Stays : (at : ℕ) (d : Bytes) → Stays (set_bytes e at d)
  set_bytes-Stays at d = record {
    at = λ s a s' h there. elim (Bool-cases (leb (at + length d) (e.size s.inst))) [
      | inr over ↦ (let wrong = rw (over, set_bytes) at h in cc)
      | inl room ↦
          (let done = rw (room, set_bytes) at h in
            let same_inst : save at d s.inst ≡ s'.inst = cc in rw (← same_inst) (filled at d there))
    ];
  }

  pure-Stays : {A : Type 0} (a : A) → Stays (pure e a)
  pure-Stays a = record {
    at = λ s b s' h there. let same_inst : s.inst ≡ s'.inst = cc in rw (← same_inst) there;
  }

  put_alloc-Stays : (d : Bytes) → Stays (put_alloc e d)
  unfolding put_alloc
  put_alloc-Stays d =
      >>=-Stays (ask-Stays (codes "ntx_alloc") (length d ∷ []))
        λ at. >>=-Stays (set_bytes-Stays at d) λ _. pure-Stays at

  put_scratch-Stays : (d : Bytes) → Stays (put_scratch e d)
  unfolding put_scratch
  put_scratch-Stays d = record {
    at = λ s a s' h there.
        let at = 1048576 + s.scratch in
        elim (Bool-cases (ltb (e.size s.inst) (at + length d))) [
          | inl small ↦
              (>>=-Stays (set_bytes-Stays at d) (λ _. pure-Stays at)).at _ a s'
                (rw (small, put_scratch) at h) (grown 16 there)
          | inr large ↦
              (>>=-Stays (set_bytes-Stays at d) (λ _. pure-Stays at)).at _ a s'
                (rw (large, put_scratch) at h) there
        ];
  }

  pub check_ready-Stays : (has_alloc : Bool) → Stays (check_ready e has_alloc)
  unfolding check_ready verify_put
  check_ready-Stays true = >>=-Stays reset-Stays λ _. >>=-Stays (put_alloc-Stays []) λ at.
      >>=-Stays (ask-Stays (codes "ntx_init") (at ∷ 0 ∷ []))
        λ r. ok-Stays (r == 0) (codes "ntx_init must return 0")
  check_ready-Stays false = >>=-Stays reset-Stays λ _. >>=-Stays (put_scratch-Stays []) λ at.
      >>=-Stays (ask-Stays (codes "ntx_init") (at ∷ 0 ∷ []))
        λ r. ok-Stays (r == 0) (codes "ntx_init must return 0")
