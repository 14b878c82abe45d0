-- ===== src/Transports/Verify/Sandbox.antt =====
-- What is known of a module that passes `verifyWasm` (transports/tools/verify-wasm.mjs).
use nex_talk_relay.Base.{
  Text, codes, ℕ, ◌-◌, ◌/◌, ◌%◌, ◌^◌, ◌≡◌, ◌≢◌, refl, Bool, Bool-cases, Option-cases, inl, inr,
  true, false, Option, none, some, List, [], ◌∷◌, ◌++◌, length, all, ltb, arith,
}
use nex_talk_relay.Encoding.{Bytes}
use Prim.Native.Nat.{min}
use nex_talk_relay.Transports.Host.{bytes_at}
use nex_talk_relay.Transports.Ntx.Manifest.{known_capabilities}
use nex_talk_relay.Transports.Verify.Grows.{
  >>=-eq-some, claim-Grows, check_caps-Grows, check_start-Grows, check_traffic-Grows,
  check_stop-Grows, check_idle-Grows, Grows, >>=-Grows,
}
use nex_talk_relay.Transports.Verify.Reached.{Reached, made, check_ready-Stays}
use nex_talk_relay.Transports.Verify.{
  Import, Engine, includes, note, is_log_import, check_imports, check_exports, required_exports,
  static_fails, verify_wasm, State, Check, ◌>>=◌, ok, ask, check_claim, check_caps, check_ready,
  check_claims, check_listed, check_idle, ◌>>◌, check_start, check_traffic, check_stop,
  check_instance, listed, verify_blob,
}

note-none :
    (c : Bool) (m : Text) (fails : List Text) → note c m fails ≡ [] → (c ≡ true) × (fails ≡ [])
note-none true m fails h = (refl, h)
note-none false m [] h = cc
note-none false m (f ∷ fails) h = cc

check_imports-none :
    (is : List Import) (fails : List Text)
    → check_imports is fails ≡ []
    → (all is_log_import is ≡ true) × (fails ≡ [])
check_imports-none [] fails h = (refl, h)
check_imports-none (i ∷ is) fails h =
    let (rest, here) = check_imports-none is _ h in
    let (good, before) = note-none (is_log_import i) _ fails here in (rw (good, rest) refl, before)

check_exports-none :
    (names ns fails : List Text)
    → check_exports names ns fails ≡ []
    → (all (includes names) ns ≡ true) × (fails ≡ [])
check_exports-none names [] fails h = (refl, h)
check_exports-none names (n ∷ ns) fails h =
    let (rest, here) = check_exports-none names ns _ h in
    let (good, before) = note-none (includes names n) _ fails here in (rw (good, rest) refl, before)

empty_of_ltb : (fs : List Text) → ltb 0 (length fs) ≡ false → fs ≡ []
empty_of_ltb [] h = refl
empty_of_ltb (f ∷ fs) h = absurd (ground arith)

ltb_of_empty : (fs : List Text) → ltb 0 (length fs) ≡ true → fs ≢ []
ltb_of_empty [] h e = cc
ltb_of_empty (f ∷ fs) h e = cc

-- What a manifest, where one is given, says of a capability.
abbrev pub declares : Option (List Text) → Text → Bool
declares none c = true
declares (some ms) c = includes ms c

module _ (e : Engine) where
  open e use {validate, imports, exports, load, size, decode}

  -- The capabilities that the module claims by the result `packed` of `ntx_caps`.
  abbrev pub claimed : ℕ → State e → List Text
  claimed packed u = listed (
      decode (
        bytes_at (load u.inst) (packed / 2 ^ 32)
          (min (packed % 2 ^ 32) (size u.inst - packed / 2 ^ 32))))

  -- The promise of the check: the module is valid and can reach nothing of its host but `ntx.log`, it
  -- has every export that a host calls, and on an instance of it `ntx_caps` claims at least one capability, and only
  -- known ones that the manifest declares.
  pub record IsConformant (bytes : Bytes) (manifest_caps : Option (List Text)) : Type 0 where
    pub valid : validate bytes ≡ true
    pub sandboxed : all is_log_import (imports bytes) ≡ true
    pub exported : all (includes (exports bytes)) required_exports ≡ true
    pub before : State e
    pub reached : Reached e bytes before.inst
    pub after : State e
    pub packed : ℕ
    pub asked : ask e (codes "ntx_caps") [] before ≡ some (packed, after)
    pub some_capability : ltb 0 (length (claimed packed after)) ≡ true
    pub known : all (includes known_capabilities) (claimed packed after) ≡ true
    pub declared : all (declares manifest_caps) (claimed packed after) ≡ true

  ok-none :
      (c : Bool) (m : Text) (s s' : State e) (a : Unit {0})
      → ok e c m s ≡ some (a, s')
      → s'.fails ≡ []
      → c ≡ true
  ok-none true m s s' a h empty = refl
  ok-none false m s s' a h empty =
      let noted : note false m s.fails ≡ [] = cc in (note-none false m s.fails noted).0

  check_claim-none :
      (manifest_caps : Option (List Text)) (c : Text) (s s' : State e) (a : Unit {0})
      → check_claim e manifest_caps c s ≡ some (a, s')
      → s'.fails ≡ []
      → declares manifest_caps c ≡ true
  unfolding check_claim
  check_claim-none none c s s' a h empty = refl
  check_claim-none (some ms) c s s' a h empty = ok-none (includes ms c) _ s s' a h empty

  check_caps-none :
      (manifest_caps : Option (List Text)) (cs : List Text) (s s' : State e) (a : Unit {0})
      → check_caps e manifest_caps cs s ≡ some (a, s')
      → s'.fails ≡ []
      → (all (includes known_capabilities) cs ≡ true) × (all (declares manifest_caps) cs ≡ true)
  unfolding check_caps
  check_caps-none manifest_caps [] s s' a h empty = (refl, refl)
  check_caps-none manifest_caps (c ∷ cs) s s' a h empty =
      let (_, t, one, more) =
        >>=-eq-some e (ok e (includes known_capabilities c) (codes "unknown capability " ++ c))
          (λ _. ◌>>◌ e (check_claim e manifest_caps c) (check_caps e manifest_caps cs)) s a s' h in
      let (_, u, two, three) =
        >>=-eq-some e (check_claim e manifest_caps c) (λ _. check_caps e manifest_caps cs) t a s'
          more in
      let (known, declared) = check_caps-none manifest_caps cs u s' a three empty in
      let u_empty = (check_caps-Grows e manifest_caps cs).none_before u a s' three empty in
      let here = check_claim-none manifest_caps c t u _ two u_empty in
      let t_empty = (claim-Grows e manifest_caps c).none_before t _ u two u_empty in
      let known_here =
        ok-none (includes known_capabilities c) (codes "unknown capability " ++ c) s t _ one
          t_empty in
      (rw (known_here, known) refl, rw (here, declared) refl)

  check_listed-none :
      (manifest_caps : Option (List Text)) (caps : List Text) (s s' : State e) (a : Unit {0})
      → check_listed e manifest_caps caps s ≡ some (a, s')
      → s'.fails ≡ []
      → (ltb 0 (length caps) ≡ true)
        × (all (includes known_capabilities) caps ≡ true)
        × (all (declares manifest_caps) caps ≡ true)
  unfolding check_listed
  check_listed-none manifest_caps caps s s' a h empty =
      let rest = ◌>>◌ e (check_caps e manifest_caps caps) (check_idle e) in
      let (_, t, one, more) =
        >>=-eq-some e (ok e (ltb 0 (length caps)) (codes "ntx_caps is empty")) (λ _. rest) s a s'
          h in
      let (_, u, two, three) =
        >>=-eq-some e (check_caps e manifest_caps caps) (λ _. check_idle e) t a s' more in
      let u_empty = (check_idle-Grows e).none_before u a s' three empty in
      let t_empty = (check_caps-Grows e manifest_caps caps).none_before t _ u two u_empty in
      let (known, declared) = check_caps-none manifest_caps caps t u _ two u_empty in
      (ok-none (ltb 0 (length caps)) (codes "ntx_caps is empty") s t _ one t_empty, known, declared)

  check_claims-none :
      (manifest_caps : Option (List Text)) (s s' : State e) (a : Unit {0})
      → check_claims e manifest_caps s ≡ some (a, s')
      → s'.fails ≡ []
      → (packed : ℕ) × (t : State e) × (ask e (codes "ntx_caps") [] s ≡ some (packed, t))
        × (ltb 0 (length (claimed packed t)) ≡ true)
        × (all (includes known_capabilities) (claimed packed t) ≡ true)
        × (all (declares manifest_caps) (claimed packed t) ≡ true)
  unfolding check_claims verify_blob
  check_claims-none manifest_caps s s' a h empty =
      let (packed, t, asked, rest) =
        >>=-eq-some e (ask e (codes "ntx_caps") [])
          (λ packed.
            ◌>>=◌ e (verify_blob e packed) (λ b. check_listed e manifest_caps (listed (decode b))))
          s a s' h in
      let (filled, known, declared) =
        check_listed-none manifest_caps (claimed packed t) t s' a rest empty in
      (packed, t, asked, filled, known, declared)

  check_rest : Bool → Bool → Check e (Unit {0})
  check_rest has_alloc loopback =
      ◌>>◌ e (check_start e has_alloc)
        (◌>>◌ e (check_traffic e has_alloc loopback) (check_stop e has_alloc))

  check_rest-Grows : (has_alloc loopback : Bool) → Grows e (check_rest has_alloc loopback)
  unfolding check_rest
  check_rest-Grows has_alloc loopback = >>=-Grows e (check_start-Grows e has_alloc) (λ _.
      >>=-Grows e (check_traffic-Grows e has_alloc loopback) (λ _. check_stop-Grows e has_alloc))

  check_instance-none :
      (has_alloc : Bool) (manifest_caps : Option (List Text)) (loopback : Bool) (s s' : State e)
      (a : Unit {0})
      → check_instance e has_alloc manifest_caps loopback s ≡ some (a, s')
      → s'.fails ≡ []
      → (t u : State e) × (b : Unit {0}) × (check_ready e has_alloc s ≡ some (b, t))
        × (check_claims e manifest_caps t ≡ some (tt, u))
        × (u.fails ≡ [])
  unfolding check_instance check_rest
  check_instance-none has_alloc manifest_caps loopback s s' a h empty =
      let (b, t, ready, more) =
        >>=-eq-some e (check_ready e has_alloc)
          (λ _. ◌>>◌ e (check_claims e manifest_caps) (check_rest has_alloc loopback)) s a s' h in
      let (_, u, claims, rest) =
        >>=-eq-some e (check_claims e manifest_caps) (λ _. check_rest has_alloc loopback) t a s'
          more in
      (t, u, b, ready, claims, (check_rest-Grows has_alloc loopback).none_before u a s' rest empty)

  -- The tests of the module as such.
  static_passed :
      (bytes : Bytes) (manifest_caps : Option (List Text)) (loopback : Bool)
      → verify_wasm e bytes manifest_caps loopback ≡ some []
      → (validate bytes ≡ true) × (ltb 0 (length (static_fails e bytes)) ≡ false)
  unfolding verify_wasm
  static_passed bytes manifest_caps loopback h = elim (Bool-cases (validate bytes)) [
    | inr bad ↦ (let wrong = rw (bad, verify_wasm) at h in cc)
    | inl good ↦ elim (Bool-cases (ltb 0 (length (static_fails e bytes)))) [
      | inr clean ↦ (good, clean)
      | inl over ↦
          (let wrong = rw (good, over, verify_wasm) at h in
            let same_list : static_fails e bytes ≡ [] = cc in
            absurd (ltb_of_empty (static_fails e bytes) over same_list))
    ]
  ]

  -- A module that passes the check, with or without the loopback, keeps the promise of `IsConformant`:
  -- it is valid and imports nothing but `ntx.log`, it exports what a host calls, and what an instance of
  -- this module claims by `ntx_caps`, behind some calls of its exports and writes to its memory, is not
  -- empty, is known, and is declared by the manifest where one is given.
  pub verify_wasm-IsConformant :
      (bytes : Bytes) (manifest_caps : Option (List Text)) (loopback : Bool)
      → verify_wasm e bytes manifest_caps loopback ≡ some []
      → IsConformant bytes manifest_caps
  unfolding verify_wasm static_fails
  verify_wasm-IsConformant bytes manifest_caps loopback h =
      let (good, clean) = static_passed bytes manifest_caps loopback h in
      let none_left = empty_of_ltb (static_fails e bytes) clean in
      let (there, imported) = check_exports-none (exports bytes) required_exports _ none_left in
      let (logs, _) = check_imports-none (imports bytes) [] imported in
      let start : State e = record { inst = e.instantiate bytes; scratch = 0; fails = [] } in
      let has_alloc = includes (exports bytes) (codes "ntx_alloc") in
      elim (Option-cases (check_instance e has_alloc manifest_caps loopback start)) [
        | inl trap ↦ (let wrong = rw (good, clean, trap, verify_wasm) at h in cc)
        | inr ((a, s'), run) ↦
            (let passed = rw (good, clean, run, verify_wasm) at h in
              let empty : s'.fails ≡ [] = cc in
              let (t, u, b, ready, claims, u_empty) =
                check_instance-none has_alloc manifest_caps loopback start s' a run empty in
              let (packed, v, asked, filled, known, declared) =
                check_claims-none manifest_caps t u tt claims u_empty in
              record {
                valid = good;
                sandboxed = logs;
                exported = there;
                before = t;
                reached = (check_ready-Stays e bytes has_alloc).at start b t ready made;
                after = v;
                packed = packed;
                asked = asked;
                some_capability = filled;
                known = known;
                declared = declared;
              })
      ]
