-- ===== src/Transports/Verify.antt =====
-- The conformance check of a transport module (transports/tools/verify-wasm.mjs, `verifyWasm`). The
-- WebAssembly of the host is the parameter `Engine`.
pub mod Grows
pub mod Reached
pub mod Sandbox
use Prim.Native.Nat.{min}
use nex_talk_relay.Base.{
  Text, codes, same, ℕ, zero, suc, ◌+◌, ◌-◌, ◌*◌, ◌/◌, ◌%◌, ◌^◌, Bool, true, false, not, ◌&&◌, ◌||◌,
  Option, none, some, List, [], ◌∷◌, ◌++◌, map, length, any, keep, leb, ltb, ◌==◌, if◌then◌else◌,
}
use nex_talk_relay.Encoding.{Bytes, utf8}
use nex_talk_relay.Js.Regex.{is_space, skip_spaces}
use nex_talk_relay.Transports.Host.{bytes_at, frames}
use nex_talk_relay.Transports.Ntx.Manifest.{known_capabilities}

pub record Import : Type 0 where
  pub from : Text
  pub name : Text
  pub kind : Text

-- What the code takes from the host: the static methods of `WebAssembly.Module`, an instance with its
-- memory and exports, and `TextDecoder`. `invoke` is `none` where the function traps.
pub record Engine : Type 1 where
  pub Inst : Type 0
  pub validate : Bytes → Bool
  pub imports : Bytes → List Import
  pub exports : Bytes → List Text
  pub instantiate : Bytes → Inst
  pub invoke : Text → List ℕ → Inst → Option (ℕ × Inst)
  pub size : Inst → ℕ
  pub load : Inst → ℕ → ℕ
  pub save : ℕ → Bytes → Inst → Inst
  pub grow : ℕ → Inst → Inst
  pub decode : Bytes → Text

-- `includes`
abbrev pub includes : List Text → Text → Bool
includes ts t = any (λ s. same s t) ts

-- `ok(c, m)` at the failures so far
abbrev pub note : Bool → Text → List Text → List Text
note c m fails = if c then fails else fails ++ m ∷ []

unfoldable pub is_log_import : Import → Bool
unfolding codes
is_log_import i =
    same i.from (codes "ntx") && (same i.name (codes "log") && same i.kind (codes "function"))

-- The loop over the imports.
abbrev pub check_imports : List Import → List Text → List Text
check_imports [] fails = fails
check_imports (i ∷ is) fails =
    check_imports is
      (note (is_log_import i) (codes "forbidden import " ++ (i.from ++ b'.' ∷ i.name)) fails)

abbrev pub check_exports : List Text → List Text → List Text → List Text
check_exports names [] fails = fails
check_exports names (n ∷ ns) fails =
    check_exports names ns (note (includes names n) (codes "missing export " ++ n) fails)

unfoldable pub required_exports : List Text
unfolding codes
required_exports =
    codes "memory"
    ∷ codes "ntx_init"
    ∷ codes "ntx_caps"
    ∷ codes "ntx_start"
    ∷ codes "ntx_stop"
    ∷ codes "ntx_send"
    ∷ codes "ntx_attach"
    ∷ codes "ntx_detach"
    ∷ codes "ntx_poll"
    ∷ codes "ntx_status"
    ∷ []

-- `split(',')`
abbrev pub split_commas : Text → List Text
split_commas [] = [] ∷ []
split_commas (c ∷ t) =
    let rest = split_commas t in
    if c == b',' then [] ∷ rest else elim rest [ [] ↦ (c ∷ []) ∷ [] | s ∷ ss ↦ (c ∷ s) ∷ ss ]

-- `trim` at the end of a text
abbrev pub trim_end : Text → Text
trim_end [] = []
trim_end (c ∷ t) =
    let rest = trim_end t in
    elim rest [ [] ↦ if is_space c then [] else c ∷ [] | d ∷ s ↦ c ∷ d ∷ s ]

-- `.split(',').map((s) => s.trim()).filter(Boolean)`
unfoldable pub listed : Text → List Text
listed t = keep (λ s. ltb 0 (length s)) (map (λ s. trim_end (skip_spaces s)) (split_commas t))

abbrev pub times : ℕ → ℕ → Bytes
times zero b = []
times (suc n) b = b ∷ times n b

unfoldable pub test_frame : Bytes
unfolding codes utf8
test_frame = 3 ∷ utf8 (codes "conformance")

module _ (e : Engine) where
  open e use {Inst, validate, imports, exports, instantiate, invoke, size, load, save, grow, decode}

  -- The variables of `verifyWasm` behind the static tests.
  pub record State : Type 0 where
    pub inst : Inst
    pub scratch : ℕ
    pub fails : List Text

  -- `none` is an exception.
  abbrev pub Check : Type 0 → Type 0
  Check A = State → Option (A × State)

  infixl 5 ◌>>=◌ ◌>>◌
  abbrev pub ◌>>=◌ : {A B : Type 0} → Check A → (A → Check B) → Check B
  ◌>>=◌ m f s = elim (m s) [ none ↦ none | some (a, s') ↦ f a s' ]

  abbrev pub ◌>>◌ : {B : Type 0} → Check (Unit {0}) → Check B → Check B
  ◌>>◌ m k = m >>= λ _. k

  abbrev pub pure : {A : Type 0} → A → Check A
  pure a s = some (a, s)

  abbrev pub ok : Bool → Text → Check (Unit {0})
  ok c m s = some (tt, record s { fails = note c m s.fails })

  abbrev pub reset : Check (Unit {0})
  reset s = some (tt, record s { scratch = 0 })

  abbrev pub ask : Text → List ℕ → Check ℕ
  ask name args s = elim (invoke name args s.inst) [
    | none ↦ none
    | some (r, inst') ↦ some (r, record s { inst = inst' })
  ]

  -- `new Uint8Array(mem.buffer).set(d, at)`
  abbrev pub set_bytes : ℕ → Bytes → Check (Unit {0})
  set_bytes at d s =
      if leb (at + length d) (size s.inst)
      then some (tt, record s { inst = save at d s.inst })
      else none

  -- The two ways of `put`.
  unfoldable pub put_alloc : Bytes → Check ℕ
  unfolding codes
  put_alloc d = do p ← ask (codes "ntx_alloc") (length d ∷ []); set_bytes p d; pure p

  unfoldable pub put_scratch : Bytes → Check ℕ
  put_scratch d s =
      let at = 1048576 + s.scratch in
      let inst = if ltb (size s.inst) (at + length d) then grow 16 s.inst else s.inst in
      let next = s.scratch + (length d + 7 - (length d + 7) % 8) in
      (set_bytes at d >> pure at) (record s { inst = inst; scratch = next })

  unfoldable pub verify_put : Bool → Bytes → Check ℕ
  unfolding put_alloc put_scratch
  verify_put has_alloc d = if has_alloc then put_alloc d else put_scratch d

  unfoldable pub verify_blob : ℕ → Check Bytes
  verify_blob packed s =
      let p = packed / 2 ^ 32 in
      let l = packed % 2 ^ 32 in some (bytes_at (load s.inst) p (min l (size s.inst - p)), s)

  unfoldable pub verify_frames : Bytes → Check (List Bytes)
  verify_frames b s = some ((frames b).0, record s { fails = s.fails ++ (frames b).1 })

  -- The test of a claim against the manifest, where one is given.
  unfoldable pub check_claim : Option (List Text) → Text → Check (Unit {0})
  unfolding codes
  check_claim none c = pure tt
  check_claim (some ms) c =
      ok (includes ms c)
        (codes "module claims \"" ++ (c ++ codes "\" which the manifest does not declare"))

  -- The loop over the capabilities that the module claims.
  unfoldable pub check_caps : Option (List Text) → List Text → Check (Unit {0})
  unfolding codes known_capabilities check_claim
  check_caps manifest_caps [] = pure tt
  check_caps manifest_caps (c ∷ cs) = do
    ok (includes known_capabilities c) (codes "unknown capability " ++ c)
    check_claim manifest_caps c
    check_caps manifest_caps cs

  unfoldable pub check_ready : Bool → Check (Unit {0})
  unfolding codes verify_put
  check_ready has_alloc = do
    reset
    p ← verify_put has_alloc []
    r ← ask (codes "ntx_init") (p ∷ 0 ∷ [])
    ok (r == 0) (codes "ntx_init must return 0")

  unfoldable pub check_idle : Check (Unit {0})
  unfolding codes
  check_idle = do
    status ← ask (codes "ntx_status") []
    ok (status == 0) (codes "status must be 0 before start")

  unfoldable pub check_listed : Option (List Text) → List Text → Check (Unit {0})
  unfolding codes check_caps check_idle
  check_listed manifest_caps caps = do
    ok (ltb 0 (length caps)) (codes "ntx_caps is empty")
    check_caps manifest_caps caps
    check_idle

  unfoldable pub check_claims : Option (List Text) → Check (Unit {0})
  unfolding codes verify_blob check_listed listed
  check_claims manifest_caps = do
    packed ← ask (codes "ntx_caps") []
    b ← verify_blob packed
    check_listed manifest_caps (listed (decode b))

  -- A send of the test frame.
  unfoldable pub send_test : Bool → Check ℕ
  unfolding codes verify_put test_frame
  send_test has_alloc = do
    reset
    fp ← verify_put has_alloc test_frame
    rp ← verify_put has_alloc (times 32 7)
    ask (codes "ntx_send") (fp ∷ length test_frame ∷ rp ∷ 32 ∷ [])

  unfoldable pub check_start : Bool → Check (Unit {0})
  unfolding codes verify_put send_test
  check_start has_alloc = do
    early ← send_test has_alloc
    ok (early == 1) (codes "send before start must return 1")
    started ← ask (codes "ntx_start") []
    ok (started == 0) (codes "ntx_start must return 0")
    status ← ask (codes "ntx_status") []
    ok (status == 1) (codes "status must be 1 after start")
    reset
    m ← verify_put has_alloc (times 16 1)
    s ← verify_put has_alloc (times 32 2)
    attached ← ask (codes "ntx_attach") (m ∷ s ∷ 0 ∷ 0 ∷ 0 ∷ 0 ∷ [])
    ok (attached == 0) (codes "attach must return 0")

  unfoldable pub poll_test : ℕ → Check (List Bytes)
  unfolding codes verify_blob verify_frames
  poll_test m = do
    packed ← ask (codes "ntx_poll") (10 ∷ m ∷ 1 ∷ [])
    b ← verify_blob packed
    verify_frames b

  unfoldable pub check_loopback : Bool → ℕ → List Bytes → Check (Unit {0})
  unfolding codes poll_test test_frame
  check_loopback false m got = pure tt
  check_loopback true m got = do
    ok (elim got [ [] ↦ false | f ∷ fs ↦ length fs == 0 && same f test_frame ])
        (codes "loopback poll must return the frame sent")
    again ← poll_test m
    ok (length again == 0) (codes "poll must drain")

  unfoldable pub check_traffic : Bool → Bool → Check (Unit {0})
  unfolding codes verify_put send_test poll_test check_loopback
  check_traffic has_alloc loopback = do
    rc ← send_test has_alloc
    ok (rc == 0 || rc == 3) (codes "send must return 0 or 3")
    reset
    m ← verify_put has_alloc (times 16 1)
    got ← poll_test m
    check_loopback loopback m got

  unfoldable pub check_stop : Bool → Check (Unit {0})
  unfolding codes verify_put
  check_stop has_alloc = do
    reset
    m ← verify_put has_alloc (times 16 1)
    detached ← ask (codes "ntx_detach") (m ∷ [])
    ok (detached == 0) (codes "detach must return 0")
    stopped ← ask (codes "ntx_stop") []
    ok (stopped == 0) (codes "ntx_stop must return 0")
    status ← ask (codes "ntx_status") []
    ok (status == 0) (codes "status must be 0 after stop")

  -- The tests of a running instance.
  unfoldable pub check_instance : Bool → Option (List Text) → Bool → Check (Unit {0})
  unfolding check_ready check_claims check_start check_traffic check_stop
  check_instance has_alloc manifest_caps loopback = do
    check_ready has_alloc
    check_claims manifest_caps
    check_start has_alloc
    check_traffic has_alloc loopback
    check_stop has_alloc

  -- The tests of the module as such.
  unfoldable pub static_fails : Bytes → List Text
  unfolding is_log_import required_exports codes
  static_fails bytes =
      check_exports (exports bytes) required_exports (check_imports (imports bytes) [])

  -- `verifyWasm`: the failures; `none` is an exception.
  unfoldable pub verify_wasm : Bytes → Option (List Text) → Bool → Option (List Text)
  unfolding static_fails check_instance codes
  verify_wasm bytes manifest_caps loopback =
      let static = static_fails bytes in
      let has_alloc = includes (exports bytes) (codes "ntx_alloc") in
      let run =
        check_instance has_alloc manifest_caps loopback
          (record { inst = instantiate bytes; scratch = 0; fails = [] }) in
      if not (validate bytes)
      then some (codes "module does not validate" ∷ [])
      else if ltb 0 (length static)
      then some static
      else elim run [ none ↦ none | some (_, s) ↦ some s.fails ]
