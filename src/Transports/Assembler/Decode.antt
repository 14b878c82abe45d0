-- ===== src/Transports/Assembler/Decode.antt =====
-- Reading the code section that the assembler writes (transports/tools/wasmasm.mjs), by the binary
-- format of WebAssembly.
use mathlib.Core.List.{append_assoc}
use nex_talk_relay.Base.{
  ℕ, zero, suc, ◌+◌, ◌<◌, ◌≡◌, refl, ap, Option, none, some, List, [], ◌∷◌, ◌++◌, map, length,
  length-append, length-map, ◌==◌, if◌then◌else◌, arith,
}
use nex_talk_relay.Encoding.{Bytes}
use nex_talk_relay.Transports.Leb.{ℤ, uleb, sleb}
use nex_talk_relay.Transports.Leb.RoundTrip.{uleb_read, uleb_read-uleb, sleb_read, sleb_read-sleb}
use nex_talk_relay.Transports.Assembler.{
  Instr, i32c, i64c, get, set, gget, gset, add, sub, and, shru, gtu, eqz, store8, ifv, end, ret,
  ext, shl64, or64, memcopy, op, flat, vec, i32, local_vec, body, Fn, code_section,
}

abbrev pub Reader : Type 0 → Type 0
Reader A = Bytes → Option (A × Bytes)

-- The rest of the bytes behind those that must stand there.
abbrev expect : Bytes → Bytes → Option Bytes
expect [] bs = some bs
expect (c ∷ cs) [] = none
expect (c ∷ cs) (b ∷ bs) = if c == b then expect cs bs else none

signed : (ℤ → Instr) → Reader Instr
signed f bs = elim (sleb_read bs) [ none ↦ none | some (v, rest) ↦ some (f v, rest) ]

indexed : (ℕ → Instr) → Reader Instr
indexed f bs = elim (uleb_read bs) [ none ↦ none | some (n, rest) ↦ some (f n, rest) ]

fixed : Instr → Bytes → Reader Instr
fixed i cs bs = elim (expect cs bs) [ none ↦ none | some rest ↦ some (i, rest) ]

stored : Reader Instr
unfolding indexed
stored bs = elim (expect (0x00 ∷ []) bs) [ none ↦ none | some rest ↦ indexed store8 rest ]

-- One instruction.
read_instr : Reader Instr
unfolding signed indexed fixed stored
read_instr [] = none
read_instr (c ∷ bs) =
    if c == 0x41
    then signed i32c bs
    else if c == 0x42
    then signed i64c bs
    else if c == 0x20
    then indexed get bs
    else if c == 0x21
    then indexed set bs
    else if c == 0x23
    then indexed gget bs
    else if c == 0x24
    then indexed gset bs
    else if c == 0x6a
    then some (add, bs)
    else if c == 0x6b
    then some (sub, bs)
    else if c == 0x71
    then some (and, bs)
    else if c == 0x76
    then some (shru, bs)
    else if c == 0x4b
    then some (gtu, bs)
    else if c == 0x45
    then some (eqz, bs)
    else if c == 0x3a
    then stored bs
    else if c == 0x04
    then fixed ifv (0x40 ∷ []) bs
    else if c == 0x0b
    then some (end, bs)
    else if c == 0x0f
    then some (ret, bs)
    else if c == 0xad
    then some (ext, bs)
    else if c == 0x86
    then some (shl64, bs)
    else if c == 0x84
    then some (or64, bs)
    else if c == 0xfc
    then fixed memcopy (0x0a ∷ 0x00 ∷ 0x00 ∷ []) bs
    else none

signed-sleb : (f : ℤ → Instr) (v : ℤ) (rest : Bytes) → signed f (sleb v ++ rest) ≡ some (f v, rest)
unfolding signed
signed-sleb f v rest = rw (sleb_read-sleb v rest, signed) refl

indexed-uleb :
    (f : ℕ → Instr) (n : ℕ) (rest : Bytes) → indexed f (uleb n ++ rest) ≡ some (f n, rest)
unfolding indexed
indexed-uleb f n rest = rw (uleb_read-uleb n rest, indexed) refl

read_instr-op : (i : Instr) (rest : Bytes) → read_instr (op i ++ rest) ≡ some (i, rest)
unfolding read_instr op
read_instr-op (i32c v) rest = signed-sleb i32c v rest
read_instr-op (i64c v) rest = signed-sleb i64c v rest
read_instr-op (get i) rest = indexed-uleb get i rest
read_instr-op (set i) rest = indexed-uleb set i rest
read_instr-op (gget i) rest = indexed-uleb gget i rest
read_instr-op (gset i) rest = indexed-uleb gset i rest
read_instr-op add rest = refl
read_instr-op sub rest = refl
read_instr-op and rest = refl
read_instr-op shru rest = refl
read_instr-op gtu rest = refl
read_instr-op eqz rest = refl
read_instr-op (store8 off) rest = indexed-uleb store8 off rest
read_instr-op ifv rest = refl
read_instr-op end rest = refl
read_instr-op ret rest = refl
read_instr-op ext rest = refl
read_instr-op shl64 rest = refl
read_instr-op or64 rest = refl
read_instr-op memcopy rest = refl

-- All instructions up to the end of the bytes; a byte at least for each.
read_code : ℕ → Bytes → Option (List Instr)
read_code fuel [] = some []
read_code zero (b ∷ bs) = none
read_code (suc fuel) (b ∷ bs) = elim (read_instr (b ∷ bs)) [
  | none ↦ none
  | some (i, rest) ↦ elim (read_code fuel rest) [ none ↦ none | some is ↦ some (i ∷ is) ]
]

op-cons : (i : Instr) → (c : ℕ) × (cs : Bytes) × (op i ≡ c ∷ cs)
unfolding op
op-cons (i32c v) = (_, _, refl)
op-cons (i64c v) = (_, _, refl)
op-cons (get i) = (_, _, refl)
op-cons (set i) = (_, _, refl)
op-cons (gget i) = (_, _, refl)
op-cons (gset i) = (_, _, refl)
op-cons (store8 off) = (_, _, refl)
op-cons add = (_, _, refl)
op-cons sub = (_, _, refl)
op-cons and = (_, _, refl)
op-cons shru = (_, _, refl)
op-cons gtu = (_, _, refl)
op-cons eqz = (_, _, refl)
op-cons ifv = (_, _, refl)
op-cons end = (_, _, refl)
op-cons ret = (_, _, refl)
op-cons ext = (_, _, refl)
op-cons shl64 = (_, _, refl)
op-cons or64 = (_, _, refl)
op-cons memcopy = (_, _, refl)

read_code-cons :
    (fuel : ℕ) (i : Instr) (rest : Bytes) (is : List Instr)
    → read_code fuel rest ≡ some is
    → read_code (suc fuel) (op i ++ rest) ≡ some (i ∷ is)
unfolding read_code
read_code-cons fuel i rest is h =
    let (c, cs, e) = op-cons i in
    let first : read_instr (c ∷ (cs ++ rest)) ≡ some (i, rest) = rw e at (read_instr-op i rest) in
    rw (e, first, h, read_code) refl

read_code-ops :
    (fuel : ℕ) (ops : List Instr)
    → length (flat (map op ops)) < fuel
    → read_code fuel (flat (map op ops) ++ 0x0b ∷ []) ≡ some (ops ++ end ∷ [])
read_code-ops zero ops h = absurd (omega arith)
read_code-ops (suc fuel) [] h =
    unfold read_code read_instr in elim fuel [ zero ↦ refl | suc n ↦ refl ]
read_code-ops (suc fuel) (i ∷ ops) h =
    let (c, cs, e) = op-cons i in
    let shorter : length (flat (map op ops)) < fuel =
      omega (arith, length-append {0} (op i) (flat (map op ops)), ap length e) in
    rw (append_assoc (op i) (flat (map op ops)) (0x0b ∷ []))
      (read_code-cons fuel i _ _ (read_code-ops fuel ops shorter))

-- The next `n` bytes and the rest.
abbrev split : ℕ → Bytes → Option (Bytes × Bytes)
split zero bs = some ([], bs)
split (suc n) [] = none
split (suc n) (b ∷ bs) = elim (split n bs) [
  | none ↦ none
  | some (front, rest) ↦ some (b ∷ front, rest)
]

split-append : (xs ys : Bytes) → split (length xs) (xs ++ ys) ≡ some (xs, ys)
split-append [] ys = refl
split-append (x ∷ xs) ys = rw (split-append xs ys) refl

-- `k` groups of locals of 32 bits; their number.
read_groups : ℕ → Reader ℕ
read_groups zero bs = some (0, bs)
read_groups (suc k) bs = elim (uleb_read bs) [
  | none ↦ none
  | some (n, rest) ↦ elim (expect (i32 ∷ []) rest) [
    | none ↦ none
    | some rest' ↦ elim (read_groups k rest') [
      | none ↦ none
      | some (m, rest'') ↦ some (n + m, rest'')
    ]
  ]
]

read_locals : Reader ℕ
unfolding read_groups
read_locals bs = elim (uleb_read bs) [ none ↦ none | some (k, rest) ↦ read_groups k rest ]

read_locals-local_vec :
    (n : ℕ) (rest : Bytes) → n < 128 → read_locals (local_vec n ++ rest) ≡ some (n, rest)
unfolding read_locals read_groups local_vec vec uleb_read uleb
read_locals-local_vec zero rest h = refl
read_locals-local_vec (suc n) rest h = ground arith

-- The body of a function within its bytes: the number of locals and the instructions.
read_function : Bytes → Option (ℕ × List Instr)
read_function bs = elim (read_locals bs) [
  | none ↦ none
  | some (n, rest) ↦ elim (read_code (length rest) rest) [ none ↦ none | some is ↦ some (n, is) ]
]

-- A body with its size in front.
read_body : Reader (ℕ × List Instr)
read_body bs = elim (uleb_read bs) [
  | none ↦ none
  | some (n, rest) ↦ elim (split n rest) [
    | none ↦ none
    | some (front, rest') ↦ elim (read_function front) [ none ↦ none | some f ↦ some (f, rest') ]
  ]
]

read_bodies : ℕ → Reader (List (ℕ × List Instr))
read_bodies zero bs = some ([], bs)
read_bodies (suc k) bs = elim (read_body bs) [
  | none ↦ none
  | some (f, rest) ↦ elim (read_bodies k rest) [
    | none ↦ none
    | some (fs, rest') ↦ some (f ∷ fs, rest')
  ]
]

-- A code section: the number of bodies, and the bodies.
pub read_code_section : Reader (List (ℕ × List Instr))
unfolding read_bodies
read_code_section bs = elim (uleb_read bs) [ none ↦ none | some (k, rest) ↦ read_bodies k rest ]

read_function-ops :
    (n : ℕ) (ops : List Instr)
    → n < 128
    → read_function (local_vec n ++ (flat (map op ops) ++ 0x0b ∷ [])) ≡ some (n, ops ++ end ∷ [])
unfolding read_function
read_function-ops n ops h =
    let code : Bytes = flat (map op ops) ++ 0x0b ∷ [] in
    let enough : length (flat (map op ops)) < length code =
      omega (arith, length-append {0} (flat (map op ops)) (0x0b ∷ [])) in
    rw (read_locals-local_vec n code h, read_code-ops (length code) ops enough, read_function) refl

read_body-body :
    (n : ℕ) (ops : List Instr) (rest : Bytes)
    → n < 128
    → read_body (body n ops ++ rest) ≡ some ((n, ops ++ end ∷ []), rest)
unfolding read_body body
read_body-body n ops rest h =
    let b : Bytes = local_vec n ++ (flat (map op ops) ++ 0x0b ∷ []) in
    rw
      (
        append_assoc (uleb (length b)) b rest,
        uleb_read-uleb (length b) (b ++ rest),
        split-append b rest,
        read_function-ops n ops h,
        read_body,
      )
      refl

-- What a reader of the section finds of a function; `end` is the last byte of each body.
abbrev pub as_read : Fn → ℕ × List Instr
as_read f = (f.nlocals, f.code ++ end ∷ [])

abbrev pub FewLocals : List Fn → Type 0
FewLocals [] = Unit
FewLocals (f ∷ fs) = (f.nlocals < 128) × FewLocals fs

read_bodies-bodies :
    (fs : List Fn) (rest : Bytes)
    → FewLocals fs
    → read_bodies (length fs) (flat (map (λ f. body f.nlocals f.code) fs) ++ rest)
      ≡ some (map as_read fs, rest)
unfolding read_bodies
read_bodies-bodies [] rest h = refl
read_bodies-bodies (f ∷ fs) rest h =
    let others : Bytes = flat (map (λ g. body g.nlocals g.code) fs) in
    rw
      (
        append_assoc (body f.nlocals f.code) others rest,
        read_body-body f.nlocals f.code (others ++ rest) h.0,
        read_bodies-bodies fs rest h.1,
        read_bodies,
      )
      refl

-- The code section of any functions with less than 128 locals each is read back, whatever follows it:
-- their locals and their instructions, each with `end` behind it.
pub read_code_section-code_section :
    (fs : List Fn) (rest : Bytes)
    → FewLocals fs
    → read_code_section (code_section fs ++ rest) ≡ some (map as_read fs, rest)
unfolding read_code_section code_section vec
read_code_section-code_section fs rest h =
    let bodies : List Bytes = map (λ f. body f.nlocals f.code) fs in
    rw
      (
        append_assoc (uleb (length bodies)) (flat bodies) rest,
        uleb_read-uleb (length bodies) (flat bodies ++ rest),
        length-map (λ (f : Fn). body f.nlocals f.code) fs,
        read_bodies-bodies fs rest h,
        read_code_section,
      )
      refl
