-- ===== src/Transports/Assembler.antt =====
-- The assembler and the queue module that it writes (transports/tools/wasmasm.mjs).
pub mod Decode
use Prim.Native.Nat.{bit_or}
use nex_talk_relay.Base.{
  Text, codes, ℕ, zero, suc, ◌+◌, ◌*◌, ◌^◌, Option, none, some, List, [], ◌∷◌, ◌++◌, map, length,
  ltb, if◌then◌else◌,
}
use nex_talk_relay.Encoding.{Bytes, utf8}
use nex_talk_relay.Transports.Leb.{ℤ, pos, negsuc, uleb, sleb}

-- The instructions that `op` has a code for.
pub data Instr : Type 0 where
  i32c i64c : ℤ → Instr
  get set gget gset : ℕ → Instr
  add sub and shru gtu : Instr
  eqz : Instr
  store8 : ℕ → Instr
  ifv end ret : Instr
  ext shl64 or64 : Instr
  memcopy : Instr

-- `op`, and the `[0x45]` of `ntx_send`
unfoldable pub op : Instr → Bytes
op (i32c v) = 0x41 ∷ sleb v
op (i64c v) = 0x42 ∷ sleb v
op (get i) = 0x20 ∷ uleb i
op (set i) = 0x21 ∷ uleb i
op (gget i) = 0x23 ∷ uleb i
op (gset i) = 0x24 ∷ uleb i
op add = 0x6a ∷ []
op sub = 0x6b ∷ []
op and = 0x71 ∷ []
op shru = 0x76 ∷ []
op gtu = 0x4b ∷ []
op eqz = 0x45 ∷ []
op (store8 off) = 0x3a ∷ 0x00 ∷ uleb off
op ifv = 0x04 ∷ 0x40 ∷ []
op end = 0x0b ∷ []
op ret = 0x0f ∷ []
op ext = 0xad ∷ []
op shl64 = 0x86 ∷ []
op or64 = 0x84 ∷ []
op memcopy = 0xfc ∷ 0x0a ∷ 0x00 ∷ 0x00 ∷ []

-- `Array.prototype.flat`
abbrev pub flat : List Bytes → Bytes
flat [] = []
flat (bs ∷ bss) = bs ++ flat bss

unfoldable pub vec : List Bytes → Bytes
vec items = uleb (length items) ++ flat items

unfoldable pub sec : ℕ → Bytes → Bytes
sec id body = id ∷ (uleb (length body) ++ body)

-- `str` at a text of ASCII characters
unfoldable pub str : Text → Bytes
str s = uleb (length s) ++ utf8 s

abbrev pub i32 : ℕ
i32 = 0x7f

abbrev pub i64 : ℕ
i64 = 0x7e

-- The declaration of the locals, in front of the instructions.
unfoldable pub local_vec : ℕ → Bytes
local_vec zero = 0 ∷ []
local_vec (suc n) = vec ((suc n ∷ i32 ∷ []) ∷ [])

unfoldable pub body : ℕ → List Instr → Bytes
body nlocals ops =
    let b = local_vec nlocals ++ (flat (map op ops) ++ 0x0b ∷ []) in uleb (length b) ++ b

-- The addresses of the queue and of the output of `ntx_poll`.
abbrev pub queue_at : ℕ
queue_at = 0x4000

abbrev pub out_at : ℕ
out_at = 0x8000

-- An entry of `fns`: the index of the type, the name of the export, the locals and the instructions.
pub record Fn : Type 0 where
  pub type_index : ℕ
  pub name : Text
  pub nlocals : ℕ
  pub code : List Instr

abbrev pub fn_of : ℕ → Text → ℕ → List Instr → Fn
fn_of t name n code = record { type_index = t; name = name; nlocals = n; code = code }

-- What several functions do: `i32.const 0` alone.
abbrev pub zero_code : List Instr
zero_code = i32c (pos 0) ∷ []

abbrev pub start_code : List Instr
start_code = i32c (pos 1) ∷ gset 0 ∷ i32c (pos 0) ∷ []

abbrev pub stop_code : List Instr
stop_code = i32c (pos 0) ∷ gset 0 ∷ i32c (pos 0) ∷ []

abbrev pub status_code : List Instr
status_code = gget 0 ∷ []

-- `ntx_caps` at a capability text of this many bytes
abbrev pub caps_code : ℕ → List Instr
caps_code n = i64c (pos (bit_or (0x100 * 2 ^ 32) n)) ∷ []

abbrev pub alloc_code : List Instr
alloc_code =
    gget 2
    ∷ set 1
    ∷ get 1
    ∷ get 0
    ∷ add
    ∷ i32c (pos 0x3f00)
    ∷ gtu
    ∷ ifv
    ∷ i32c (pos 0x1000)
    ∷ set 1
    ∷ end
    ∷ get 1
    ∷ get 0
    ∷ add
    ∷ i32c (pos 7)
    ∷ add
    ∷ i32c (negsuc 7)
    ∷ and
    ∷ gset 2
    ∷ get 1
    ∷ []

-- Parameters 0 to 3 are the frame, its length, the recipient and its length; local 4 is `dst`.
abbrev pub send_code : List Instr
send_code =
    gget 0
    ∷ eqz
    ∷ ifv
    ∷ i32c (pos 1)
    ∷ ret
    ∷ end
    ∷ gget 1
    ∷ get 1
    ∷ add
    ∷ i32c (pos 4)
    ∷ add
    ∷ i32c (pos 0x4000)
    ∷ gtu
    ∷ ifv
    ∷ i32c (pos 3)
    ∷ ret
    ∷ end
    ∷ i32c (pos queue_at)
    ∷ gget 1
    ∷ add
    ∷ set 4
    ∷ get 4
    ∷ get 1
    ∷ i32c (pos 24)
    ∷ shru
    ∷ store8 0
    ∷ get 4
    ∷ get 1
    ∷ i32c (pos 16)
    ∷ shru
    ∷ store8 1
    ∷ get 4
    ∷ get 1
    ∷ i32c (pos 8)
    ∷ shru
    ∷ store8 2
    ∷ get 4
    ∷ get 1
    ∷ store8 3
    ∷ get 4
    ∷ i32c (pos 4)
    ∷ add
    ∷ get 0
    ∷ get 1
    ∷ memcopy
    ∷ gget 1
    ∷ get 1
    ∷ add
    ∷ i32c (pos 4)
    ∷ add
    ∷ gset 1
    ∷ i32c (pos 0)
    ∷ []

abbrev pub poll_code : List Instr
poll_code =
    i32c (pos out_at)
    ∷ i32c (pos queue_at)
    ∷ gget 1
    ∷ memcopy
    ∷ i32c (pos out_at)
    ∷ ext
    ∷ i64c (pos 32)
    ∷ shl64
    ∷ gget 1
    ∷ ext
    ∷ or64
    ∷ i32c (pos 0)
    ∷ gset 1
    ∷ []

-- `fns`, at a capability text of `n` bytes
unfoldable pub fns : ℕ → List Fn
unfolding codes
fns n =
    fn_of 1 (codes "ntx_init") 0 zero_code
    ∷ fn_of 2 (codes "ntx_caps") 0 (caps_code n)
    ∷ fn_of 0 (codes "ntx_start") 0 start_code
    ∷ fn_of 0 (codes "ntx_stop") 0 stop_code
    ∷ fn_of 0 (codes "ntx_status") 0 status_code
    ∷ fn_of 5 (codes "ntx_alloc") 1 alloc_code
    ∷ fn_of 3 (codes "ntx_send") 1 send_code
    ∷ fn_of 4 (codes "ntx_attach") 0 zero_code
    ∷ fn_of 5 (codes "ntx_detach") 0 zero_code
    ∷ fn_of 6 (codes "ntx_poll") 0 poll_code
    ∷ []

-- A function type with `n` parameters of 32 bits.
abbrev pub fn_type : ℕ → ℕ → Bytes
unfolding vec
fn_type n result = 0x60 ∷ (vec (times n) ++ vec ((result ∷ []) ∷ []))
  where
    times : ℕ → List Bytes
    times zero = []
    times (suc k) = (i32 ∷ []) ∷ times k

unfoldable pub types : List Bytes
types =
    fn_type 0 i32
    ∷ fn_type 2 i32
    ∷ fn_type 0 i64
    ∷ fn_type 4 i32
    ∷ fn_type 6 i32
    ∷ fn_type 1 i32
    ∷ fn_type 3 i64
    ∷ []

abbrev exports_from : ℕ → List Fn → List Bytes
exports_from i [] = (str (codes "memory") ++ 0x02 ∷ 0x00 ∷ []) ∷ []
exports_from i (f ∷ fs) = (str f.name ++ 0x00 ∷ uleb i) ∷ exports_from (i + 1) fs

abbrev global : ℕ → Bytes
global v = i32 ∷ 0x01 ∷ (op (i32c (pos v)) ++ 0x0b ∷ [])

-- The code section, which holds the bodies of all functions.
unfoldable pub code_section : List Fn → Bytes
code_section fs = vec (map (λ f. body f.nlocals f.code) fs)

-- `buildQueueModule`; `none` is the exception on a long text.
unfoldable pub build_queue_module : Text → Option Bytes
unfolding fns types
build_queue_module caps_csv =
    let caps = utf8 caps_csv in
    let fs = fns (length caps) in
    if ltb 32 (length caps)
    then none
    else some (
        0x00
        ∷ 0x61
        ∷ 0x73
        ∷ 0x6d
        ∷ 0x01
        ∷ 0x00
        ∷ 0x00
        ∷ 0x00
        ∷ (sec 1 (vec types)
            ++ (sec 3 (vec (map (λ f. uleb f.type_index) fs))
                ++ (sec 5 (vec ((0x00 ∷ 0x02 ∷ []) ∷ []))
                    ++ (sec 6 (vec (global 0 ∷ global 0 ∷ global 0x1000 ∷ []))
                        ++ (sec 7 (vec (exports_from 0 fs))
                            ++ (sec 10 (code_section fs)
                                ++ sec 11 (
                                    vec (
                                      (0x00
                                        ∷ (op (i32c (pos 0x100))
                                            ++ 0x0b ∷ (uleb (length caps) ++ caps)))
                                      ∷ [])))))))))
