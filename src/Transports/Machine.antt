-- ===== src/Transports/Machine.antt =====
-- What WebAssembly does with the instructions of the assembler (transports/tools/wasmasm.mjs): a run of
-- one function of the queue module on an instance of it.
pub mod Bits
pub mod Runs
use Prim.Native.Nat.{bit_and, bit_or}
use nex_talk_relay.Base.{
  ℕ, zero, suc, ◌+◌, ◌-◌, ◌*◌, ◌/◌, ◌%◌, ◌^◌, Bool, true, false, ◌&&◌, Option, none, some, List, [],
  ◌∷◌, ◌++◌, get_elem?, leb, ltb, ◌==◌, if◌then◌else◌,
}
use nex_talk_relay.Encoding.{Bytes}
use nex_talk_relay.Transports.Leb.{ℤ, pos, negsuc}
use nex_talk_relay.Transports.Assembler.{
  Instr, i32c, i64c, get, set, gget, gset, add, sub, and, shru, gtu, eqz, store8, ifv, end, ret,
  ext, shl64, or64, memcopy,
}

-- The bytes at the addresses of the linear memory.
abbrev pub Memory : Type 0
Memory = ℕ → ℕ

-- Two pages.
abbrev pub memory_size : ℕ
memory_size = 2 * 65536

pub record Instance : Type 0 where
  pub globals : List ℕ
  pub memory : Memory

pub record Frame : Type 0 where
  pub stack : List ℕ
  pub locals : List ℕ
  pub inst : Instance

-- A value of `w` bits, in two's complement.
abbrev pub wrap : ℕ → ℤ → ℕ
wrap w (pos n) = n % 2 ^ w
wrap w (negsuc k) = 2 ^ w - 1 - k % 2 ^ w

abbrev pub bit : Bool → ℕ
bit true = 1
bit false = 0

abbrev pub put_at : List ℕ → ℕ → ℕ → List ℕ
put_at [] i v = []
put_at (x ∷ xs) zero v = v ∷ xs
put_at (x ∷ xs) (suc i) v = x ∷ put_at xs i v

abbrev pub store : Memory → ℕ → ℕ → Memory
store m at v a = if a == at then v else m a

-- `memory.copy` reads all bytes before it writes.
abbrev pub copy : Memory → ℕ → ℕ → ℕ → Memory
copy m dst src n a = if leb dst a && ltb a (dst + n) then m (a - dst + src) else m a

-- `ret` ends the function; the code behind an `if` that is not taken is passed over, `skipping`
-- as many further blocks as it opens.
pub data Mode : Type 0 where
  running returned : Mode
  skipping : ℕ → Mode

abbrev push : ℕ → Frame → Option (Mode × Frame)
push v f = some (running, record f { stack = v ∷ f.stack })

abbrev push_elem : Option ℕ → Frame → Option (Mode × Frame)
push_elem none f = none
push_elem (some v) f = push v f

abbrev popped : Frame → List ℕ → Option (Mode × Frame)
popped f s = some (running, record f { stack = s })

abbrev unary : (ℕ → ℕ) → Frame → Option (Mode × Frame)
unary g f = elim f.stack [ [] ↦ none | a ∷ s ↦ popped f (g a ∷ s) ]

abbrev binary : (ℕ → ℕ → ℕ) → Frame → Option (Mode × Frame)
binary g f = elim f.stack [
  | [] ↦ none
  | b ∷ r ↦ elim r [ [] ↦ none | a ∷ s ↦ popped f (g a b ∷ s) ]
]

abbrev set_local : ℕ → Frame → Option (Mode × Frame)
set_local i f = elim f.stack [
  | [] ↦ none
  | v ∷ s ↦ some (running, record f { stack = s; locals = put_at f.locals i v })
]

abbrev set_global : ℕ → Frame → Option (Mode × Frame)
set_global i f = elim f.stack [
  | [] ↦ none
  | v ∷ s ↦ some (
    running,
    record f { stack = s; inst = record f.inst { globals = put_at f.inst.globals i v } },
  )
]

abbrev with_memory : Frame → List ℕ → Memory → Option (Mode × Frame)
with_memory f s m = some (running, record f { stack = s; inst = record f.inst { memory = m } })

-- `none` is a trap: an address is out of bounds.
store_byte : ℕ → List ℕ → Frame → Option (Mode × Frame)
store_byte off (v ∷ a ∷ s) f =
    if ltb (a + off) memory_size
    then with_memory f s (store f.inst.memory (a + off) (v % 256))
    else none
store_byte off _ f = none

copy_bytes : List ℕ → Frame → Option (Mode × Frame)
copy_bytes (n ∷ src ∷ dst ∷ s) f =
    if leb (src + n) memory_size && leb (dst + n) memory_size
    then with_memory f s (copy f.inst.memory dst src n)
    else none
copy_bytes _ f = none

abbrev pub enter : ℕ → Mode
enter c = if c == 0 then skipping 0 else running

step : Instr → Frame → Option (Mode × Frame)
unfolding store_byte copy_bytes
step (i32c v) f = push (wrap 32 v) f
step (i64c v) f = push (wrap 64 v) f
step (get i) f = push_elem (get_elem? f.locals i) f
step (set i) f = set_local i f
step (gget i) f = push_elem (get_elem? f.inst.globals i) f
step (gset i) f = set_global i f
step add f = binary (λ a b. (a + b) % 2 ^ 32) f
step sub f = binary (λ a b. (a + 2 ^ 32 - b) % 2 ^ 32) f
step and f = binary bit_and f
step shru f = binary (λ a b. a / 2 ^ (b % 32)) f
step gtu f = binary (λ a b. bit (ltb b a)) f
step eqz f = unary (λ a. bit (a == 0)) f
step (store8 off) f = store_byte off f.stack f
step ifv f = elim f.stack [ [] ↦ none | c ∷ s ↦ some (enter c, record f { stack = s }) ]
step end f = some (running, f)
step ret f = some (returned, f)
step ext f = some (running, f)
step shl64 f = binary (λ a b. a * 2 ^ (b % 64) % 2 ^ 64) f
step or64 f = binary bit_or f
step memcopy f = copy_bytes f.stack f

abbrev pass : Instr → ℕ → Mode
pass ifv d = skipping (suc d)
pass end zero = running
pass end (suc d) = skipping d
pass _ d = skipping d

unfoldable pub exec : List Instr → Mode → Frame → Option (ℕ × Instance)
unfolding step
exec [] mode f = elim f.stack [ [] ↦ none | v ∷ s ↦ some (v, f.inst) ]
exec (i ∷ is) returned f = exec is returned f
exec (i ∷ is) (skipping d) f = exec is (pass i d) f
exec (i ∷ is) running f = elim (step i f) [ none ↦ none | some (mode, f') ↦ exec is mode f' ]

abbrev pub zeros : ℕ → List ℕ
zeros zero = []
zeros (suc n) = 0 ∷ zeros n

-- A call of a function with these locals of its own: its result and the instance afterwards.
unfoldable pub call : ℕ → List Instr → List ℕ → Instance → Option (ℕ × Instance)
unfolding exec
call nlocals code params inst =
    exec code running (record { stack = []; locals = params ++ zeros nlocals; inst = inst })
