-- ===== src/Transports/Host.antt =====
-- How a host uses a transport module (transports/tools/verify-wasm.mjs, the helpers `put`, `blob` and
-- `frames` of `verifyWasm`).
use Prim.Native.Nat.{min}
use nex_talk_relay.Base.{
  Text, codes, ℕ, zero, suc, ◌+◌, ◌-◌, ◌*◌, ◌/◌, ◌%◌, ◌^◌, ◌&&◌, Option, none, some, List, [], ◌∷◌,
  length, leb, ltb, if◌then◌else◌,
}
use nex_talk_relay.Encoding.{Bytes}
use nex_talk_relay.Transports.Assembler.{alloc_code, send_code, poll_code}
use nex_talk_relay.Transports.Machine.{Memory, memory_size, Instance, call}

abbrev pub byte_at : Bytes → ℕ → ℕ
byte_at [] i = 0
byte_at (b ∷ bs) zero = b
byte_at (b ∷ bs) (suc i) = byte_at bs i

-- `new Uint8Array(mem.buffer).set(d, p)`, within the buffer
abbrev pub write : Memory → ℕ → Bytes → Memory
write m p d a = if leb p a && ltb a (p + length d) then byte_at d (a - p) else m a

-- `put`, at a module that exports `ntx_alloc`; `none` is a trap or the RangeError of `set`.
unfoldable pub put : Bytes → Instance → Option (ℕ × Instance)
put d inst = elim (call 1 alloc_code (length d ∷ []) inst) [
  | none ↦ none
  | some (p, inst') ↦
      if leb (p + length d) memory_size
      then some (p, record inst' { memory = write inst'.memory p d })
      else none
]

abbrev pub bytes_at : Memory → ℕ → ℕ → Bytes
bytes_at m p zero = []
bytes_at m p (suc n) = m p ∷ bytes_at m (p + 1) n

-- `blob`: the address and the length are the halves of a number of 64 bits; `slice` ends with the
-- buffer.
unfoldable pub blob : ℕ → Memory → Bytes
blob packed m =
    let p = packed / 2 ^ 32 in let l = packed % 2 ^ 32 in bytes_at m p (min l (memory_size - p))

abbrev pub max_frame : ℕ
max_frame = 40 * 1024

-- The next `n` bytes, or as many as there are, and the rest.
abbrev pub take_bytes : ℕ → Bytes → Bytes
take_bytes zero bs = []
take_bytes (suc n) [] = []
take_bytes (suc n) (b ∷ bs) = b ∷ take_bytes n bs

abbrev pub drop_bytes : ℕ → Bytes → Bytes
drop_bytes zero bs = bs
drop_bytes (suc n) [] = []
drop_bytes (suc n) (b ∷ bs) = drop_bytes n bs

-- The frames, and the failures that `ok` notes.
abbrev pub Frames : Type 0
Frames = List Bytes × List Text

abbrev pub cons_frame : Bytes → Frames → Frames
cons_frame f (fs, fails) = (f ∷ fs, fails)

-- The four bytes of a length as a number: `(b[i] << 24 | …) >>> 0`, at bytes.
abbrev pub be32_value : ℕ → ℕ → ℕ → ℕ → ℕ
be32_value b0 b1 b2 b3 = b0 * 2 ^ 24 + (b1 * 2 ^ 16 + (b2 * 2 ^ 8 + b3))

-- The `while` loop of `frames` at the bytes from `i` on.
unfoldable pub frames_loop : ℕ → Bytes → Frames
unfolding codes
frames_loop rounds [] = ([], [])
frames_loop zero (b ∷ bs) = ([], [])
frames_loop (suc rounds) (b0 ∷ b1 ∷ b2 ∷ b3 ∷ bs) =
    let n = be32_value b0 b1 b2 b3 in
    let rest = cons_frame (take_bytes n bs) (frames_loop rounds (drop_bytes n bs)) in
    if ltb 0 n && (leb n max_frame && leb n (length bs))
    then rest
    else ([], codes "poll frame out of bounds" ∷ [])
frames_loop (suc rounds) _ = ([], codes "poll blob truncated" ∷ [])

-- Each round takes four bytes at least.
unfoldable pub frames : Bytes → Frames
unfolding frames_loop
frames b = frames_loop (length b) b

-- A host that sends a frame: both arguments are put into the memory, then `ntx_send` is called.
unfoldable pub send_frame : Bytes → Bytes → Instance → Option (ℕ × Instance)
send_frame frame recipient inst = elim (put frame inst) [
  | none ↦ none
  | some (fp, inst') ↦ elim (put recipient inst') [
    | none ↦ none
    | some (rp, inst'') ↦ call 1 send_code (fp ∷ length frame ∷ rp ∷ length recipient ∷ []) inst''
  ]
]

-- A host that polls for the frames of a mailbox: `frames(blob(ex.ntx_poll(10, m, 1)))`.
unfoldable pub poll_frames : Bytes → Instance → Option (Frames × Instance)
unfolding frames blob
poll_frames mailbox inst = elim (put mailbox inst) [
  | none ↦ none
  | some (m, inst') ↦ elim (call 0 poll_code (10 ∷ m ∷ 1 ∷ []) inst') [
    | none ↦ none
    | some (packed, inst'') ↦ some (frames (blob packed inst''.memory), inst'')
  ]
]
