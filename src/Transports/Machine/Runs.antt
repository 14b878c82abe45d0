-- ===== src/Transports/Machine/Runs.antt =====
-- The steps of a run that test an address (transports/tools/wasmasm.mjs): where it is in bounds.
use nex_talk_relay.Base.{ℕ, ◌+◌, ◌%◌, ◌≤◌, ◌<◌, ◌≡◌, refl, lt→ltb, le→leb, some, List, ◌∷◌}
use nex_talk_relay.Transports.Assembler.{Instr, store8, memcopy}
use nex_talk_relay.Transports.Machine.{
  Memory, memory_size, Frame, running, exec, step, store_byte, copy_bytes, store, copy,
}

abbrev pub frame : List ℕ → List ℕ → List ℕ → Memory → Frame
frame s l g m = record { stack = s; locals = l; inst = record { globals = g; memory = m } }

-- One step of a run, for the steps that test an address.
exec-step :
    (i : Instr) (is : List Instr) (f g : Frame)
    → step i f ≡ some (running, g)
    → exec (i ∷ is) running f ≡ exec is running g
unfolding exec
exec-step i is f g h = rw (h, exec) refl

pub exec-store8 :
    (off v a : ℕ) (s l g : List ℕ) (m : Memory) (is : List Instr)
    → a + off < memory_size
    → exec (store8 off ∷ is) running (frame (v ∷ a ∷ s) l g m)
      ≡ exec is running (frame s l g (store m (a + off) (v % 256)))
unfolding step store_byte
exec-store8 off v a s l g m is h =
    exec-step (store8 off) is _ _ (rw (lt→ltb _ _ h, store_byte) refl)

pub exec-memcopy :
    (n src dst : ℕ) (s l g : List ℕ) (m : Memory) (is : List Instr)
    → src + n ≤ memory_size
    → dst + n ≤ memory_size
    → exec (memcopy ∷ is) running (frame (n ∷ src ∷ dst ∷ s) l g m)
      ≡ exec is running (frame s l g (copy m dst src n))
unfolding step copy_bytes
exec-memcopy n src dst s l g m is p q =
    exec-step memcopy is _ _ (rw (le→leb _ _ p, le→leb _ _ q, copy_bytes) refl)
