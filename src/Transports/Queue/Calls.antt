-- ===== src/Transports/Queue/Calls.antt =====
-- What a call of each export of the queue module does (transports/tools/wasmasm.mjs, `fns`).
use Prim.Native.Nat.{bit_and}
use nex_talk_relay.Base.{
  ℕ, zero, suc, ◌+◌, ◌-◌, ◌*◌, ◌/◌, ◌%◌, ◌^◌, ◌≤◌, ◌<◌, ◌≡◌, Bool-cases, inl, inr, lt→ltb, ltb-ge,
  ap, ◌∙◌, some, List, [], ◌∷◌, ltb, if◌then◌else◌, arith,
}
use nex_talk_relay.Transports.Assembler.{Instr, queue_at, out_at, alloc_code, send_code, poll_code}
use nex_talk_relay.Transports.Machine.{
  Memory, memory_size, Instance, exec, call, store, copy, enter, bit,
}
use nex_talk_relay.Transports.Machine.Runs.{frame, exec-store8, exec-memcopy}
use nex_talk_relay.Transports.Machine.Bits.{bit_or_beside, bit_and_eights}

abbrev pub inst_of : ℕ → ℕ → ℕ → Memory → Instance
inst_of run qlen bump m = record { globals = run ∷ qlen ∷ bump ∷ []; memory = m }

abbrev behind : ℕ → List Instr → List Instr
behind zero is = is
behind (suc n) [] = []
behind (suc n) (i ∷ is) = behind n is

-- The code of `ntx_send` behind its two tests, and behind the header of the frame.
abbrev send_tail : List Instr
send_tail = behind 14 send_code

-- The end of the queue behind a frame of `n` bytes, in 32 bits.
abbrev next_end : ℕ → ℕ → ℕ
next_end qlen n = ((qlen + n) % 2 ^ 32 + 4) % 2 ^ 32

send-full :
    (fp n rp rl qlen bump : ℕ) (m : Memory)
    → 0x4000 < next_end qlen n
    → call 1 send_code (fp ∷ n ∷ rp ∷ rl ∷ []) (inst_of 1 qlen bump m)
      ≡ some (3, inst_of 1 qlen bump m)
unfolding call
send-full fp n rp rl qlen bump m h =
    ap
      (λ b.
        exec send_tail (enter (bit b))
          (frame [] (fp ∷ n ∷ rp ∷ rl ∷ 0 ∷ []) (1 ∷ qlen ∷ bump ∷ []) m))
      (lt→ltb _ _ h)

-- The memory with the frame of `n` bytes at `fp` put at `d`, behind its length.
abbrev pub framed : Memory → ℕ → ℕ → ℕ → Memory
framed m d fp n =
    copy
      (store
        (store (store (store m (d + 0) (n / 2 ^ 24 % 256)) (d + 1) (n / 2 ^ 16 % 256)) (d + 2)
          (n / 2 ^ 8 % 256))
        (d + 3) (n % 256))
      ((d + 4) % 2 ^ 32) fp n

send-fits :
    (fp n rp rl qlen bump : ℕ) (m : Memory)
    → next_end qlen n ≤ 0x4000
    → (queue_at + qlen) % 2 ^ 32 + 4 < memory_size
    → ((queue_at + qlen) % 2 ^ 32 + 4) % 2 ^ 32 + n ≤ memory_size
    → fp + n ≤ memory_size
    → call 1 send_code (fp ∷ n ∷ rp ∷ rl ∷ []) (inst_of 1 qlen bump m)
      ≡ some (0, inst_of 1 (next_end qlen n) bump (framed m ((queue_at + qlen) % 2 ^ 32) fp n))
unfolding call
send-fits fp n rp rl qlen bump m small fits room inside =
    let d : ℕ = (queue_at + qlen) % 2 ^ 32 in
    let l : List ℕ = fp ∷ n ∷ rp ∷ rl ∷ d ∷ [] in
    let g : List ℕ = 1 ∷ qlen ∷ bump ∷ [] in
    let m0 : Memory = store m (d + 0) (n / 2 ^ 24 % 256) in
    let m1 : Memory = store m0 (d + 1) (n / 2 ^ 16 % 256) in
    let m2 : Memory = store m1 (d + 2) (n / 2 ^ 8 % 256) in
    let m3 : Memory = store m2 (d + 3) (n % 256) in
    ap
      (λ b.
        exec send_tail (enter (bit b))
          (frame [] (fp ∷ n ∷ rp ∷ rl ∷ 0 ∷ []) (1 ∷ qlen ∷ bump ∷ []) m))
      (ltb-ge _ _ small)
    ∙ exec-store8 0 (n / 2 ^ 24) d [] l g m (behind 26 send_code) (omega arith)
    ∙ exec-store8 1 (n / 2 ^ 16) d [] l g m0 (behind 31 send_code) (omega arith)
    ∙ exec-store8 2 (n / 2 ^ 8) d [] l g m1 (behind 36 send_code) (omega arith)
    ∙ exec-store8 3 n d [] l g m2 (behind 39 send_code) (omega arith)
    ∙ exec-memcopy n fp ((d + 4) % 2 ^ 32) [] l g m3 (behind 45 send_code) inside room

-- Where `ntx_alloc` starts again from the bottom of its heap, and where it goes on.
abbrev pub aligned : ℕ → ℕ → ℕ
aligned p n = bit_and (((p + n) % 2 ^ 32 + 7) % 2 ^ 32) 4294967288

alloc-reset :
    (n run qlen bump : ℕ) (m : Memory)
    → 0x3f00 < (bump + n) % 2 ^ 32
    → call 1 alloc_code (n ∷ []) (inst_of run qlen bump m)
      ≡ some (0x1000, inst_of run qlen (aligned 0x1000 n) m)
unfolding call
alloc-reset n run qlen bump m h =
    ap
      (λ b.
        exec (behind 8 alloc_code) (enter (bit b))
          (frame [] (n ∷ bump ∷ []) (run ∷ qlen ∷ bump ∷ []) m))
      (lt→ltb _ _ h)

alloc-next :
    (n run qlen bump : ℕ) (m : Memory)
    → (bump + n) % 2 ^ 32 ≤ 0x3f00
    → call 1 alloc_code (n ∷ []) (inst_of run qlen bump m)
      ≡ some (bump, inst_of run qlen (aligned bump n) m)
unfolding call
alloc-next n run qlen bump m h =
    ap
      (λ b.
        exec (behind 8 alloc_code) (enter (bit b))
          (frame [] (n ∷ bump ∷ []) (run ∷ qlen ∷ bump ∷ []) m))
      (ltb-ge _ _ h)

-- Where a block of `n` bytes goes.
abbrev pub alloc_at : ℕ → ℕ → ℕ
alloc_at bump n = if ltb 0x3f00 (bump + n) then 0x1000 else bump

-- `x & -8`
abbrev pub up_to_eights : ℕ → ℕ
up_to_eights x = x + 7 - (x + 7) % 8

aligned-up : (p n : ℕ) → p + n < 2 ^ 31 → aligned p n ≡ up_to_eights (p + n)
aligned-up p n h =
    let e : ((p + n) % 2 ^ 32 + 7) % 2 ^ 32 ≡ p + n + 7 = omega arith in
    rw e (bit_and_eights (p + n + 7) (omega arith))

-- A call of `ntx_alloc` at small numbers.
pub alloc_lem :
    (n run qlen bump : ℕ) (m : Memory)
    → bump < 2 ^ 30
    → n < 2 ^ 30
    → call 1 alloc_code (n ∷ []) (inst_of run qlen bump m)
      ≡ some (alloc_at bump n, inst_of run qlen (up_to_eights (alloc_at bump n + n)) m)
alloc_lem n run qlen bump m p q = elim (Bool-cases (ltb 0x3f00 (bump + n))) [
  | inl over ↦
      rw (over, ← aligned-up 0x1000 n (omega arith)) (alloc-reset n run qlen bump m (ground arith))
  | inr fits ↦
      rw (fits, ← aligned-up bump n (omega arith)) (alloc-next n run qlen bump m (ground arith))
]

-- A call of `ntx_poll`: the queue is copied to the output and emptied.
pub poll_lem :
    (a b c run qlen bump : ℕ) (m : Memory)
    → qlen ≤ 0x4000
    → call 0 poll_code (a ∷ b ∷ c ∷ []) (inst_of run qlen bump m)
      ≡ some (0x8000 * 2 ^ 32 + qlen, inst_of run 0 bump (copy m out_at queue_at qlen))
unfolding call
poll_lem a b c run qlen bump m h =
    exec-memcopy qlen queue_at out_at [] (a ∷ b ∷ c ∷ []) (run ∷ qlen ∷ bump ∷ []) m
      (behind 4 poll_code) (omega arith) (omega arith)
    ∙ ap (λ r. some (r, inst_of run 0 bump (copy m out_at queue_at qlen)))
        (bit_or_beside 32 0x8000 qlen (omega arith))

-- A call of `ntx_send` at small numbers: with no room it changes nothing.
pub send-full_lem :
    (fp n rp rl qlen bump : ℕ) (m : Memory)
    → qlen ≤ 0x4000
    → n < 2 ^ 30
    → 0x4000 < qlen + n + 4
    → call 1 send_code (fp ∷ n ∷ rp ∷ rl ∷ []) (inst_of 1 qlen bump m)
      ≡ some (3, inst_of 1 qlen bump m)
send-full_lem fp n rp rl qlen bump m p q h = send-full fp n rp rl qlen bump m (omega arith)

-- With room it puts the frame behind the queue.
pub send-fits_lem :
    (fp n rp rl qlen bump : ℕ) (m : Memory)
    → fp ≤ 0x4000
    → qlen + n + 4 ≤ 0x4000
    → call 1 send_code (fp ∷ n ∷ rp ∷ rl ∷ []) (inst_of 1 qlen bump m)
      ≡ some (0, inst_of 1 (qlen + n + 4) bump (framed m (queue_at + qlen) fp n))
send-fits_lem fp n rp rl qlen bump m p h =
    let e : next_end qlen n ≡ qlen + n + 4 = omega arith in
    let d : (queue_at + qlen) % 2 ^ 32 ≡ queue_at + qlen = omega arith in
    rw (e, d) at
      (send-fits fp n rp rl qlen bump m (omega arith) (omega arith) (omega arith) (omega arith))
