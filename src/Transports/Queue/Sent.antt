-- ===== src/Transports/Queue/Sent.antt =====
-- Sending a frame through the host's memory (transports/tools/verify-wasm.mjs `put`).
use nex_talk_relay.Base.{
  ℕ, ◌+◌, ◌*◌, ◌≤◌, ◌<◌, ◌≡◌, refl, true, ◌⊎◌, ◌∙◌, some, List, [], ◌∷◌, ◌++◌, length, leb, le→leb,
  arith,
}
use nex_talk_relay.Encoding.{Bytes}
use nex_talk_relay.Transports.Assembler.{queue_at}
use nex_talk_relay.Transports.Machine.{Memory, memory_size}
use nex_talk_relay.Transports.Host.{byte_at, write, put, send_frame}
use nex_talk_relay.Transports.Queue.{Contains}
use nex_talk_relay.Transports.Queue.Calls.{
  inst_of, alloc_at, up_to_eights, framed, alloc_lem, send-full_lem, send-fits_lem,
}
use nex_talk_relay.Transports.Queue.Contents.{
  write-Contains, framed-Contains, write-inside, write-apart,
}

-- A block of at most 0x2f00 bytes lies in the heap, below the queue.
pub alloc_at_bounds :
    (bump n : ℕ)
    → 0x1000 ≤ bump
    → bump ≤ 0x3f00
    → n ≤ 0x2f00
    → (0x1000 ≤ alloc_at bump n)
      × (alloc_at bump n + n ≤ 0x3f00)
      × (0x1000 ≤ up_to_eights (alloc_at bump n + n))
      × (up_to_eights (alloc_at bump n + n) ≤ 0x3f00)
alloc_at_bounds bump n p q h = ground arith

pub put_lem :
    (d : Bytes) (run qlen bump : ℕ) (m : Memory)
    → 0x1000 ≤ bump
    → bump ≤ 0x3f00
    → length d ≤ 0x2f00
    → put d (inst_of run qlen bump m)
      ≡ some (
        alloc_at bump (length d),
        inst_of run qlen
            (up_to_eights (alloc_at bump (length d) + length d))
            (write m (alloc_at bump (length d)) d),
      )
unfolding put
put_lem d run qlen bump m p q h =
    let (_, high, _, _) = alloc_at_bounds bump (length d) p q h in
    let inside : leb (alloc_at bump (length d) + length d) memory_size ≡ true =
      le→leb _ _ (omega (arith, high)) in
    rw (alloc_lem (length d) run qlen bump m (omega arith) (omega arith), put, inside) refl

-- Where the two blocks of a send lie: with this room the recipient does not touch the frame.
blocks_apart :
    (bump n l i : ℕ)
    → 0x1000 ≤ bump
    → bump ≤ 0x3f00
    → n + 7 + 2 * l ≤ 0x2f00
    → i < n
    → (alloc_at (up_to_eights (alloc_at bump n + n)) l + l ≤ alloc_at bump n + i)
      ⊎ (alloc_at bump n + i < alloc_at (up_to_eights (alloc_at bump n + n)) l)
blocks_apart bump n l i p q fits h = ground arith

module _ (f recipient : Bytes) (fits : length f + 7 + 2 * length recipient ≤ 0x2f00)
    {q : List Bytes} {qlen bump : ℕ} {m : Memory} (c : Contains q qlen bump m) where
  abbrev n : ℕ
  n = length f

  abbrev fp : ℕ
  fp = alloc_at bump n

  abbrev bump1 : ℕ
  bump1 = up_to_eights (fp + n)

  abbrev m1 : Memory
  m1 = write m fp f

  abbrev rp : ℕ
  rp = alloc_at bump1 (length recipient)

  abbrev pub sent_bump : ℕ
  sent_bump = up_to_eights (rp + length recipient)

  abbrev pub sent_memory : Memory
  sent_memory = write m1 rp recipient

  both_put :
      (Contains q qlen sent_bump sent_memory)
      × (fp + n ≤ queue_at)
      × ((i : ℕ) → i < n → sent_memory (fp + i) ≡ byte_at f i)
      × (0x1000 ≤ bump1)
      × (bump1 ≤ 0x3f00)
  both_put =
      let (low, high, next_low, next_high) = alloc_at_bounds bump n c.bottom c.top (omega arith) in
      let (low', high', next_low', next_high') =
        alloc_at_bounds bump1 (length recipient) next_low next_high (omega arith) in
      let c1 : Contains q qlen bump1 m1 =
        write-Contains fp bump1 f c (omega arith) next_low next_high in
      (
        write-Contains rp sent_bump recipient c1 (omega arith) next_low' next_high',
        omega arith,
        λ i h.
            write-apart m1 rp recipient (fp + i)
              (blocks_apart bump n (length recipient) i c.bottom c.top fits h)
            ∙ write-inside m fp f i h,
        next_low,
        next_high,
      )

  -- The two blocks leave the queue alone.
  pub put_both : Contains q qlen sent_bump sent_memory
  put_both = both_put.0

  -- With no room for it the frame is refused, and the queue stays.
  pub send_frame-full :
      0x4000 < qlen + length f + 4
      → send_frame f recipient (inst_of 1 qlen bump m)
        ≡ some (3, inst_of 1 qlen sent_bump sent_memory)
  unfolding send_frame
  send_frame-full over =
      let (after, below, there, low, high) = both_put in
      rw
        (
          put_lem f 1 qlen bump m c.bottom c.top (omega arith),
          put_lem recipient 1 qlen bump1 m1 low high (omega arith),
          send-full_lem fp n rp (length recipient) qlen sent_bump sent_memory c.room (omega arith)
              over,
          send_frame,
        )
        refl

  -- With room for it the frame is put at the end of the queue.
  pub send_frame-fits :
      qlen + length f + 4 ≤ 0x4000
      → (send_frame f recipient (inst_of 1 qlen bump m)
          ≡ some (
            0,
            inst_of 1
                (qlen + length f + 4)
                sent_bump
                (framed sent_memory (queue_at + qlen) fp (length f)),
          ))
        × Contains
            (q ++ f ∷ [])
            (qlen + length f + 4)
            sent_bump
            (framed sent_memory (queue_at + qlen) fp (length f))
  unfolding send_frame
  send_frame-fits room =
      let (after, below, there, low, high) = both_put in
      (
        rw
            (
              put_lem f 1 qlen bump m c.bottom c.top (omega arith),
              put_lem recipient 1 qlen bump1 m1 low high (omega arith),
              send-fits_lem fp n rp (length recipient) qlen sent_bump sent_memory (omega arith)
                  room,
              send_frame,
            )
            refl,
        framed-Contains fp f after there below room,
      )
