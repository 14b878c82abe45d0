-- ===== src/Transports/Queue.antt =====
-- The queue module that transports/tools/wasmasm.mjs assembles: the queue that its memory holds.
pub mod Calls
pub mod Contents
pub mod Sent
pub mod Polled
pub mod Refines
pub mod Overlap
use nex_talk_relay.Base.{ℕ, ◌+◌, ◌/◌, ◌%◌, ◌^◌, ◌≤◌, ◌<◌, ◌≡◌, List, [], ◌∷◌, ◌++◌, length}
use nex_talk_relay.Encoding.{Bytes}
use nex_talk_relay.Transports.Assembler.{queue_at}
use nex_talk_relay.Transports.Machine.{Memory}
use nex_talk_relay.Transports.Host.{byte_at}

-- The length of a frame in four bytes, the highest first.
abbrev pub be32 : ℕ → Bytes
be32 n = n / 2 ^ 24 % 256 ∷ n / 2 ^ 16 % 256 ∷ n / 2 ^ 8 % 256 ∷ n % 256 ∷ []

-- The frames of a queue in the memory: each behind its length, in the order of the queue.
abbrev pub layout : List Bytes → Bytes
layout [] = []
layout (f ∷ q) = be32 (length f) ++ (f ++ layout q)

-- The module holds the queue `q`; `qlen` and `bump` are its globals.
pub record Contains (q : List Bytes) (qlen bump : ℕ) (m : Memory) : Type 0 where
  pub size : qlen ≡ length (layout q)
  pub room : qlen ≤ 0x4000
  pub bottom : 0x1000 ≤ bump
  pub top : bump ≤ 0x3f00
  pub held : (i : ℕ) → i < qlen → m (queue_at + i) ≡ byte_at (layout q) i

-- No frame is empty.
abbrev pub AllFilled : List Bytes → Type 0
AllFilled [] = Unit
AllFilled (f ∷ q) = (0 < length f) × AllFilled q
