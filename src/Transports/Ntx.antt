-- ===== src/Transports/Ntx.antt =====
-- The packages of extensions (transports/tools/ntx.mjs): the checksum, the zip writer, the manifest's
-- rules and `writeNtx`.
pub mod Xor
pub mod Crc
pub mod Manifest
pub mod Zip
use Prim.Native.Nat.{bit_xor}
use nex_talk_relay.Base.{ℕ, zero, suc, ◌+◌, ◌/◌, ◌%◌, ◌≡◌, List, [], ◌∷◌, ◌==◌, if◌then◌else◌}
use nex_talk_relay.Encoding.{Bytes}

-- `c & 1 ? 0xedb88320 ^ (c >>> 1) : c >>> 1`
unfoldable pub crc_round : ℕ → ℕ
crc_round c = if c % 2 == 1 then bit_xor 0xedb88320 (c / 2) else c / 2

-- The `for` loop over `k`.
abbrev pub crc_rounds : ℕ → ℕ → ℕ
crc_rounds zero c = c
crc_rounds (suc k) c = crc_rounds k (crc_round c)

-- `crcTable[n]`
unfoldable pub crc_table : ℕ → ℕ
unfolding crc_round
crc_table n = crc_rounds 8 n

-- The `for` loop of `crc32`; the bits of a number of 32 bits are those of the number without a sign.
unfoldable pub crc_loop : ℕ → Bytes → ℕ
crc_loop c [] = c
crc_loop c (x ∷ b) = crc_loop (bit_xor (crc_table (bit_xor c x % 256)) (c / 256)) b

unfoldable pub crc32 : Bytes → ℕ
unfolding crc_loop crc_table
crc32 b = bit_xor (crc_loop 0xffffffff b) 0xffffffff
