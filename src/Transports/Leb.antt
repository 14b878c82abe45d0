-- ===== src/Transports/Leb.antt =====
-- The variable-length integers of WebAssembly: `uleb` and `sleb` of transports/tools/wasmasm.mjs.
pub mod RoundTrip
use nex_talk_relay.Base.{
  ℕ, zero, suc, ◌+◌, ◌-◌, ◌/◌, ◌%◌, Bool, ◌&&◌, [], ◌∷◌, leb, ltb, ◌==◌, if◌then◌else◌,
}
use nex_talk_relay.Encoding.{Bytes}

-- A BigInt; `negsuc k` is -(k + 1).
pub data ℤ : Type 0 where
  pos : ℕ → ℤ
  negsuc : ℕ → ℤ

-- The rounds of the `do` loop. A group is below 128, so `b |= 0x80` adds 128.
unfoldable pub uleb_loop : ℕ → ℕ → Bytes
uleb_loop zero n = []
uleb_loop (suc rounds) n =
    let rest = uleb_loop rounds (n / 128) in
    if n / 128 == 0 then n % 128 ∷ [] else (n % 128 + 128) ∷ rest

-- `n >>= 7n` makes `n` smaller, so that `n + 1` rounds are enough.
unfoldable pub uleb : ℕ → Bytes
unfolding uleb_loop
uleb n = uleb_loop (suc n) n

-- `Number(n & 0x7fn)` and `n >> 7n`, in two's complement
unfoldable pub low_group : ℤ → ℕ
low_group (pos n) = n % 128
low_group (negsuc k) = 127 - k % 128

unfoldable pub shift_group : ℤ → ℤ
shift_group (pos n) = pos (n / 128)
shift_group (negsuc k) = negsuc (k / 128)

-- `(n === 0n && !sign) || (n === -1n && sign)`, where `sign` is `(b & 0x40) !== 0`
unfoldable pub is_sign_only : ℤ → ℕ → Bool
is_sign_only (pos n) b = n == 0 && ltb b 64
is_sign_only (negsuc k) b = k == 0 && leb 64 b

unfoldable pub sleb_loop : ℕ → ℤ → Bytes
sleb_loop zero v = []
sleb_loop (suc rounds) v =
    let b = low_group v in
    let rest = sleb_loop rounds (shift_group v) in
    if is_sign_only (shift_group v) b then b ∷ [] else (b + 128) ∷ rest

abbrev pub magnitude : ℤ → ℕ
magnitude (pos n) = n
magnitude (negsuc k) = k

unfoldable pub sleb : ℤ → Bytes
unfolding sleb_loop low_group shift_group is_sign_only
sleb v = sleb_loop (suc (magnitude v)) v
