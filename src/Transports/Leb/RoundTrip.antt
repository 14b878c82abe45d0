-- ===== src/Transports/Leb/RoundTrip.antt =====
-- Reading the integers that `uleb` and `sleb` write (transports/tools/wasmasm.mjs).
use nex_talk_relay.Base.{
  ℕ, zero, suc, ◌+◌, ◌-◌, ◌*◌, ◌/◌, ◌<◌, ◌≡◌, Option, none, some, [], ◌∷◌, ◌++◌, ltb, if◌then◌else◌,
  arith,
}
use nex_talk_relay.Encoding.{Bytes}
use nex_talk_relay.Transports.Leb.{
  ℤ, pos, negsuc, uleb_loop, uleb, low_group, shift_group, is_sign_only, sleb_loop, magnitude, sleb,
}

-- The reader of an unsigned integer: groups of seven bits, the lowest first, up to a byte below 128.
unfoldable pub uleb_read : Bytes → Option (ℕ × Bytes)
uleb_read [] = none
uleb_read (b ∷ bs) =
    if ltb b 128
    then some (b, bs)
    else elim (uleb_read bs) [ none ↦ none | some (n, rest) ↦ some (n * 128 + (b - 128), rest) ]

-- `v * 128 + g`
abbrev above : ℤ → ℕ → ℤ
above (pos n) g = pos (n * 128 + g)
above (negsuc k) g = negsuc (k * 128 + (127 - g))

-- The reader of a signed integer: bit 6 of the last group is the sign.
unfoldable pub sleb_read : Bytes → Option (ℤ × Bytes)
sleb_read [] = none
sleb_read (b ∷ bs) =
    if ltb b 128
    then some (if ltb b 64 then pos b else negsuc (127 - b), bs)
    else elim (sleb_read bs) [ none ↦ none | some (v, rest) ↦ some (above v (b - 128), rest) ]

uleb_loop-read :
    (rounds n : ℕ) (rest : Bytes)
    → n < rounds
    → uleb_read (uleb_loop rounds n ++ rest) ≡ some (n, rest)
unfolding uleb_loop uleb_read
uleb_loop-read zero n rest h = absurd (omega arith)
uleb_loop-read (suc rounds) n rest h = ground (arith, uleb_loop-read rounds (n / 128) rest)

-- Every natural number that is written is read back, whatever follows it.
pub uleb_read-uleb : (n : ℕ) (rest : Bytes) → uleb_read (uleb n ++ rest) ≡ some (n, rest)
unfolding uleb
uleb_read-uleb n rest = uleb_loop-read (suc n) n rest (omega arith)

sleb_loop-read :
    (rounds : ℕ) (v : ℤ) (rest : Bytes)
    → magnitude v < rounds
    → sleb_read (sleb_loop rounds v ++ rest) ≡ some (v, rest)
unfolding sleb_loop sleb_read low_group shift_group is_sign_only
sleb_loop-read zero v rest h = absurd (omega arith)
sleb_loop-read (suc rounds) (pos n) rest h =
    ground (arith, sleb_loop-read rounds (pos (n / 128)) rest)
sleb_loop-read (suc rounds) (negsuc k) rest h =
    ground (arith, sleb_loop-read rounds (negsuc (k / 128)) rest)

-- Every integer that is written, negative or not, is read back, whatever follows it.
pub sleb_read-sleb : (v : ℤ) (rest : Bytes) → sleb_read (sleb v ++ rest) ≡ some (v, rest)
unfolding sleb
sleb_read-sleb v rest = sleb_loop-read (suc (magnitude v)) v rest (omega arith)
