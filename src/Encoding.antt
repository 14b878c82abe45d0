-- ===== src/Encoding.antt =====
-- The encoding helpers that shard/worker.js, router/router.js and combined/worker.js share: bytes,
-- hexadecimal texts and UTF-8, and the comparison of secrets (shard/worker.js, `constantTimeEqual`).
pub mod RoundTrip
pub mod Secrets
use Prim.Native.Nat.{max, bit_or, bit_xor}
use nex_talk_relay.Base.{
  Text, lower_char, ℕ, zero, suc, ◌+◌, ◌-◌, ◌*◌, ◌/◌, ◌%◌, Bool, ◌&&◌, ◌||◌, Option, none, some,
  List, [], ◌∷◌, ◌++◌, length, leb, ltb, ◌==◌, if◌then◌else◌,
}
use nex_talk_relay.Js.Regex.{is_hex_digit, is_space}

-- A byte is a number below 256.
abbrev pub Bytes : Type 0
Bytes = List ℕ

-- One digit of `toString(16)`.
unfoldable pub hex_char : ℕ → ℕ
hex_char d = if ltb d 10 then 48 + d else 87 + d

-- `b.toString(16).padStart(2, "0")`, joined
unfoldable pub bytes_to_hex : Bytes → Text
bytes_to_hex [] = []
bytes_to_hex (b ∷ bs) = hex_char (b / 16) ∷ hex_char (b % 16) ∷ bytes_to_hex bs

unfoldable pub hex_value : ℕ → ℕ
hex_value c = if leb c b'9' then c - 48 else lower_char c - 87

-- `parseInt(cd, 16)` of two characters, stored in a byte: NaN becomes 0, and a sign or a space may
-- stand in front of the one digit.
unfoldable pub parse_pair : ℕ → ℕ → ℕ
parse_pair c d =
    if is_hex_digit c
    then (if is_hex_digit d then hex_value c * 16 + hex_value d else hex_value c)
    else if is_hex_digit d
    then (if is_space c || c == b'+'
        then hex_value d
        else if c == b'-'
        then (256 - hex_value d) % 256
        else 0)
    else 0

-- `hexToBytes` of the shard; `none` is the exception on an odd length.
unfoldable pub hex_to_bytes : Text → Option Bytes
hex_to_bytes [] = some []
hex_to_bytes (c ∷ []) = none
hex_to_bytes (c ∷ d ∷ t) = elim (hex_to_bytes t) [
  | none ↦ none
  | some bs ↦ some (parse_pair c d ∷ bs)
]

-- `hexToBytes` of the router, which leaves an odd last character out.
unfoldable pub hex_to_bytes_floor : Text → Bytes
hex_to_bytes_floor [] = []
hex_to_bytes_floor (c ∷ []) = []
hex_to_bytes_floor (c ∷ d ∷ t) = parse_pair c d ∷ hex_to_bytes_floor t

-- A surrogate that has no partner, for which `TextEncoder.encode` writes U+FFFD.
abbrev pub is_surrogate : ℕ → Bool
is_surrogate c = leb 0xd800 c && leb c 0xdfff

-- `TextEncoder.encode` of one code point.
abbrev pub utf8_char : ℕ → Bytes
utf8_char c =
    if ltb c 128
    then c ∷ []
    else if ltb c 2048
    then (192 + c / 64) ∷ (128 + c % 64) ∷ []
    else if is_surrogate c
    then 0xef ∷ 0xbf ∷ 0xbd ∷ []
    else if ltb c 65536
    then (224 + c / 4096) ∷ (128 + c / 64 % 64) ∷ (128 + c % 64) ∷ []
    else (240 + c / 262144) ∷ (128 + c / 4096 % 64) ∷ (128 + c / 64 % 64) ∷ (128 + c % 64) ∷ []

unfoldable pub utf8 : Text → Bytes
utf8 [] = []
utf8 (c ∷ t) = utf8_char c ++ utf8 t

-- A `Uint8Array` of `len` bytes with `bs` set at its start.
abbrev pub padded : ℕ → Bytes → Bytes
padded zero bs = []
padded (suc len) [] = 0 ∷ padded len []
padded (suc len) (b ∷ bs) = b ∷ padded len bs

-- The loop `diff |= aPad[i] ^ bPad[i]`.
unfoldable pub diff_loop : ℕ → Bytes → Bytes → ℕ
diff_loop diff (a ∷ as') (b ∷ bs) = diff_loop (bit_or diff (bit_xor a b)) as' bs
diff_loop diff _ _ = diff

unfoldable pub constant_time_equal_bytes : Bytes → Bytes → Bool
unfolding diff_loop
constant_time_equal_bytes a b =
    let len = max (max (length a) (length b)) 32 in
    diff_loop (bit_xor (length a) (length b)) (padded len a) (padded len b) == 0

unfoldable pub constant_time_equal : Text → Text → Bool
constant_time_equal a b = constant_time_equal_bytes (utf8 a) (utf8 b)
