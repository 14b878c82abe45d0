-- ===== src/Encoding/RoundTrip.antt =====
-- Hexadecimal texts and bytes convert back and forth: `bytesToHex` and both versions of
-- `hexToBytes`.
use nex_talk_relay.Base.{
  Text, lower_char, to_lower, ℕ, ◌+◌, ◌*◌, ◌/◌, ◌%◌, ◌<◌, ◌≡◌, refl, true, Option-cases, inl, inr,
  none, some, [], ◌∷◌, all, length, arith,
}
use nex_talk_relay.Js.Regex.{is_hex_digit}
use nex_talk_relay.Encoding.{
  Bytes, hex_char, bytes_to_hex, hex_value, parse_pair, hex_to_bytes, hex_to_bytes_floor,
}

abbrev pub AllBytes : Bytes → Type 0
AllBytes [] = Unit
AllBytes (b ∷ bs) = (b < 256) × AllBytes bs

hex_char-digit :
    (d : ℕ)
    → d < 16
    → (is_hex_digit (hex_char d) ≡ true)
      × (hex_value (hex_char d) ≡ d)
      × (lower_char (hex_char d) ≡ hex_char d)
unfolding hex_char hex_value is_hex_digit
hex_char-digit d h = ground arith

parse_pair-digits :
    (c d : ℕ)
    → is_hex_digit c ≡ true
    → is_hex_digit d ≡ true
    → parse_pair c d ≡ hex_value c * 16 + hex_value d
unfolding parse_pair
parse_pair-digits c d hc hd = ground arith

parse_pair-hex_char : (b : ℕ) → b < 256 → parse_pair (hex_char (b / 16)) (hex_char (b % 16)) ≡ b
parse_pair-hex_char b h =
    let (c, u, _) = hex_char-digit (b / 16) (omega arith) in
    let (d, v, _) = hex_char-digit (b % 16) (omega arith) in
    omega (arith, parse_pair-digits _ _ c d)

-- Every list of bytes is read back from its hexadecimal text, by both readers.
pub hex_to_bytes-bytes_to_hex :
    (bs : Bytes)
    → AllBytes bs
    → (hex_to_bytes (bytes_to_hex bs) ≡ some bs) × (hex_to_bytes_floor (bytes_to_hex bs) ≡ bs)
unfolding hex_to_bytes hex_to_bytes_floor bytes_to_hex
hex_to_bytes-bytes_to_hex [] h = (refl, refl)
hex_to_bytes-bytes_to_hex (b ∷ bs) h =
    let (e, f) = hex_to_bytes-bytes_to_hex bs h.1 in
    (rw (e, parse_pair-hex_char b h.0) refl, cc (f, parse_pair-hex_char b h.0))

hex_value-lt : (c : ℕ) → is_hex_digit c ≡ true → hex_value c < 16
unfolding hex_value is_hex_digit
hex_value-lt c h = ground arith

hex_char-hex_value : (c : ℕ) → is_hex_digit c ≡ true → hex_char (hex_value c) ≡ lower_char c
unfolding hex_value is_hex_digit hex_char
hex_char-hex_value c h = ground arith

abbrev pub IsEven : Text → Type 0
IsEven [] = Unit
IsEven (c ∷ []) = ⊥
IsEven (c ∷ d ∷ t) = IsEven t

pair-hex_char :
    (c d : ℕ)
    → is_hex_digit c ≡ true
    → is_hex_digit d ≡ true
    → (hex_char (parse_pair c d / 16) ≡ lower_char c)
      × (hex_char (parse_pair c d % 16) ≡ lower_char d)
      × (parse_pair c d < 256)
pair-hex_char c d hc hd =
    let e = parse_pair-digits c d hc hd in
    let p = hex_value-lt c hc in
    let q = hex_value-lt d hd in
    let hi : parse_pair c d / 16 ≡ hex_value c = omega arith in
    let lo : parse_pair c d % 16 ≡ hex_value d = omega arith in
    (rw hi (hex_char-hex_value c hc), rw lo (hex_char-hex_value d hd), omega arith)

-- A hexadecimal text of even length is read, and what is read prints as the text in lower case.
pub bytes_to_hex-hex_to_bytes :
    (t : Text)
    → IsEven t
    → all is_hex_digit t ≡ true
    → (bs : Bytes) × (hex_to_bytes t ≡ some bs) × (bytes_to_hex bs ≡ to_lower t) × AllBytes bs
unfolding hex_to_bytes bytes_to_hex to_lower
bytes_to_hex-hex_to_bytes [] e h = ([], refl, refl, tt)
bytes_to_hex-hex_to_bytes (c ∷ []) e h = absurd e
bytes_to_hex-hex_to_bytes (c ∷ d ∷ t) e h =
    let (bs, read, shown, small) = bytes_to_hex-hex_to_bytes t e (ground arith) in
    let (x, y, z) = pair-hex_char c d (ground arith) (ground arith) in
    (parse_pair c d ∷ bs, rw read refl, cc (x, y, shown), (z, small))

-- What a text of `bytesToHex` looks like: two digits for a byte, all of them in lower case.
pub bytes_to_hex-form :
    (bs : Bytes)
    → AllBytes bs
    → (length (bytes_to_hex bs) ≡ 2 * length bs)
      × (all is_hex_digit (bytes_to_hex bs) ≡ true)
      × (to_lower (bytes_to_hex bs) ≡ bytes_to_hex bs)
unfolding bytes_to_hex to_lower
bytes_to_hex-form [] h = (omega arith, refl, refl)
bytes_to_hex-form (b ∷ bs) h =
    let (n, digits, low) = bytes_to_hex-form bs h.1 in
    let (c, e, u) = hex_char-digit (b / 16) (omega arith) in
    let (d, f, v) = hex_char-digit (b % 16) (omega arith) in
    (omega (arith, n), rw (c, d, digits) refl, cc (u, v, low))

-- Where the shard's reader takes a text, the Router's reads the same bytes.
pub hex_to_bytes_floor-agrees :
    (t : Text) (bs : Bytes) → hex_to_bytes t ≡ some bs → hex_to_bytes_floor t ≡ bs
unfolding hex_to_bytes hex_to_bytes_floor
hex_to_bytes_floor-agrees [] bs h = cc
hex_to_bytes_floor-agrees (c ∷ []) bs h = cc
hex_to_bytes_floor-agrees (c ∷ d ∷ t) bs h = elim (Option-cases (hex_to_bytes t)) [
  | inl bad ↦ (let none_is_some : none ≡ some bs = rw bad at h in cc)
  | inr (rest, good) ↦
      (let e : some (parse_pair c d ∷ rest) ≡ some bs = rw good at h in
        let same = hex_to_bytes_floor-agrees t rest good in cc)
]
