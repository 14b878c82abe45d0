-- ===== src/Encoding/Secrets.antt =====
-- `constantTimeEqual` decides equality.
use Prim.Native.Nat.{max, bit_or, bit_xor, digits, differ, bit_or-bitwise, bit_xor-bitwise}
use nex_talk_relay.Base.{
  Text, ℕ, zero, suc, ◌/◌, ◌%◌, ◌≤◌, ◌<◌, ◌≡◌, refl, ap, ◌≢◌, sym, ◌∙◌, ◌↔◌, true, false, [], ◌∷◌,
  ◌++◌, length, ==_iff, arith,
}
use nex_talk_relay.Encoding.{
  Bytes, is_surrogate, utf8_char, utf8, padded, diff_loop, constant_time_equal_bytes,
  constant_time_equal,
}

differ-zero : (x y : ℕ) → differ x y ≡ 0 → x ≡ y
differ-zero zero y h = omega arith
differ-zero (suc x) zero h = h
differ-zero (suc x) (suc y) h = ap suc (differ-zero x y h)

differ_self : (x : ℕ) → differ x x ≡ 0
differ_self zero = refl
differ_self (suc x) = differ_self x

-- The digits of an exclusive or are all zero only for equal numbers.
xor_digits-zero : (n a b : ℕ) → a ≤ n → digits (λ y. y) differ n a b ≡ 0 → a ≡ b
xor_digits-zero zero zero b p h = omega arith
xor_digits-zero zero (suc a) b p h = absurd (omega arith)
xor_digits-zero (suc n) zero b p h = omega arith
xor_digits-zero (suc n) (suc a) b p h = omega (
  arith,
  xor_digits-zero n (suc a / 2) (b / 2) (omega arith) (omega arith),
  differ-zero (suc a % 2) (b % 2) (omega arith),
)

xor_digits_self : (n a : ℕ) → a ≤ n → digits (λ y. y) differ n a a ≡ 0
xor_digits_self zero zero p = refl
xor_digits_self zero (suc a) p = absurd (omega arith)
xor_digits_self (suc n) zero p = refl
xor_digits_self (suc n) (suc a) p =
    omega (arith, xor_digits_self n (suc a / 2) (omega arith), differ_self (suc a % 2))

or_digits-zero : (n a b : ℕ) → a ≤ n → digits (λ y. y) max n a b ≡ 0 → (a ≡ 0) × (b ≡ 0)
or_digits-zero zero zero b p h = (refl, h)
or_digits-zero zero (suc a) b p h = absurd (omega arith)
or_digits-zero (suc n) zero b p h = (refl, h)
or_digits-zero (suc n) (suc a) b p h =
    absurd (omega (arith, or_digits-zero n (suc a / 2) (b / 2) (omega arith) (omega arith)))

pub bit_xor-eq-zero : (a b : ℕ) → bit_xor a b ≡ 0 → a ≡ b
bit_xor-eq-zero a b h = xor_digits-zero a a b (omega arith) (omega (arith, bit_xor-bitwise a b))

pub bit_xor_self : (a : ℕ) → bit_xor a a ≡ 0
bit_xor_self a = omega (arith, bit_xor-bitwise a a, xor_digits_self a a (omega arith))

bit_or-eq-zero : (a b : ℕ) → bit_or a b ≡ 0 → (a ≡ 0) × (b ≡ 0)
bit_or-eq-zero a b h = or_digits-zero a a b (omega arith) (omega (arith, bit_or-bitwise a b))

diff_loop-zero :
    (diff : ℕ) (as' bs : Bytes)
    → length as' ≡ length bs
    → diff_loop diff as' bs ≡ 0
    → (diff ≡ 0) × (as' ≡ bs)
unfolding diff_loop
diff_loop-zero diff [] [] e h = (h, refl)
diff_loop-zero diff [] (b ∷ bs) e h = absurd (omega arith)
diff_loop-zero diff (a ∷ as') [] e h = absurd (omega arith)
diff_loop-zero diff (a ∷ as') (b ∷ bs) e h =
    let (z, rest) = diff_loop-zero (bit_or diff (bit_xor a b)) as' bs (omega arith) h in
    let (d, x) = bit_or-eq-zero diff (bit_xor a b) z in (d, cc (bit_xor-eq-zero a b x))

diff_loop_self : (as' : Bytes) → diff_loop 0 as' as' ≡ 0
unfolding diff_loop
diff_loop_self [] = refl
diff_loop_self (a ∷ as') = rw (bit_xor_self a) (diff_loop_self as')

length-padded : (n : ℕ) (bs : Bytes) → length (padded n bs) ≡ n
length-padded zero bs = refl
length-padded (suc n) [] = ap suc (length-padded n [])
length-padded (suc n) (b ∷ bs) = ap suc (length-padded n bs)

padded_injective :
    (n : ℕ) (a b : Bytes) → length a ≤ n → length a ≡ length b → padded n a ≡ padded n b → a ≡ b
padded_injective n [] [] p e h = refl
padded_injective n [] (y ∷ b) p e h = absurd (omega arith)
padded_injective n (x ∷ a) [] p e h = absurd (omega arith)
padded_injective zero (x ∷ a) (y ∷ b) p e h = absurd (omega arith)
padded_injective (suc n) (x ∷ a) (y ∷ b) p e h =
    cc (padded_injective n a b (omega arith) (omega arith) (cc))

-- The comparison of two byte arrays says `true` exactly when they are equal.
pub constant_time_equal_bytes_iff : (a b : Bytes) → (constant_time_equal_bytes a b ≡ true) ↔ (a ≡ b)
unfolding constant_time_equal_bytes
constant_time_equal_bytes_iff a b = (sound, complete)
  where
    width : ℕ
    width = max (max (length a) (length b)) 32

    sound : constant_time_equal_bytes a b ≡ true → a ≡ b
    sound h =
        let z = (==_iff _ 0).0 h in
        let (lengths, bytes) =
          diff_loop-zero (bit_xor (length a) (length b)) (padded width a) (padded width b)
            (length-padded width a ∙ sym (length-padded width b)) z in
        padded_injective width a b (omega arith) (bit_xor-eq-zero _ _ lengths) bytes

    complete : a ≡ b → constant_time_equal_bytes a b ≡ true
    complete e = rw (← e, bit_xor_self, diff_loop_self) refl

-- Characters of Unicode, of which none is a lone surrogate.
abbrev pub AllChars : Text → Type 0
AllChars [] = Unit
AllChars (c ∷ t) = (c < 1114112) × (is_surrogate c ≡ false) × AllChars t

utf8_char_cancel :
    (c d : ℕ) (s t : Bytes)
    → c < 1114112
    → d < 1114112
    → is_surrogate c ≡ false
    → is_surrogate d ≡ false
    → utf8_char c ++ s ≡ utf8_char d ++ t
    → (c ≡ d) × (s ≡ t)
utf8_char_cancel c d s t hc hd nc nd h = ground arith

utf8_char-ne-nil : (c : ℕ) (s : Bytes) → utf8_char c ++ s ≢ []
utf8_char-ne-nil c s h = ground arith

utf8_injective : (s t : Text) → AllChars s → AllChars t → utf8 s ≡ utf8 t → s ≡ t
unfolding utf8
utf8_injective [] [] hs ht h = refl
utf8_injective [] (d ∷ t) hs ht h = absurd (utf8_char-ne-nil d (utf8 t) (sym h))
utf8_injective (c ∷ s) [] hs ht h = absurd (utf8_char-ne-nil c (utf8 s) h)
utf8_injective (c ∷ s) (d ∷ t) (c_char, c_whole, hs) (d_char, d_whole, ht) h =
    let (e, rest) = utf8_char_cancel c d (utf8 s) (utf8 t) c_char d_char c_whole d_whole h in
    cc (e, utf8_injective s t hs ht rest)

-- On texts of Unicode characters without a lone surrogate the comparison of secrets says `true` exactly for equal texts.
pub constant_time_equal_iff :
    (a b : Text) → AllChars a → AllChars b → (constant_time_equal a b ≡ true) ↔ (a ≡ b)
unfolding constant_time_equal
constant_time_equal_iff a b ha hb =
    let (sound, complete) = constant_time_equal_bytes_iff (utf8 a) (utf8 b) in
    (λ h. utf8_injective a b ha hb (sound h), λ e. complete (ap utf8 e))
