-- ===== src/Js/Regex.antt =====
-- The regular expressions of the workers, as tests on texts.
use nex_talk_relay.Base.{
  Text, codes, lower_char, ℕ, Bool, false, not, ◌&&◌, ◌||◌, Option, none, some, [], ◌∷◌, length,
  all, leb, ◌==◌, if◌then◌else◌,
}

-- `[0-9a-f]` with the flag `i`
unfoldable pub is_hex_digit : ℕ → Bool
is_hex_digit c = (leb b'0' c && leb c b'9') || (leb b'a' (lower_char c) && leb (lower_char c) b'f')

-- `/^[0-9a-f]{lo,hi}$/i`
unfoldable pub is_hex : ℕ → ℕ → Text → Bool
is_hex lo hi t = (leb lo (length t) && leb (length t) hi) && all is_hex_digit t

abbrev pub is_digit : ℕ → Bool
is_digit c = leb b'0' c && leb c b'9'

-- `/^\d+$/`
unfoldable pub is_digits : Text → Bool
is_digits [] = false
is_digits (c ∷ t) = all is_digit (c ∷ t)

-- `\s`, at the ASCII spaces, the no-break space and the byte order mark
abbrev pub is_space : ℕ → Bool
is_space c = (leb 9 c && leb c 13) || (c == 32 || (c == 160 || c == 65279))

-- The rest of a text behind a first part, read with the flag `i`.
abbrev pub strip_prefix : Text → Text → Option Text
strip_prefix [] t = some t
strip_prefix (p ∷ ps) [] = none
strip_prefix (p ∷ ps) (c ∷ t) = if lower_char p == lower_char c then strip_prefix ps t else none

abbrev non_spaces : Text → Bool
non_spaces [] = false
non_spaces (c ∷ t) = all (λ d. not (is_space d)) (c ∷ t)

abbrev after_scheme : Option Text → Bool
after_scheme none = false
after_scheme (some rest) = non_spaces rest

-- `/^https?:\/\/\S+$/i`
unfoldable pub is_http_url : Text → Bool
unfolding codes
is_http_url t =
    after_scheme (strip_prefix (codes "http://") t)
    || after_scheme (strip_prefix (codes "https://") t)

abbrev pub skip_spaces : Text → Text
skip_spaces [] = []
skip_spaces (c ∷ t) = if is_space c then skip_spaces t else c ∷ t

abbrev credentials : Option Text → Option Text
credentials none = none
credentials (some []) = none
credentials (some (c ∷ t)) =
    if is_space c then (elim (skip_spaces t) [ [] ↦ none | d ∷ s ↦ some (d ∷ s) ]) else none

-- The group of `/^Bearer\s+(.+)$/i` at the value of a header, which has no spaces at its end.
unfoldable pub bearer : Text → Option Text
unfolding codes
bearer t = credentials (strip_prefix (codes "Bearer") t)
