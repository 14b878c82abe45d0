-- ===== src/Router/Answers/Signed.antt =====
-- The texts of digests and signatures, and what the Router signs (router/router.js `signHex`).
use nex_talk_relay.Base.{
  Text, to_lower, ℕ, zero, suc, ◌*◌, ◌≤◌, ◌<◌, ◌≡◌, refl, true, ◌∷◌, [], all, length, arith,
}
use nex_talk_relay.Encoding.{Bytes, bytes_to_hex, utf8}
use nex_talk_relay.Encoding.RoundTrip.{AllBytes, bytes_to_hex-form, hex_to_bytes-bytes_to_hex}
use nex_talk_relay.Js.{num, str, truthy, to_text}
use nex_talk_relay.Js.Regex.{is_hex, is_hex_digit}
use nex_talk_relay.Platform.{Platform}
use nex_talk_relay.Platform.Exec.{value}
use nex_talk_relay.Platform.Laws.{IsKeyPair}
use nex_talk_relay.Platform.World.{World}
use nex_talk_relay.Router.Answers.{sign_hex}
use nex_talk_relay.Router.Config.{RouterEnv}
use nex_talk_relay.Shard.Crypto.{is_hex_string, is_hex_value, verify_ed25519_message}
use nex_talk_relay.Shard.Keys.{sign_with_shard_key}

-- A text of `n` hexadecimal digits in lower case.
pub record IsLowerHex (n : ℕ) (t : Text) : Type 0 where
  pub size : length t ≡ n
  pub digits : all is_hex_digit t ≡ true
  pub lower : to_lower t ≡ t

pub IsLowerHex-bytes :
    (k : ℕ) (bs : Bytes) → length bs ≡ k → AllBytes bs → IsLowerHex (2 * k) (bytes_to_hex bs)
IsLowerHex-bytes k bs e small =
    let (n, digits, low) = bytes_to_hex-form bs small in
    record { size = omega (arith, n, e); digits = digits; lower = low }

pub truthy-text : (n : ℕ) (t : Text) → 0 < n → length t ≡ n → truthy (str t) ≡ true
truthy-text n [] pos e = absurd (omega arith)
truthy-text n (c ∷ t) pos e = refl

pub truthy-num : (n : ℕ) → 0 < n → truthy (num n) ≡ true
truthy-num zero pos = absurd (omega arith)
truthy-num (suc n) pos = refl

is_hex-within : (lo hi n : ℕ) (t : Text) → lo ≤ n → n ≤ hi → IsLowerHex n t → is_hex lo hi t ≡ true
unfolding is_hex
is_hex-within lo hi n t above below h = ground (arith, h.size, h.digits)

pub is_hex_string-within :
    (lo hi n : ℕ) (t : Text)
    → 0 < lo
    → lo ≤ n
    → n ≤ hi
    → IsLowerHex n t
    → (is_hex_string lo hi (str t) ≡ true) × (is_hex_value lo hi (str t) ≡ true)
unfolding is_hex_string is_hex_value to_text
is_hex_string-within lo hi n t pos above below h =
    let filled = truthy-text n t (omega arith) h.size in
    let form = is_hex-within lo hi n t above below h in
    (rw (filled, form) refl, rw (filled, form) refl)

module _ (p : Platform) (env : RouterEnv)
    (keys : IsKeyPair p env.signing_key env.signing_public) where
  -- What the private key signs is verified as a text.
  pub sign_hex-verified :
      (message : Text)
      → (sig : Text) × ((w : World p) → sign_hex p env.signing_key message w ≡ (value sig, w))
        × IsLowerHex 128 sig
        × (verify_ed25519_message p env.signing_public message sig ≡ true)
  unfolding sign_hex sign_with_shard_key verify_ed25519_message
  sign_hex-verified message =
      let (sig, run, size, small, good) = keys.signs (utf8 message) in
      let (read, _) = hex_to_bytes-bytes_to_hex sig small in
      (
        bytes_to_hex sig,
        λ w. rw (run, sign_hex, sign_with_shard_key) refl,
        IsLowerHex-bytes 64 sig size small,
        rw (keys.public_read, read, good, verify_ed25519_message) refl,
      )
