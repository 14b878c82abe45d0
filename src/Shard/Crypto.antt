-- ===== src/Shard/Crypto.antt =====
-- Signatures, capabilities and the authentication of senders (shard/worker.js).
use Prim.Native.Nat.{max}
pub mod Replay
use nex_talk_relay.Base.{
  Text, codes, to_lower, ℕ, ◌+◌, ◌-◌, ◌/◌, Bool, true, false, not, ◌&&◌, Option, none, some, [],
  ◌∷◌, ◌++◌, decimal, ltb, if◌then◌else◌,
}
use nex_talk_relay.Encoding.{hex_to_bytes, bytes_to_hex, utf8}
use nex_talk_relay.Js.{
  Json, undefined, null, bool, num, str, arr, obj, Number, truthy, is_string, to_text, get,
}
use nex_talk_relay.Js.Regex.{is_hex, is_digits}
use nex_talk_relay.Platform.{Platform, text, number_of}
use nex_talk_relay.Platform.Exec.{Outcome, value, reply, throw, ◌>>=◌, ◌>>◌, pure}
use nex_talk_relay.Platform.World.{Run, now, kv_get, kv_put}

-- `!v || typeof v !== "string" || !/^[0-9a-f]{lo,hi}$/i.test(v)`, negated
unfoldable pub is_hex_string : ℕ → ℕ → Json → Bool
is_hex_string lo hi v = truthy v && is_string v && is_hex lo hi (to_text v)

-- The same with no test of the type: the regular expression reads `String(v)`.
unfoldable pub is_hex_value : ℕ → ℕ → Json → Bool
is_hex_value lo hi v = truthy v && is_hex lo hi (to_text v)

-- `v.toLowerCase()`, which only a text has
unfoldable pub lower_case : Json → Outcome Text
lower_case (str t) = value (to_lower t)
lower_case _ = throw (codes "toLowerCase is not a function")

-- `Number(v)`
unfoldable pub to_number : Platform → Json → Number
to_number p undefined = none
to_number p null = some 0
to_number p (bool true) = some 1
to_number p (bool false) = some 0
to_number p (num n) = some n
to_number p (str []) = some 0
to_number p (str (c ∷ t)) = number_of p (c ∷ t)
to_number p (arr xs) = (elim (to_text (arr xs)) [ [] ↦ some 0 | c ∷ t ↦ number_of p (c ∷ t) ])
to_number p (obj fs) = none

-- `` `${n}` ``
abbrev pub number_text : Number → Text
number_text none = codes "NaN"
number_text (some n) = decimal n

-- `t > n`
abbrev pub is_past : ℕ → Number → Bool
is_past t none = false
is_past t (some n) = ltb n t

-- `Math.abs(t - n) > bound`
abbrev pub is_apart : ℕ → Number → ℕ → Bool
is_apart t none bound = false
is_apart t (some n) bound = ltb bound ((t - n) + (n - t))

infixr 66 ◌∶◌
-- The two texts with a colon between them.
abbrev pub ◌∶◌ : Text → Text → Text
s ∶ t = s ++ b':' ∷ t

-- `none` is an exception, which the source catches.
abbrev pub is_verified : Option Bool → Bool
is_verified none = false
is_verified (some b) = b

-- `Math.max(60, Math.ceil(maxSkewMs / 1000))`
unfoldable pub replay_ttl : ℕ → ℕ
replay_ttl max_skew = max 60 ((max_skew + 999) / 1000)

abbrev skew_error : ℕ → Text
skew_error max_skew =
    codes "timestamp is outside the ±"
    ++ (decimal max_skew ++ codes "ms window (clock skew or replay)")

module _ (p : Platform) where
  unfoldable pub sha256_hex : Text → Text
  sha256_hex t = bytes_to_hex (p.sha256 (utf8 t))

  unfoldable pub verify_ed25519_message : Text → Text → Text → Bool
  verify_ed25519_message pubkey_hex signed_message sig_hex = elim (hex_to_bytes pubkey_hex) [
    | none ↦ false
    | some pubkey ↦ elim (hex_to_bytes sig_hex) [
      | none ↦ false
      | some sig ↦ is_verified (p.verify pubkey sig (utf8 signed_message))
    ]
  ]

  -- `verifyCapability` at the time `t`
  unfoldable pub verify_capability : ℕ → Text → Text → Number → Text → Text → Bool
  verify_capability t mailbox_id read_secret_hash cap_exp cap_sig router_public =
      if is_past t cap_exp
      then false
      else verify_ed25519_message router_public
          (codes "cap" ∶ mailbox_id ∶ read_secret_hash ∶ number_text cap_exp) cap_sig

  -- `verifyCapabilityV2` at the time `t`
  unfoldable pub verify_capability_v2 :
      ℕ → Text → Json → Text → Number → Text → Text → Text → Outcome Bool
  verify_capability_v2 t mailbox_id client_pubkey scope cap_exp nonce cap_sig router_public =
      if is_past t cap_exp then value false else elim (lower_case client_pubkey) [
        | value client ↦ value (
            verify_ed25519_message router_public
              (codes "cap" ∶ codes "v2" ∶ mailbox_id ∶ client ∶ scope ∶ number_text cap_exp ∶ nonce)
              cap_sig)
        | reply r ↦ reply r
        | throw e ↦ throw e
      ]

  -- The key under which a request of a sender is marked as used.
  unfoldable pub replay_key : Text → Text → Text → Text
  replay_key pubkey timestamp signature =
      codes "replay:" ++ sha256_hex (to_lower pubkey ∶ timestamp ∶ to_lower signature)

  -- The part of `verifySenderAuth` behind the tests of the form.
  unfoldable pub check_sender : Text → Text → Text → ℕ → Text → Run p (Option Text)
  check_sender pubkey timestamp signature max_skew signed_message = do
    t ← now p
    if is_apart t (number_of p timestamp) max_skew then pure (some (skew_error max_skew)) else do
      let key = replay_key pubkey timestamp signature
      already_seen ← kv_get p key
      (elim already_seen [
        | some _ ↦ pure (some (codes "request already used (replay detected)"))
        | none ↦
            if not (verify_ed25519_message pubkey signed_message signature)
            then pure (some (codes "signature verification failed"))
            else do kv_put p key (text (codes "1")) (some (replay_ttl max_skew)); pure none
      ])

  -- `none` where the sender is authentic, and otherwise what is wrong
  unfoldable pub verify_sender_auth : Json → ℕ → Text → Run p (Option Text)
  verify_sender_auth auth max_skew signed_message =
      let pubkey = get (codes "pubkey") auth in
      let timestamp = get (codes "timestamp") auth in
      let signature = get (codes "signature") auth in
      if not (is_hex_string 64 64 pubkey)
      then pure (some (codes "sender.pubkey must be a 64-char lowercase hex Ed25519 public key"))
      else if not (truthy timestamp && is_string timestamp && is_digits (to_text timestamp))
      then pure (some (codes "sender.timestamp must be a unix millisecond timestamp string"))
      else if not (is_hex_string 128 128 signature)
      then pure (some (codes "sender.signature must be a 128-char lowercase hex Ed25519 signature"))
      else check_sender (to_text pubkey) (to_text timestamp) (to_text signature) max_skew
          signed_message
