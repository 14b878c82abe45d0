-- ===== src/Shard/Keys.antt =====
-- The shard's own key pair, and the responses that it signs (shard/worker.js).
use nex_talk_relay.Base.{Text, codes, ℕ, none, some, [], ◌∷◌, decimal}
use nex_talk_relay.Encoding.{bytes_to_hex, utf8}
use nex_talk_relay.Js.{Json, num, str, object}
use nex_talk_relay.Platform.{Platform, Identity, identity, as_identity}
use nex_talk_relay.Platform.Exec.{◌>>=◌, ◌>>◌, pure, lift, throw}
use nex_talk_relay.Platform.World.{Run, now, kv_get, kv_put, generate_key}
use nex_talk_relay.Shard.Crypto.{◌∶◌, sha256_hex}

unfoldable pub shard_identity_kv_key : Text
unfolding codes
shard_identity_kv_key = codes "shard_identity"

module _ (p : Platform) where
  unfoldable pub ensure_shard_identity : Run p Identity
  ensure_shard_identity = do
    raw ← kv_get p shard_identity_kv_key
    (elim raw [
      | some s ↦ elim (as_identity s) [
        | some i ↦ pure i
        | none ↦ lift (throw (codes "SyntaxError"))
      ]
      | none ↦ do
        (pub_bytes, private_key) ← generate_key p
        let fresh : Identity = record {
          public_key_hex = bytes_to_hex pub_bytes;
          private_key = private_key;
        }
        kv_put p shard_identity_kv_key (identity fresh) none
        pure fresh
    ])

  -- `importShardPrivateKey` and `signWithShardKey`
  unfoldable pub sign_with_shard_key : Text → Text → Run p Text
  sign_with_shard_key private_key message = elim (p.sign private_key (utf8 message)) [
    | some sig ↦ pure (bytes_to_hex sig)
    | none ↦ lift (throw (codes "DataError"))
  ]

  unfoldable pub build_shard_signed_response : Text → ℕ → Json → Run p Json
  build_shard_signed_response request_id status body = do
    own ← ensure_shard_identity
    t ← now p
    let timestamp = decimal t
    let body_hash = sha256_hex p (p.stringify body)
    signature ←
        sign_with_shard_key own.private_key (request_id ∶ decimal status ∶ timestamp ∶ body_hash)
    pure (
        object (
          (codes "version", num 1)
          ∷ (codes "request_id", str request_id)
          ∷ (codes "status", num status)
          ∷ (codes "timestamp", str timestamp)
          ∷ (codes "body_hash", str body_hash)
          ∷ (codes "body", body)
          ∷ (codes "server_public_key", str own.public_key_hex)
          ∷ (codes "signature", str signature)
          ∷ []))
