-- ===== src/Router/Answers.antt =====
-- The Router's signature, the responses that it signs, and its proof of identity to a client
-- (router/router.js).
pub mod Signed
use nex_talk_relay.Base.{
  Text, codes, ℕ, Bool, true, false, not, ◌&&◌, Option, none, some, List, [], ◌∷◌, decimal, length,
  leb, if◌then◌else◌,
}
use nex_talk_relay.Js.{Json, num, str, Number, get, is_string, to_text, object, null}
use nex_talk_relay.Platform.{Platform}
use nex_talk_relay.Platform.Exec.{Outcome, value, reply, pure, lift, stop_if, ◌>>=◌, ◌>>◌}
use nex_talk_relay.Platform.Http.{Request, Response, json_ok, json_err}
use nex_talk_relay.Platform.World.{Run, now}
use nex_talk_relay.Router.Config.{RouterEnv}
use nex_talk_relay.Shard.Admin.{is_hello_nonce, hello_protocol}
use nex_talk_relay.Shard.Crypto.{◌∶◌, sha256_hex}
use nex_talk_relay.Shard.Keys.{sign_with_shard_key}

-- `JSON.stringify` writes NaN as `null`.
abbrev pub number_json : Number → Json
number_json none = null
number_json (some n) = num n

module _ (p : Platform) where
  -- `importSigningKey` and `signHex`
  unfoldable pub sign_hex : Text → Text → Run p Text
  sign_hex key message = sign_with_shard_key p key message

  unfoldable pub build_signed_response : RouterEnv → Json → ℕ → Json → Run p Json
  build_signed_response env request_id status body = do
    t ← now p
    let body_hash = sha256_hex p (p.stringify body)
    signature ←
        sign_hex env.signing_key (to_text request_id ∶ decimal status ∶ decimal t ∶ body_hash)
    pure (
        object (
          (codes "version", num 1)
          ∷ (codes "request_id", request_id)
          ∷ (codes "status", num status)
          ∷ (codes "timestamp", str (decimal t))
          ∷ (codes "body_hash", str body_hash)
          ∷ (codes "body", body)
          ∷ (codes "server_public_key", str env.signing_public)
          ∷ (codes "signature", str signature)
          ∷ []))

  abbrev pub body_or_err : Option Json → Outcome Json
  body_or_err none = reply (json_err (codes "Request body must be valid JSON") 400)
  body_or_err (some v) = value v

  unfoldable pub router_hello : Request → RouterEnv → Run p Response
  router_hello request env = do
    body ← lift (body_or_err request.body)
    let nonce = get (codes "nonce") body
    let protocol = hello_protocol (get (codes "protocol") body)
    stop_if (not (is_hello_nonce nonce))
        (json_err (codes "nonce must be a non-empty string (8–256 chars)") 400)
    stop_if (not (is_string protocol && leb (length (to_text protocol)) 32))
        (json_err (codes "protocol must be a short identifier string") 400)
    t ← now p
    signature ← sign_hex env.signing_key (
        codes "NexTalk Server Authentication"
        ∶ to_text protocol
        ∶ to_text nonce
        ∶ env.signing_public
        ∶ decimal t)
    pure (
        json_ok
          (object (
            (codes "version", num 1)
            ∷ (codes "type", str (codes "server_hello"))
            ∷ (codes "protocol", protocol)
            ∷ (codes "server_public_key", str env.signing_public)
            ∷ (codes "challenge", nonce)
            ∷ (codes "timestamp", str (decimal t))
            ∷ (codes "signature", str signature)
            ∷ []))
          [])
