-- ===== src/Shard/Rotate.antt =====
-- `handleAdminRotateKey` of shard/worker.js.
pub mod Takeover
use nex_talk_relay.Base.{
  Text, codes, ℕ, Bool, true, false, not, Option, none, some, List, [], ◌∷◌, ◌++◌, decimal,
  if◌then◌else◌,
}
use nex_talk_relay.Encoding.{bytes_to_hex}
use nex_talk_relay.Js.{Json, null, bool, str, object}
use nex_talk_relay.Platform.{Platform, Identity, identity, Fetched, unreachable, answered}
use nex_talk_relay.Platform.Exec.{value, pure, stop_if, ◌>>=◌, ◌>>◌}
use nex_talk_relay.Platform.Http.{Request, Response, err, json}
use nex_talk_relay.Platform.World.{Run, now, kv_put, kv_delete, generate_key, fetch}
use nex_talk_relay.Shard.{Env}
use nex_talk_relay.Shard.Crypto.{◌∶◌}
use nex_talk_relay.Shard.Keys.{shard_identity_kv_key, ensure_shard_identity, sign_with_shard_key}
use nex_talk_relay.Shard.Admin.{
  self_register_kv_key, is_set, or_empty, is_authorized, strip_slash, is_ok, json_or_empty,
}

-- A rotation: the old key pair and the new one, at a time.
pub record Rotation : Type 0 where
  pub shard_url : Text
  pub old : Identity
  pub new : Identity
  pub timestamp : Text

-- What both keys sign, behind the word that tells them apart.
unfoldable pub rotation_text : Rotation → Text
rotation_text r = r.shard_url ∶ r.old.public_key_hex ∶ r.new.public_key_hex ∶ r.timestamp

unfoldable pub migration_message : Rotation → Text
migration_message r = codes "key_rotation" ∶ rotation_text r

unfoldable pub accept_message : Rotation → Text
accept_message r = codes "key_rotation_accept" ∶ rotation_text r

unfoldable pub rotation_notice : Rotation → Text → Text → Json
rotation_notice r old_sig new_sig = object (
    (codes "shard_url", str r.shard_url)
    ∷ (codes "old_pubkey", str r.old.public_key_hex)
    ∷ (codes "new_pubkey", str r.new.public_key_hex)
    ∷ (codes "timestamp", str r.timestamp)
    ∷ (codes "old_signature", str old_sig)
    ∷ (codes "new_signature", str new_sig)
    ∷ [])

-- `result`, with whether the Router was told, its answer, and the error if there is one
unfoldable pub rotation_result : Rotation → Bool → Json → List (Text × Json) → Json
rotation_result r notified response error = object (
    (codes "rotated", bool true)
    ∷ (codes "old_pubkey", str r.old.public_key_hex)
    ∷ (codes "new_pubkey", str r.new.public_key_hex)
    ∷ (codes "router_notified", bool notified)
    ∷ (codes "router_response", response)
    ∷ error)

module _ (p : Platform) where
  unfoldable pub new_identity : Run p Identity
  new_identity = do
    (pub_bytes, private_key) ← generate_key p
    pure (record { public_key_hex = bytes_to_hex pub_bytes; private_key = private_key })

  -- The Router's answer; a text that is no JSON counts as an empty object.
  unfoldable pub rotation_answer : Rotation → Fetched → Json
  rotation_answer r (unreachable e) =
      rotation_result r false null ((codes "router_error", str e) ∷ [])
  rotation_answer r (answered status body) =
      rotation_result r (is_ok status) (json_or_empty p body) (
        if is_ok status
        then []
        else (codes "router_error", str (codes "Router returned " ++ decimal status)) ∷ [])

  unfoldable pub notify_router : Env → Rotation → Text → Text → Run p Json
  notify_router env r old_sig new_sig =
      let target = strip_slash (or_empty env.router_url) in
      if is_set (some target)
      then (do
        answer ← fetch p (target ++ codes "/rotate_shard_key") (rotation_notice r old_sig new_sig)
        pure (rotation_answer r answer))
      else pure (rotation_result r false null [])

  -- The new key is signed for by both keys, stored, and told to the Router.
  unfoldable pub rotate : Env → Rotation → Run p Response
  rotate env r = do
    old_sig ← sign_with_shard_key p r.old.private_key (migration_message r)
    new_sig ← sign_with_shard_key p r.new.private_key (accept_message r)
    kv_put p shard_identity_kv_key (identity r.new) none
    kv_delete p self_register_kv_key
    result ← notify_router env r old_sig new_sig
    pure (json result)

  unfoldable pub handle_admin_rotate_key : Request → Env → Run p Response
  handle_admin_rotate_key request env = do
    stop_if (not (is_authorized request env)) (err (codes "Unauthorized") 401)
    stop_if (not (is_set env.self_url)) (err (codes "SELF_URL is not configured on this shard") 500)
    old ← ensure_shard_identity p
    new ← new_identity
    t ← now p
    rotate env
        (record { shard_url = or_empty env.self_url; old = old; new = new; timestamp = decimal t })
