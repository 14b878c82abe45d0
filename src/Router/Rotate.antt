-- ===== src/Router/Rotate.antt =====
-- `handleRotateShardKey` of router/router.js, where ROUTER_ADMIN_KV is bound.
pub mod Authorized
pub mod Overtaken
use nex_talk_relay.Base.{
  Text, codes, same, to_lower, ℕ, Bool, true, false, not, ◌&&◌, Option, none, some, List, [], ◌∷◌,
  ◌++◌, map, find, if◌then◌else◌,
}
use nex_talk_relay.Js.{Json, bool, num, str, get, truthy, is_string, to_text, object}
use nex_talk_relay.Js.Regex.{is_http_url, is_digits}
use nex_talk_relay.Platform.{Platform, ShardRecord, shards}
use nex_talk_relay.Platform.Exec.{Outcome, value, reply, throw, pure, lift, stop_if, ◌>>=◌, ◌>>◌}
use nex_talk_relay.Platform.Http.{Request, Response, json_ok, json_err}
use nex_talk_relay.Platform.World.{Run, now, kv_put}
use nex_talk_relay.Router.Config.{get_registered_shards}
use nex_talk_relay.Router.Register.{RouterCfg, has_url, registered_shards_key}
use nex_talk_relay.Router.Register.Handlers.{verify_ed25519, bump_version}
use nex_talk_relay.Shard.Crypto.{is_hex_value, is_apart, to_number, ◌∶◌}

-- What `handleRotateShardKey` reads from its body.
pub record RotateRequest : Type 0 where
  pub shard_url : Text
  pub old_pubkey : Text
  pub new_pubkey : Text
  pub timestamp : Json
  pub old_signature : Text
  pub new_signature : Text

-- The keys in lower case, which only texts have.
unfoldable pub same_keys : Json → Json → Outcome Bool
same_keys (str a) (str b) = value (same (to_lower a) (to_lower b))
same_keys _ _ = throw (codes "toLowerCase is not a function")

-- The tests on the form of the body. The signatures are tested behind the keys and the time stamp.
unfoldable pub parse_rotate : Option Json → Outcome RotateRequest
parse_rotate none = reply (json_err (codes "Request body must be valid JSON") 400)
parse_rotate (some body) =
    let shard_url = get (codes "shard_url") body in
    let old_pubkey = get (codes "old_pubkey") body in
    let new_pubkey = get (codes "new_pubkey") body in
    let timestamp = get (codes "timestamp") body in
    let old_sig = get (codes "old_signature") body in
    let new_sig = get (codes "new_signature") body in
    if not (truthy shard_url && is_string shard_url && is_http_url (to_text shard_url))
    then reply (json_err (codes "shard_url must be a valid http(s) URL") 400)
    else if not (is_hex_value 64 64 old_pubkey)
    then reply (json_err (codes "old_pubkey must be 64-char hex") 400)
    else if not (is_hex_value 64 64 new_pubkey)
    then reply (json_err (codes "new_pubkey must be 64-char hex") 400)
    else elim (same_keys old_pubkey new_pubkey) [
      | reply e ↦ reply e
      | throw e ↦ throw e
      | value equal ↦
          if equal
          then reply (json_err (codes "new_pubkey must differ from old_pubkey") 400)
          else if not (truthy timestamp && is_digits (to_text timestamp))
          then reply (json_err (codes "timestamp required") 400)
          else if not (is_hex_value 128 128 old_sig)
          then reply (json_err (codes "old_signature must be 128-char hex") 400)
          else if not (is_hex_value 128 128 new_sig)
          then reply (json_err (codes "new_signature must be 128-char hex") 400)
          else value (record {
            shard_url = to_text shard_url;
            old_pubkey = to_text old_pubkey;
            new_pubkey = to_text new_pubkey;
            timestamp = timestamp;
            old_signature = to_text old_sig;
            new_signature = to_text new_sig;
          })
    ]

-- What both keys sign, behind the word that tells them apart.
unfoldable pub rotated_text : RotateRequest → Text
rotated_text r = r.shard_url ∶ to_lower r.old_pubkey ∶ to_lower r.new_pubkey ∶ to_text r.timestamp

-- The record of the shard with the new key.
abbrev pub rekeyed : RotateRequest → ℕ → ShardRecord → ShardRecord
rekeyed r t s =
    if has_url r.shard_url s
    then record {
      url = r.shard_url;
      pubkey = to_lower r.new_pubkey;
      registered_at = s.registered_at;
      updated_at = some t;
      previous_pubkey = some (to_lower r.old_pubkey);
    }
    else s

-- The shard is registered, and under the old key.
unfoldable pub current_key : RotateRequest → List ShardRecord → Outcome Unit
current_key r existing = elim (find (has_url r.shard_url) existing) [
  | none ↦ reply (json_err (codes "shard not found in registered shards") 404)
  | some s ↦
      if same (to_lower s.pubkey) (to_lower r.old_pubkey)
      then value tt
      else reply (json_err (codes "old_pubkey does not match current shard identity") 401)
]

module _ (p : Platform) where
  -- Both keys sign for the rotation.
  unfoldable pub check_rotation : RotateRequest → List ShardRecord → Run p Unit
  check_rotation r existing = do
    lift (current_key r existing)
    stop_if
        (not
          (verify_ed25519 p r.old_pubkey (codes "key_rotation" ∶ rotated_text r) r.old_signature))
        (json_err (codes "old key signature verification failed") 401)
    stop_if
        (not (
          verify_ed25519 p r.new_pubkey (codes "key_rotation_accept" ∶ rotated_text r)
            r.new_signature))
        (json_err (codes "new key self-signature verification failed") 401)

  unfoldable pub store_rotation : RouterCfg → RotateRequest → List ShardRecord → Run p Response
  store_rotation cfg r existing = do
    t ← now p
    kv_put p registered_shards_key (shards (map (rekeyed r t) existing)) none
    version ← bump_version p cfg
    pure (
        json_ok
          (object (
            (codes "rotated", bool true)
            ∷ (codes "shard_url", str r.shard_url)
            ∷ (codes "new_pubkey", str (to_lower r.new_pubkey))
            ∷ (codes "table_version", num version)
            ∷ []))
          [])

  unfoldable pub handle_rotate_shard_key : Request → RouterCfg → Run p Response
  handle_rotate_shard_key request cfg = do
    r ← lift (parse_rotate request.body)
    t ← now p
    stop_if (is_apart t (to_number p r.timestamp) 60_000)
        (json_err (codes "timestamp outside allowed skew") 401)
    existing ← get_registered_shards p
    check_rotation r existing
    store_rotation cfg r existing
