-- ===== src/Combined/Admin.antt =====
-- `handleServerHello` and `handleAdminRotateKey` of combined/worker.js.
use nex_talk_relay.Base.{Text, codes, same, false, not, ◌&&◌, none, [], decimal, if◌then◌else◌}
use nex_talk_relay.Js.{Json, null}
use nex_talk_relay.Platform.{Platform, identity}
use nex_talk_relay.Platform.Exec.{pure, stop_if, ◌>>=◌, ◌>>◌}
use nex_talk_relay.Platform.Http.{Request, Response, err, json}
use nex_talk_relay.Platform.World.{Run, now, kv_put, kv_delete}
use nex_talk_relay.Combined.{NodeEnv, router_env, shard_env, no_store, with_err}
use nex_talk_relay.Router.Answers.{router_hello}
use nex_talk_relay.Router.Dispatch.{is_filled}
use nex_talk_relay.Shard.Admin.{
  self_register_kv_key, is_set, or_empty, is_authorized, strip_slash, handle_server_hello,
}
use nex_talk_relay.Shard.Joining.{ensure_self_registered}
use nex_talk_relay.Shard.Keys.{shard_identity_kv_key, ensure_shard_identity, sign_with_shard_key}
use nex_talk_relay.Shard.Rotate.{
  Rotation, migration_message, accept_message, rotation_result, new_identity, notify_router,
}

module _ (p : Platform) where
  -- The Router's key where there is one, and otherwise the shard's.
  unfoldable pub node_hello : Request → NodeEnv → Run p Response
  node_hello request env =
      if is_filled env.signing_key && is_filled env.signing_public
      then (do r ← with_err p (router_hello p request (router_env env)); pure (no_store r))
      else handle_server_hello p request

  -- A node that is its own Router is not told over the network.
  unfoldable pub notify_other : NodeEnv → Rotation → Text → Text → Run p Json
  notify_other env r old_sig new_sig =
      if same (strip_slash (or_empty env.router_url)) (or_empty env.self_url)
      then pure (rotation_result r false null [])
      else notify_router p (shard_env env) r old_sig new_sig

  unfoldable pub node_rotate : NodeEnv → Rotation → Run p Response
  node_rotate env r = do
    old_sig ← sign_with_shard_key p r.old.private_key (migration_message r)
    new_sig ← sign_with_shard_key p r.new.private_key (accept_message r)
    kv_put p shard_identity_kv_key (identity r.new) none
    kv_delete p self_register_kv_key
    result ← notify_other env r old_sig new_sig
    pure (json result)

  unfoldable pub node_admin_rotate : Request → NodeEnv → Run p Response
  node_admin_rotate request env = do
    stop_if (not (is_authorized request (shard_env env))) (err (codes "Unauthorized") 401)
    stop_if (not (is_set env.self_url)) (err (codes "SELF_URL is not configured on this node") 500)
    old ← ensure_shard_identity p
    new ← new_identity p
    t ← now p
    node_rotate env
        (record { shard_url = or_empty env.self_url; old = old; new = new; timestamp = decimal t })

  -- `ensureSelfRegistered`: a node that is its own Router does not register.
  unfoldable pub node_self_registered : (Text → Text) → NodeEnv → Run p Unit
  node_self_registered encode_uri_component env =
      if same (or_empty env.router_url) (or_empty env.self_url)
      then pure tt
      else ensure_self_registered p encode_uri_component (shard_env env)
