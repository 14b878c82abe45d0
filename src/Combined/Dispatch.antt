-- ===== src/Combined/Dispatch.antt =====
-- The entry points of the combined worker: its default export (combined/worker.js), where both KV
-- namespaces are bound. What it logs is left out.
use nex_talk_relay.Base.{Text, codes, same, not, Option, none, some, List, [], if◌then◌else◌}
use nex_talk_relay.Platform.{Platform}
use nex_talk_relay.Platform.Exec.{Outcome, value, reply, throw, pure, stop_if, ◌>>=◌, ◌>>◌}
use nex_talk_relay.Platform.Http.{Request, Response, err, json_ok}
use nex_talk_relay.Platform.World.{World, Run, self_register, wait_until}
use nex_talk_relay.Combined.{NodeEnv, router_env, shard_env, with_err, node_shard_urls}
use nex_talk_relay.Combined.Admin.{node_hello, node_admin_rotate}
use nex_talk_relay.Combined.Create.{node_create}
use nex_talk_relay.Combined.Enroll.{node_register}
use nex_talk_relay.Combined.Resolve.{node_resolve}
use nex_talk_relay.Combined.Table.{node_table_serve, node_push}
use nex_talk_relay.Router.Dispatch.{is_filled, is_configured, is_operator, some_urls, show_config}
use nex_talk_relay.Router.Register.Handlers.{handle_pow_challenge, handle_register_shard}
use nex_talk_relay.Router.Rotate.{handle_rotate_shard_key}
use nex_talk_relay.Router.Status.{HealthCache, handle_status}
use nex_talk_relay.Shard.{Cfg}
use nex_talk_relay.Shard.Admin.{handle_health, handle_admin_shard_info, handle_admin_register}
use nex_talk_relay.Shard.Dispatch.{is_route, plain_response}
use nex_talk_relay.Shard.Exists.{handle_exists}
use nex_talk_relay.Shard.Read.{handle_read}
use nex_talk_relay.Shard.Replicate.{handle_replicate}
use nex_talk_relay.Shard.Send.{handle_send}
use nex_talk_relay.Shard.Table.{handle_routing_table_push}

abbrev pub node_result : HealthCache → Outcome (Response × HealthCache) → Response × HealthCache
node_result cache (value r) = r
node_result cache (reply e) = (e, cache)
node_result cache (throw t) = (err (codes "Internal server error") 500, cache)

module _ (p : Platform) where
  unfoldable pub node_push_now : Request → NodeEnv → List Text → Run p Response
  node_push_now request env urls = do
    stop_if (not (is_operator request (router_env env))) (err (codes "Unauthorized") 401)
    outcome ← node_push p env urls
    pure (json_ok outcome [])

  abbrev pub keep_cache : HealthCache → Run p Response → Run p (Response × HealthCache)
  keep_cache cache m = do r ← m; pure (r, cache)

  abbrev pub not_found : Run p Response
  not_found = pure (plain_response (codes "Not Found") 404)

  -- The routes of the Router, where the list of shards is known.
  unfoldable pub router_routes :
      Request → NodeEnv → Cfg → HealthCache → List Text → Run p (Response × HealthCache)
  router_routes request env cfg cache urls =
      if is_route (codes "/register") (codes "POST") request
      then keep_cache cache (node_register p request env cfg urls)
      else if is_route (codes "/resolve") (codes "GET") request
      then keep_cache cache (node_resolve p request env urls)
      else if is_route (codes "/status") (codes "GET") request
      then handle_status p cache urls
      else if is_route (codes "/pow_challenge") (codes "GET") request
      then keep_cache cache (with_err p (handle_pow_challenge p request env.cfg))
      else if is_route (codes "/register_shard") (codes "POST") request
      then keep_cache cache (with_err p (handle_register_shard p request env.cfg))
      else if is_route (codes "/rotate_shard_key") (codes "POST") request
      then keep_cache cache (with_err p (handle_rotate_shard_key p request env.cfg))
      else if is_route (codes "/admin/push_routing_table") (codes "POST") request
      then keep_cache cache (node_push_now request env urls)
      else if is_route (codes "/admin/config") (codes "GET") request
      then keep_cache cache (with_err p (show_config p request (router_env env) urls))
      else keep_cache cache not_found

  abbrev pub with_urls :
      Request → NodeEnv → Cfg → HealthCache → Option (List Text) → Run p (Response × HealthCache)
  with_urls request env cfg cache none = pure (err (codes "Router misconfiguration") 500, cache)
  with_urls request env cfg cache (some urls) = router_routes request env cfg cache urls

  -- An exception of `getShardUrls` is caught where it is called.
  unfoldable pub as_router : Request → NodeEnv → Cfg → HealthCache → Run p (Response × HealthCache)
  as_router request env cfg cache w =
      let (r, u) = node_shard_urls p env w in with_urls request env cfg cache (some_urls r) u

  -- The `try` block, with the response behind it: first the routes of the shard.
  unfoldable pub node_routes :
      Request → NodeEnv → Cfg → HealthCache → Run p (Response × HealthCache)
  node_routes request env cfg cache =
      if is_route (codes "/health") (codes "GET") request
      then keep_cache cache (handle_health p request (shard_env env))
      else if is_route (codes "/server_hello") (codes "POST") request
      then keep_cache cache (node_hello p request env)
      else if is_route (codes "/create") (codes "POST") request
      then keep_cache cache (node_create p request env cfg)
      else if is_route (codes "/exists") (codes "GET") request
      then keep_cache cache (handle_exists p request)
      else if is_route (codes "/send") (codes "POST") request
      then keep_cache cache (handle_send p request (shard_env env) cfg)
      else if is_route (codes "/read") (codes "GET") request
      then keep_cache cache (handle_read p request (shard_env env) cfg)
      else if is_route (codes "/internal/routing_table") (codes "POST") request
      then keep_cache cache (handle_routing_table_push p request (shard_env env))
      else if is_route (codes "/internal/replicate") (codes "POST") request
      then keep_cache cache (handle_replicate p request (shard_env env) cfg)
      else if is_route (codes "/admin/shard_info") (codes "GET") request
      then keep_cache cache (handle_admin_shard_info p request (shard_env env))
      else if is_route (codes "/admin/register") (codes "POST") request
      then keep_cache cache (handle_admin_register p request (shard_env env))
      else if is_route (codes "/admin/rotate_key") (codes "POST") request
      then keep_cache cache (node_admin_rotate p request env)
      else if is_route (codes "/routing_table.json") (codes "GET") request
      then keep_cache cache (node_table_serve p env)
      else if is_configured (router_env env)
      then as_router request env cfg cache
      else keep_cache cache not_found

  -- `fetch`, with the cache of the health before and after
  unfoldable pub node_fetch :
      Request → NodeEnv → Cfg → HealthCache → World p → (Response × HealthCache) × World p
  node_fetch request env cfg cache w =
      if same request.method (codes "OPTIONS")
      then ((plain_response [] 204, cache), w)
      else if not (is_filled env.signing_public)
      then ((err (codes "Server misconfiguration") 500, cache), w)
      else (let (_, u) = wait_until p self_register w in
          let (o, v) = node_routes request env cfg cache u in (node_result cache o, v))

  abbrev pub push_to : NodeEnv → Option (List Text) → Run p Unit
  push_to env none = pure tt
  push_to env (some urls) = do node_push p env urls; pure tt

  -- An exception of `getShardUrls` is caught, and ends the work.
  unfoldable pub push_if_known : NodeEnv → Run p Unit
  push_if_known env w = let (r, u) = node_shard_urls p env w in push_to env (some_urls r) u

  unfoldable pub node_scheduled : NodeEnv → Run p Unit
  node_scheduled env = do
    wait_until p self_register
    (if is_configured (router_env env) then push_if_known env else pure tt)
