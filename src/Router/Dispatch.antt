-- ===== src/Router/Dispatch.antt =====
-- The entry points of the Router: the default export of router/router.js, where ROUTER_ADMIN_KV is
-- bound. What it logs is left out.
use nex_talk_relay.Base.{
  Text, codes, same, Bool, true, false, not, ◌&&◌, Option, none, some, List, [], ◌∷◌, ◌++◌, map,
  length, if◌then◌else◌,
}
use nex_talk_relay.Js.{Json, num, str, arr, from_list, object}
use nex_talk_relay.Js.Regex.{bearer}
use nex_talk_relay.Platform.{Platform, ShardRecord}
use nex_talk_relay.Platform.Exec.{Outcome, value, reply, throw, pure, stop_if, ◌>>=◌, ◌>>◌}
use nex_talk_relay.Platform.Http.{Request, Response, json_ok, json_err}
use nex_talk_relay.Platform.World.{World, Run}
use nex_talk_relay.Router.Answers.{number_json, router_hello}
use nex_talk_relay.Router.Config.{
  RouterEnv, get_registered_shards, get_shard_urls, get_prior_shard_counts,
  get_routing_table_version,
}
use nex_talk_relay.Router.Enroll.{handle_register}
use nex_talk_relay.Router.Register.Handlers.{handle_pow_challenge, handle_register_shard}
use nex_talk_relay.Router.Resolve.{handle_resolve}
use nex_talk_relay.Router.Ring.{replication_factor}
use nex_talk_relay.Router.Rotate.{handle_rotate_shard_key}
use nex_talk_relay.Router.Status.{HealthCache, handle_status}
use nex_talk_relay.Router.Table.{text_array, handle_routing_table, push_routing_table_to_shards}
use nex_talk_relay.Shard.Admin.{is_set, or_empty}
use nex_talk_relay.Shard.Dispatch.{is_route, plain_response}

abbrev pub is_filled : Text → Bool
is_filled [] = false
is_filled (c ∷ t) = true

-- `env.SERVER_SECRET`, `env.ROUTER_SIGNING_KEY` and `env.ROUTER_SIGNING_PUBLIC` are set.
unfoldable pub is_configured : RouterEnv → Bool
is_configured env =
    is_filled env.server_secret && is_filled env.signing_key && is_filled env.signing_public

-- The Router compares the secret with `!==`.
unfoldable pub is_operator : Request → RouterEnv → Bool
is_operator request env =
    if is_set env.shared_secret
    then (elim (bearer (or_empty request.authorization)) [
      | none ↦ false
      | some provided ↦ same provided (or_empty env.shared_secret)
    ])
    else true

-- The list of shards, or `none` for an exception or an empty list.
unfoldable pub some_urls : Outcome (List Text) → Option (List Text)
some_urls (value (u ∷ us)) = some (u ∷ us)
some_urls _ = none

abbrev pub optional_field : {A : Type 0} → Text → (A → Json) → Option A → List (Text × Json)
optional_field k f none = []
optional_field k f (some a) = (k, f a) ∷ []

unfoldable pub shard_json : ShardRecord → Json
shard_json s = object (
    (codes "url", str s.url)
      ∷ (codes "pubkey", str s.pubkey)
      ∷ (codes "registered_at", num s.registered_at)
      ∷ optional_field (codes "updated_at") num s.updated_at
    ++ optional_field (codes "previous_pubkey") str s.previous_pubkey)

abbrev pub router_answer : HealthCache → Outcome (Response × HealthCache) → Response × HealthCache
router_answer cache (value r) = r
router_answer cache (reply e) = (e, cache)
router_answer cache (throw t) = (json_err (codes "Internal router error") 500, cache)

module _ (p : Platform) where
  unfoldable pub known_shard_urls : RouterEnv → Run p (Option (List Text))
  known_shard_urls env w = let (r, v) = get_shard_urls p env.topology w in (value (some_urls r), v)

  unfoldable pub push_now : Request → RouterEnv → List Text → Run p Response
  push_now request env urls = do
    stop_if (not (is_operator request env)) (json_err (codes "Unauthorized") 401)
    outcome ← push_routing_table_to_shards p env urls
    pure (json_ok outcome [])

  unfoldable pub show_config : Request → RouterEnv → List Text → Run p Response
  show_config request env urls = do
    stop_if (not (is_operator request env)) (json_err (codes "Unauthorized") 401)
    registered ← get_registered_shards p
    prior ← get_prior_shard_counts p env.topology
    version ← get_routing_table_version p env.cfg
    pure (
        json_ok
          (object (
            (codes "shard_urls", text_array urls)
            ∷ (codes "registered_shards", arr (from_list (map shard_json registered)))
            ∷ (codes "prior_shard_counts", arr (from_list prior))
            ∷ (codes "routing_table_version", num version)
            ∷ (
              codes "replication_factor",
              number_json (replication_factor env.replication_factor (length urls)),
            )
            ∷ (codes "source", str (codes "ROUTER_ADMIN_KV (falls back to vars if key absent)"))
            ∷ []))
          [])

  abbrev pub with_cache : HealthCache → Run p Response → Run p (Response × HealthCache)
  with_cache cache m = do r ← m; pure (r, cache)

  -- The `try` block, with the response behind it. `handleStatus` alone touches the cache.
  unfoldable pub route_request :
      Request → RouterEnv → List Text → HealthCache → Run p (Response × HealthCache)
  route_request request env urls cache =
      if is_route (codes "/routing_table.json") (codes "GET") request
      then with_cache cache (handle_routing_table p env)
      else if is_route (codes "/register") (codes "POST") request
      then with_cache cache (handle_register p request env urls)
      else if is_route (codes "/resolve") (codes "GET") request
      then with_cache cache (handle_resolve p request env urls)
      else if is_route (codes "/status") (codes "GET") request
      then handle_status p cache urls
      else if is_route (codes "/server_hello") (codes "POST") request
      then with_cache cache (router_hello p request env)
      else if is_route (codes "/pow_challenge") (codes "GET") request
      then with_cache cache (handle_pow_challenge p request env.cfg)
      else if is_route (codes "/register_shard") (codes "POST") request
      then with_cache cache (handle_register_shard p request env.cfg)
      else if is_route (codes "/rotate_shard_key") (codes "POST") request
      then with_cache cache (handle_rotate_shard_key p request env.cfg)
      else if is_route (codes "/admin/push_routing_table") (codes "POST") request
      then with_cache cache (push_now request env urls)
      else if is_route (codes "/admin/config") (codes "GET") request
      then with_cache cache (show_config request env urls)
      else with_cache cache (pure (plain_response (codes "Not Found") 404))

  -- `fetch`, with the cache of the health before and after
  unfoldable pub router_fetch :
      Request → RouterEnv → HealthCache → World p → (Response × HealthCache) × World p
  router_fetch request env cache w =
      if same request.method (codes "OPTIONS")
      then ((plain_response [] 204, cache), w)
      else if not (is_configured env)
      then ((json_err (codes "Router misconfiguration") 500, cache), w)
      else (let (r, u) = get_shard_urls p env.topology w in
          elim (some_urls r) [
            | none ↦ ((json_err (codes "Router misconfiguration") 500, cache), u)
            | some urls ↦
                (let (o, v) = route_request request env urls cache u in (router_answer cache o, v))
          ])

  abbrev pub push_known : RouterEnv → Option (List Text) → Run p Unit
  push_known env none = pure tt
  push_known env (some urls) = do push_routing_table_to_shards p env urls; pure tt

  unfoldable pub scheduled : RouterEnv → Run p Unit
  scheduled env =
      if is_configured env then (do urls ← known_shard_urls env; push_known env urls) else pure tt
