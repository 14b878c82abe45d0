-- ===== src/Combined/Table.antt =====
-- The signed routing table of the combined worker, which the node also keeps in its own cache
-- (combined/worker.js).
use nex_talk_relay.Base.{Text, codes, true, none, some, List, [], ◌∷◌, ◌++◌, map, if◌then◌else◌}
use nex_talk_relay.Js.{Json, null, bool, num, str, arr, from_list, get, object}
use nex_talk_relay.Platform.{Platform, ShardRecord, doc}
use nex_talk_relay.Platform.Exec.{pure, ◌>>=◌, ◌>>◌}
use nex_talk_relay.Platform.Http.{Response, json_ok}
use nex_talk_relay.Platform.World.{Run, now, kv_put, fetch}
use nex_talk_relay.Combined.{NodeEnv, router_env, is_self, node_shard_urls}
use nex_talk_relay.Router.Config.{
  pubkey_of, get_registered_shards, get_prior_shard_counts, get_routing_table_version,
}
use nex_talk_relay.Router.Dispatch.{is_filled}
use nex_talk_relay.Router.Table.{table_fields, public_cache, push_outcome, sign_table}
use nex_talk_relay.Shard.Keys.{ensure_shard_identity}
use nex_talk_relay.Shard.Replicate.{routing_table_kv_key}
use nex_talk_relay.Shard.Table.{handle_routing_table_serve}

-- An element of `shards`, in which the node stands with its own key.
unfoldable pub node_entry : NodeEnv → Text → List ShardRecord → Text → Json
node_entry env own_key registered url = object (
    (codes "url", str url)
    ∷ (
      codes "pubkey",
      if is_self env (some url) then str own_key else pubkey_of null url registered,
    )
    ∷ [])

module _ (p : Platform) where
  unfoldable pub node_signed_table : NodeEnv → Run p Json
  node_signed_table env = do
    urls ← node_shard_urls p env
    prior ← get_prior_shard_counts p env.topology
    version ← get_routing_table_version p env.cfg
    registered ← get_registered_shards p
    t ← now p
    own ← ensure_shard_identity p
    sign_table p (router_env env) (
        table_fields (router_env env) urls prior version
          (map (node_entry env own.public_key_hex registered) urls) t)

  unfoldable pub node_routing_table : NodeEnv → Run p Response
  node_routing_table env = do
    signed ← node_signed_table env
    kv_put p routing_table_kv_key (doc signed) none
    pure (json_ok signed public_cache)

  -- The node stores the table itself instead of a push to its own URL.
  unfoldable pub node_push_one : NodeEnv → Json → Text → Run p Json
  node_push_one env signed url =
      if is_self env (some url)
      then (do
        kv_put p routing_table_kv_key (doc signed) none
        pure (
            object (
              (codes "shardUrl", str url)
              ∷ (codes "ok", bool true)
              ∷ (codes "status", num 200)
              ∷ [])))
      else (do
        answer ← fetch p (url ++ codes "/internal/routing_table") signed
        pure (push_outcome url answer))

  unfoldable pub node_push_all : NodeEnv → Json → List Text → Run p (List Json)
  node_push_all env signed [] = pure []
  node_push_all env signed (url ∷ urls) = do
    outcome ← node_push_one env signed url
    rest ← node_push_all env signed urls
    pure (outcome ∷ rest)

  unfoldable pub node_push : NodeEnv → List Text → Run p Json
  node_push env urls = do
    signed ← node_signed_table env
    results ← node_push_all env signed urls
    pure (
        object (
          (codes "version", get (codes "version") signed)
          ∷ (codes "results", arr (from_list results))
          ∷ []))

  unfoldable pub node_table_serve : NodeEnv → Run p Response
  node_table_serve env =
      if is_filled env.signing_key then node_routing_table env else handle_routing_table_serve p
