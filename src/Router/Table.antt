-- ===== src/Router/Table.antt =====
-- The routing table that the Router signs, serves and pushes to the shards (router/router.js).
pub mod Cached
use nex_talk_relay.Base.{
  Text, codes, ℕ, ◌+◌, ◌*◌, Bool, true, false, Option, none, some, List, [], ◌∷◌, ◌++◌, map,
  decimal, length, if◌then◌else◌,
}
use nex_talk_relay.Js.{Json, null, bool, num, str, arr, from_list, get, object}
use nex_talk_relay.Platform.{Platform, ShardRecord, Fetched, unreachable, answered}
use nex_talk_relay.Platform.Exec.{pure, ◌>>=◌, ◌>>◌}
use nex_talk_relay.Platform.Http.{Response, Headers, json_ok}
use nex_talk_relay.Platform.World.{Run, now, fetch}
use nex_talk_relay.Router.Answers.{number_json, sign_hex}
use nex_talk_relay.Router.Config.{
  RouterEnv, pubkey_of, get_registered_shards, get_shard_urls, get_prior_shard_counts,
  get_routing_table_version,
}
use nex_talk_relay.Router.Ring.{replication_factor}
use nex_talk_relay.Shard.Admin.{is_ok}

abbrev pub routing_table_ttl_seconds : ℕ
routing_table_ttl_seconds = 3600

abbrev pub text_array : List Text → Json
text_array ts = arr (from_list (map str ts))

-- An element of `shards`.
unfoldable pub shard_entry : List ShardRecord → Text → Json
shard_entry registered url =
    object ((codes "url", str url) ∷ (codes "pubkey", pubkey_of null url registered) ∷ [])

-- `body`, from what was read and the time
unfoldable pub table_fields :
    RouterEnv → List Text → List Json → ℕ → List Json → ℕ → List (Text × Json)
table_fields env urls prior version entries t =
    (codes "version", num version)
    ∷ (codes "generated_at", num t)
    ∷ (codes "expires_at", num (t + routing_table_ttl_seconds * 1000))
    ∷ (codes "algorithm", str (codes "sha256-hashpoint-modn-era-fallback-v1"))
    ∷ (codes "shard_urls", text_array urls)
    ∷ (codes "shards", arr (from_list entries))
    ∷ (
      codes "replication_factor",
      number_json (replication_factor env.replication_factor (length urls)),
    )
    ∷ (codes "prior_shard_counts", arr (from_list prior))
    ∷ (codes "router_public_key", str env.signing_public)
    ∷ []

abbrev pub public_cache : Headers
public_cache =
    (codes "Content-Type", codes "application/json")
    ∷ (
      codes "Cache-Control",
      codes "public, max-age="
          ++ (decimal routing_table_ttl_seconds
              ++ (codes ", s-maxage=" ++ decimal routing_table_ttl_seconds)),
    )
    ∷ []

-- What became of a push to one shard.
unfoldable pub push_outcome : Text → Fetched → Json
push_outcome url (answered status body) = object (
    (codes "shardUrl", str url)
    ∷ (codes "ok", bool (is_ok status))
    ∷ (codes "status", num status)
    ∷ [])
push_outcome url (unreachable e) =
    object ((codes "shardUrl", str url) ∷ (codes "ok", bool false) ∷ (codes "error", str e) ∷ [])

module _ (p : Platform) where
  -- `{ ...body, signature }`
  unfoldable pub sign_table : RouterEnv → List (Text × Json) → Run p Json
  sign_table env body = do
    signature ← sign_hex p env.signing_key (p.stringify (object body))
    pure (object (body ++ (codes "signature", str signature) ∷ []))

  unfoldable pub build_signed_routing_table : RouterEnv → Run p Json
  build_signed_routing_table env = do
    urls ← get_shard_urls p env.topology
    prior ← get_prior_shard_counts p env.topology
    version ← get_routing_table_version p env.cfg
    registered ← get_registered_shards p
    t ← now p
    sign_table env (table_fields env urls prior version (map (shard_entry registered) urls) t)

  unfoldable pub handle_routing_table : RouterEnv → Run p Response
  handle_routing_table env = do
    signed ← build_signed_routing_table env
    pure (json_ok signed public_cache)

  -- The pushes of `Promise.all`, each of which catches its own failure.
  unfoldable pub push_all : Json → List Text → Run p (List Json)
  push_all signed [] = pure []
  push_all signed (url ∷ urls) = do
    answer ← fetch p (url ++ codes "/internal/routing_table") signed
    rest ← push_all signed urls
    pure (push_outcome url answer ∷ rest)

  unfoldable pub push_routing_table_to_shards : RouterEnv → List Text → Run p Json
  push_routing_table_to_shards env urls = do
    signed ← build_signed_routing_table env
    results ← push_all signed urls
    pure (
        object (
          (codes "version", get (codes "version") signed)
          ∷ (codes "results", arr (from_list results))
          ∷ []))
