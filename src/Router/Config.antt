-- ===== src/Router/Config.antt =====
-- The configuration that the Router reads from ROUTER_ADMIN_KV before its variables
-- (router/router.js). The elements of a configured list of URLs are taken as texts.
use nex_talk_relay.Base.{
  Text, codes, same, ℕ, Option, none, some, List, [], ◌∷◌, map, if◌then◌else◌,
}
use nex_talk_relay.Encoding.{bytes_to_hex, utf8}
use nex_talk_relay.Js.{Json, Number, arr, nil, cons, str, is_array, elements, to_text}
use nex_talk_relay.Platform.{Platform, Stored, ShardRecord, as_doc}
use nex_talk_relay.Platform.Exec.{Outcome, value, throw, pure, lift, ◌>>=◌}
use nex_talk_relay.Platform.World.{Run, kv_get}
use nex_talk_relay.Router.Register.{
  RouterCfg, registered_shards_key, routing_table_version_key, registered_of, current_version,
}
use nex_talk_relay.Shard.Admin.{or_null}
use nex_talk_relay.Router.Topology.{shard_urls}

-- The variables of the Router's `env` with the topology.
pub record TopologyEnv : Type 0 where
  pub shard_urls : Option Text
  pub prior_shard_counts : Option Text

-- The variables of the Router's `env`. `replication_factor` is `none` where the variable is not set.
pub record RouterEnv : Type 0 where
  pub server_secret : Text
  pub signing_key : Text
  pub signing_public : Text
  pub shared_secret : Option Text
  pub replication_factor : Option Number
  pub topology : TopologyEnv
  pub cfg : RouterCfg

-- `map[url] || null` for the map of `getShardPubkeys`, in which a later shard replaces an earlier one
unfoldable pub pubkey_of : Json → Text → List ShardRecord → Json
pubkey_of last url [] = last
pubkey_of last url (s ∷ ss) =
    pubkey_of (if same s.url url then or_null (some s.pubkey) else last) url ss

-- The elements of a value that is spread, `[...base]`.
unfoldable pub spread : Json → Outcome (List Text)
spread (arr xs) = value (map to_text (elements (arr xs)))
spread (str t) = value (map (λ c. c ∷ []) t)
spread _ = throw (codes "base is not iterable")

-- `parsed` where it is an array that is not empty
unfoldable pub filled : Json → Option Json
filled (arr (cons v vs)) = some (arr (cons v vs))
filled _ = none

module _ (p : Platform) where
  -- `hmacHex`, with the message before the secret
  unfoldable pub hmac_hex : Text → Text → Text
  hmac_hex message secret = bytes_to_hex (p.hmac (utf8 secret) (utf8 message))

  abbrev pub parse_or_empty : Text → Json
  parse_or_empty t = elim (p.parse t) [ none ↦ arr nil | some v ↦ v ]

  -- `JSON.parse(env.SHARD_URLS || "[]")`, or `[]` for its exception
  unfoldable pub configured_urls : TopologyEnv → Json
  configured_urls env = elim env.shard_urls [
    | none ↦ arr nil
    | some [] ↦ arr nil
    | some (c ∷ t) ↦ parse_or_empty (c ∷ t)
  ]

  unfoldable pub base_urls : TopologyEnv → Option Stored → Outcome Json
  base_urls env none = value (configured_urls env)
  base_urls env (some s) = elim (as_doc s) [
    | none ↦ throw (codes "SyntaxError")
    | some v ↦ value (elim (filled v) [ none ↦ configured_urls env | some base ↦ base ])
  ]

  unfoldable pub get_registered_shards : Run p (List ShardRecord)
  get_registered_shards = do raw ← kv_get p registered_shards_key; pure (registered_of raw)

  unfoldable pub get_shard_urls : TopologyEnv → Run p (List Text)
  get_shard_urls env = do
    raw ← kv_get p (codes "shard_urls")
    base ← lift (base_urls env raw)
    registered ← get_registered_shards
    urls ← lift (spread base)
    pure (shard_urls urls registered)

  abbrev pub array_or_empty : Json → List Json
  array_or_empty v = if is_array v then elements v else []

  unfoldable pub configured_counts : TopologyEnv → List Json
  configured_counts env = elim env.prior_shard_counts [
    | none ↦ []
    | some [] ↦ []
    | some (c ∷ t) ↦ array_or_empty (parse_or_empty (c ∷ t))
  ]

  -- `getPriorShardCounts`, at what is stored
  unfoldable pub prior_counts_of : TopologyEnv → Option Stored → List Json
  prior_counts_of env none = configured_counts env
  prior_counts_of env (some s) = elim (as_doc s) [
    | none ↦ configured_counts env
    | some v ↦ if is_array v then elements v else configured_counts env
  ]

  unfoldable pub get_prior_shard_counts : TopologyEnv → Run p (List Json)
  get_prior_shard_counts env = do
    raw ← kv_get p (codes "prior_shard_counts")
    pure (prior_counts_of env raw)

  unfoldable pub get_routing_table_version : RouterCfg → Run p ℕ
  get_routing_table_version cfg = do
    raw ← kv_get p routing_table_version_key
    pure (current_version cfg.routing_table_version raw)
