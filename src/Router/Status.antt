-- ===== src/Router/Status.antt =====
-- The health of the shards and `handleStatus` (router/router.js). The cache of the health is a
-- variable of the worker's own memory, which is passed on explicitly.
pub mod AllDown
use nex_talk_relay.Base.{
  Text, codes, ℕ, ◌-◌, Bool, true, false, ◌&&◌, Option, none, some, List, [], ◌∷◌, ◌++◌, any, map,
  length, ltb, if◌then◌else◌,
}
use nex_talk_relay.Js.{Json, undefined, bool, num, str, arr, from_list, object}
use nex_talk_relay.Platform.{Platform, Fetched, unreachable, answered}
use nex_talk_relay.Platform.Exec.{pure, ◌>>=◌, ◌>>◌}
use nex_talk_relay.Platform.Http.{Response, json_ok}
use nex_talk_relay.Platform.World.{Run, now, fetch}
use nex_talk_relay.Router.Topology.{includes}
use nex_talk_relay.Shard.Admin.{is_ok}

-- `healthCache`
pub record HealthCache : Type 0 where
  pub checked_at : ℕ
  pub healthy_urls : Option (List Text)

abbrev pub no_health : HealthCache
no_health = record { checked_at = 0; healthy_urls = none }

abbrev pub health_cache_ttl_ms : ℕ
health_cache_ttl_ms = 10_000

abbrev pub is_healthy_answer : Fetched → Bool
is_healthy_answer (unreachable e) = false
is_healthy_answer (answered status body) = is_ok status

-- The cached list, unless it is none or too old.
unfoldable pub fresh_health : ℕ → HealthCache → Option (List Text)
fresh_health t cache =
    if ltb (t - cache.checked_at) health_cache_ttl_ms then cache.healthy_urls else none

-- `healthy.length ? healthy : shardUrls`
unfoldable pub healthy_or_all : List Text → List Text → List Text
healthy_or_all [] urls = urls
healthy_or_all (u ∷ us) urls = u ∷ us

unfoldable pub status_entry : List Text → Text → Json
status_entry healthy url =
    object ((codes "url", str url) ∷ (codes "healthy", bool (includes url healthy)) ∷ [])

unfoldable pub status_body : List Text → List Text → Json
status_body urls healthy = object (
    (codes "totalShards", num (length urls))
    ∷ (codes "healthyShards", num (length healthy))
    ∷ (codes "shards", arr (from_list (map (status_entry healthy) urls)))
    ∷ [])

module _ (p : Platform) where
  unfoldable pub check_shard_health : Text → Run p Bool
  check_shard_health url = do
    answer ← fetch p (url ++ codes "/health") undefined
    pure (is_healthy_answer answer)

  -- The shards whose check succeeds.
  unfoldable pub check_all : List Text → Run p (List Text)
  check_all [] = pure []
  check_all (url ∷ urls) = do
    ok ← check_shard_health url
    rest ← check_all urls
    pure (if ok then url ∷ rest else rest)

  -- The list that is known at the time `t`, or the result of a new check.
  unfoldable pub known_or_checked :
      HealthCache → List Text → ℕ → Option (List Text) → Run p (List Text × HealthCache)
  known_or_checked cache urls t (some healthy) = pure (healthy, cache)
  known_or_checked cache urls t none = do
    healthy ← check_all urls
    let known = healthy_or_all healthy urls
    pure (known, record { checked_at = t; healthy_urls = some known })

  unfoldable pub get_healthy_shards : HealthCache → List Text → Run p (List Text × HealthCache)
  get_healthy_shards cache urls = do t ← now p; known_or_checked cache urls t (fresh_health t cache)

  unfoldable pub handle_status : HealthCache → List Text → Run p (Response × HealthCache)
  handle_status cache urls = do
    (healthy, next) ← get_healthy_shards cache urls
    pure (json_ok (status_body urls healthy) [], next)
