-- ===== src/Router/Topology.antt =====
-- The list of shards: the configured ones and the registered ones (router/router.js).
pub mod Append
use nex_talk_relay.Base.{
  Text, same, Bool, true, false, Option, none, some, List, [], ◌∷◌, ◌++◌, any, map, if◌then◌else◌,
}
use nex_talk_relay.Platform.{ShardRecord}

-- `merged.includes(url)`
abbrev pub includes : Text → List Text → Bool
includes url urls = any (same url) urls

-- the loop at the end of `getShardUrls`
unfoldable pub merge_urls : List Text → List Text → List Text
merge_urls merged [] = merged
merge_urls merged (url ∷ urls) =
    merge_urls (if includes url merged then merged else merged ++ url ∷ []) urls

-- `getShardUrls`, where the base list and the registered shards have been read
unfoldable pub shard_urls : List Text → List ShardRecord → List Text
shard_urls base registered = merge_urls base (map (λ (s : ShardRecord). s.url) registered)
