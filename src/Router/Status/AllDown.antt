-- ===== src/Router/Status/AllDown.antt =====
-- What `handleStatus` says when no shard answers its health check (router/router.js).
use nex_talk_relay.Base.{
  Text, codes, same_refl, ℕ, ◌≡◌, refl, true, false, none, some, ◌+◌, List, [], ◌∷◌, ◌++◌, all, map,
  length, arith,
}
use nex_talk_relay.Js.{Json, undefined, bool, num, str, arr, from_list, object}
use nex_talk_relay.Platform.{Platform}
use nex_talk_relay.Platform.Exec.{value}
use nex_talk_relay.Platform.Http.{json_ok}
use nex_talk_relay.Platform.World.{World, now, fetch}
use nex_talk_relay.Router.Status.{
  HealthCache, is_healthy_answer, fresh_health, healthy_or_all, status_entry, status_body,
  check_shard_health, check_all, get_healthy_shards, known_or_checked, handle_status,
}
use nex_talk_relay.Router.Topology.{includes}

-- The entry of a shard that is up.
abbrev pub up : Text → Json
up url = object ((codes "url", str url) ∷ (codes "healthy", bool true) ∷ [])

weaken-includes :
    (u : Text) (us vs : List Text)
    → all (λ v. includes v us) vs ≡ true
    → all (λ v. includes v (u ∷ us)) vs ≡ true
weaken-includes u us [] h = refl
weaken-includes u us (v ∷ vs) h = ground (arith, weaken-includes u us vs)

all-includes : (us : List Text) → all (λ u. includes u us) us ≡ true
all-includes [] = refl
all-includes (u ∷ us) = ground (arith, same_refl u, weaken-includes u us us (all-includes us))

map-up :
    (healthy urls : List Text)
    → all (λ u. includes u healthy) urls ≡ true
    → map (status_entry healthy) urls ≡ map up urls
unfolding status_entry
map-up healthy [] h = refl
map-up healthy (u ∷ us) h =
    let here : includes u healthy ≡ true = ground (arith, h) in
    let rest : all (λ v. includes v healthy) us ≡ true = ground (arith, h) in
    rw (here, map-up healthy us rest) refl

-- What is reported where every shard is up.
abbrev pub all_up : List Text → Json
all_up urls = object (
    (codes "totalShards", num (length urls))
    ∷ (codes "healthyShards", num (length urls))
    ∷ (codes "shards", arr (from_list (map up urls)))
    ∷ [])

module _ (p : Platform) where
  check_all-down :
      (urls : List Text) (w : World p)
      → ((n : ℕ) (url : Text)
          → is_healthy_answer (p.fetch n (url ++ codes "/health") undefined) ≡ false)
      → (v : World p) × (check_all p urls w ≡ (value [], v))
  unfolding check_all check_shard_health fetch
  check_all-down [] w down = (w, refl)
  check_all-down (url ∷ urls) w down =
      let (v, run) =
        check_all-down urls
          (record w {
            calls = w.calls + 1;
            sent = w.sent ++ (url ++ codes "/health", undefined) ∷ [];
          })
          down in
      (v, rw (run, down w.calls url) refl)

  -- Where no shard answers its health check and no fresh list is cached, the status says of every
  -- shard that it is healthy, the same as if all of them were up, and the list of all of them is
  -- cached as the healthy ones.
  pub handle_status-all_down :
      (cache : HealthCache) (urls : List Text) (w : World p)
      → ((n : ℕ) (url : Text)
          → is_healthy_answer (p.fetch n (url ++ codes "/health") undefined) ≡ false)
      → fresh_health w.time cache ≡ none
      → (handle_status p cache urls w).0
        ≡ value (json_ok (all_up urls) [], record { checked_at = w.time; healthy_urls = some urls })
  unfolding handle_status get_healthy_shards known_or_checked now status_body healthy_or_all
  handle_status-all_down cache urls w down stale =
      let (v, run) = check_all-down urls w down in
      rw (stale, run, map-up urls urls (all-includes urls)) refl
