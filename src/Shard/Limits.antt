-- ===== src/Shard/Limits.antt =====
-- `rateLimit`, `clientIp` and `isBacklogStale` of shard/worker.js.
pub mod Counting
use nex_talk_relay.Base.{
  Text, codes, ℕ, ◌+◌, ◌-◌, ◌*◌, ◌/◌, Bool, true, false, Option, none, some, [], ◌∷◌, ◌++◌, decimal,
  leb, ltb, if◌then◌else◌,
}
use nex_talk_relay.Js.{Number}
use nex_talk_relay.Platform.{Platform, Stored, text, number_of}
use nex_talk_relay.Platform.Exec.{◌>>=◌, ◌>>◌, pure}
use nex_talk_relay.Platform.World.{Run, now, kv_get, kv_put}
use nex_talk_relay.Platform.Http.{Request}

-- `request.headers.get("CF-Connecting-IP") || "unknown"`
unfoldable pub client_ip : Request → Text
client_ip request = elim request.connecting_ip [
  | none ↦ codes "unknown"
  | some [] ↦ codes "unknown"
  | some (c ∷ t) ↦ c ∷ t
]

-- The key of the counter of a bucket in the window that holds the time `t`.
unfoldable pub bucket_key : Text → ℕ → ℕ → Text
bucket_key bucket window t = codes "rl:" ++ (bucket ++ (codes ":" ++ decimal (t / (window * 1000))))

abbrev pub at_least : Number → ℕ → Bool
at_least none limit = false
at_least (some n) limit = leb limit n

-- `String(current + 1)`
abbrev pub one_more : Number → Text
one_more none = codes "NaN"
one_more (some n) = decimal (n + 1)

module _ (p : Platform) where
  -- `Number(raw || "0")`; the keys of counters hold texts
  abbrev pub counter : Option Stored → Number
  counter none = some 0
  counter (some (text [])) = some 0
  counter (some (text (c ∷ t))) = number_of p (c ∷ t)
  counter (some _) = none

  unfoldable pub rate_limit : Text → ℕ → ℕ → Run p Bool
  rate_limit bucket limit window = do
    t ← now p
    let key = bucket_key bucket window t
    raw ← kv_get p key
    let current = counter raw
    if at_least current limit
        then pure false
        else do kv_put p key (text (one_more current)) (some (window + 5)); pure true

-- `isBacklogStale` at the time `t`
unfoldable pub is_backlog_stale : ℕ → Option ℕ → ℕ → Bool
is_backlog_stale t none ttl = false
is_backlog_stale t (some since) ttl = if ltb t since then false else leb ttl ((t - since) / 1000)
