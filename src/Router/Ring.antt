-- ===== src/Router/Ring.antt =====
-- The placement of mailboxes on the ring of shards (router/router.js).
pub mod Replicas
pub mod Eras
use Prim.Native.Nat.{min, max}
use nex_talk_relay.Base.{
  Text, codes, to_lower, ℕ, zero, suc, ◌+◌, ◌*◌, ◌%◌, Bool, true, false, ◌&&◌, Option, none, some,
  List, [], ◌∷◌, length, get_elem?, any, keep, leb, ltb, ◌==◌, if◌then◌else◌,
}
use nex_talk_relay.Encoding.{hex_value}
use nex_talk_relay.Js.{Json, num, Number}
use nex_talk_relay.Platform.{Platform}
use nex_talk_relay.Shard.Crypto.{sha256_hex}

-- `parseInt(hex.slice(0, k), 16)` of a text of hexadecimal digits, from the value of those before
unfoldable pub parse_prefix : ℕ → ℕ → Text → ℕ
parse_prefix acc zero t = acc
parse_prefix acc (suc k) [] = acc
parse_prefix acc (suc k) (c ∷ t) = parse_prefix (acc * 16 + hex_value c) k t

unfoldable pub hash_point : Platform → Text → ℕ
hash_point p t = parse_prefix 0 8 (sha256_hex p t)

-- `shardUrls[i % n]`, which is `undefined` where `n` is 0
unfoldable pub at_index : List Text → ℕ → ℕ → Option Text
at_index urls i zero = none
at_index urls i (suc n) = get_elem? urls (i % suc n)

unfoldable pub owner_for_era : Platform → Text → ℕ → List Text → Option Text
owner_for_era p pubkey n urls = at_index urls (hash_point p (to_lower pubkey)) n

-- The members of the set that the loop pushes in `k` turns from its counter `i` on.
unfoldable pub ring_loop : ℕ → ℕ → List Text → ℕ → ℕ → List (Option Text)
ring_loop start n urls i zero = []
ring_loop start n urls i (suc k) = at_index urls (start + i) n ∷ ring_loop start n urls (suc i) k

-- `point % n`; where `n` is 0 each member is `undefined`
unfoldable pub ring_start : ℕ → ℕ → ℕ
ring_start point zero = 0
ring_start point (suc n) = point % suc n

unfoldable pub replica_set_for_era : ℕ → ℕ → List Text → ℕ → List (Option Text)
replica_set_for_era point n urls r = ring_loop (ring_start point n) n urls 0 r

unfoldable pub replicas_for_era : Platform → Text → ℕ → List Text → ℕ → List (Option Text)
replicas_for_era p id n urls r = replica_set_for_era (hash_point p (to_lower id)) n urls r

-- `Math.max(1, Math.min(want, n))` of the configured number, with 1 where there is none; `NaN` stays.
unfoldable pub replication_factor : Option Number → ℕ → Number
replication_factor none n = some (max 1 (min 1 n))
replication_factor (some none) n = none
replication_factor (some (some want)) n = some (max 1 (min (if want == 0 then 1 else want) n))

-- `Number.isInteger(n) && n > 0 && n <= bound`; the numbers of JSON texts are natural here.
abbrev pub era_count : ℕ → Json → List ℕ
era_count bound (num n) = if ltb 0 n && leb n bound then n ∷ [] else []
era_count bound _ = []

-- The counts that pass the filter, each once and in falling order: a count that is there already is
-- dropped, any other is put behind the larger ones.
unfoldable pub insert_count : ℕ → List ℕ → List ℕ
insert_count n [] = n ∷ []
insert_count n (m ∷ ms) =
    let rest = insert_count n ms in
    if n == m then m ∷ ms else if ltb m n then n ∷ m ∷ ms else m ∷ rest

unfoldable pub insert_all : List ℕ → List ℕ → List ℕ
insert_all [] out = out
insert_all (n ∷ ns) out = insert_count n (insert_all ns out)

unfoldable pub prior_counts : ℕ → List Json → List ℕ
prior_counts bound [] = []
prior_counts bound (v ∷ vs) = insert_all (era_count bound v) (prior_counts bound vs)

unfoldable pub era_counts_descending : List Text → List Json → List ℕ
era_counts_descending urls prior =
    insert_all (era_count (length urls) (num (length urls))) (prior_counts (length urls) prior)
