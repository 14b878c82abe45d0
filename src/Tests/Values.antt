-- ===== src/Tests/Values.antt =====
-- The theorems on encodings, counters and the ring at concrete values.
use nex_talk_relay.Base.{
  Text, codes, to_lower, ℕ, ◌+◌, ◌%◌, ◌≡◌, ◌↔◌, refl, true, none, some, List, [], ◌∷◌, ◌++◌, length,
  get_elem?, arith,
}
use Prim.Native.Nat.{min}
use nex_talk_relay.Encoding.{constant_time_equal}
use nex_talk_relay.Encoding.Secrets.{constant_time_equal_iff}
use nex_talk_relay.Js.{num}
use nex_talk_relay.Platform.{ShardRecord}
use nex_talk_relay.Router.Ring.{replicas_for_era, hash_point}
use nex_talk_relay.Router.Ring.Replicas.{replicas_for_era-ring}
use nex_talk_relay.Router.Topology.{merge_urls, shard_urls}
use nex_talk_relay.Router.Topology.Append.{shard_urls-stable}
use nex_talk_relay.Shard.Envelope.{validate_envelope_shape}
use nex_talk_relay.Shard.Envelope.Depth.{IsEnvelope, validate_envelope_shape_iff}
use nex_talk_relay.Shard.Limits.Counting.{attempts, attempts-eq-min}
use nex_talk_relay.Tests.Host.{host, host_laws, at_time, empty}

constant_time_equal_iff_example :
    (constant_time_equal (codes "ab") (codes "ac") ≡ true) ↔ (codes "ab" ≡ codes "ac")
unfolding codes
constant_time_equal_iff_example =
    constant_time_equal_iff (codes "ab") (codes "ac") (omega arith, refl, (omega arith, refl, tt))
      (omega arith, refl, (omega arith, refl, tt))

abbrev waits : List ℕ
waits = 0 ∷ 5 ∷ 9 ∷ []

-- Three attempts in one window of a minute, of which two are permitted.
attempts-eq-min_example :
    attempts host host_laws (codes "b") 2 60 waits (at_time 1000 empty) ≡ min (length waits) 2
attempts-eq-min_example =
    attempts-eq-min host host_laws (codes "b") 2 60 waits 0 (at_time 1000 empty) (omega arith)
      (λ u le in_k. refl) (refl, (refl, (refl, tt)))

validate_envelope_shape_iff_example : (validate_envelope_shape (num 3) ≡ none) ↔ IsEnvelope (num 3)
validate_envelope_shape_iff_example = validate_envelope_shape_iff (num 3)

abbrev urls : List Text
urls = codes "https://a" ∷ codes "https://b" ∷ codes "https://c" ∷ []

replicas_for_era-ring_example :
    (length (replicas_for_era host (codes "ab") 3 urls 2) ≡ 2)
    × (get_elem? (replicas_for_era host (codes "ab") 3 urls 2) 1
        ≡ some (get_elem? urls ((hash_point host (to_lower (codes "ab")) + 1) % 3)))
replicas_for_era-ring_example = replicas_for_era-ring host (codes "ab") 2 urls 2 1 (omega arith)

abbrev registered : ShardRecord
registered = record {
  url = codes "https://d";
  pubkey = codes "00";
  registered_at = 5;
  updated_at = none;
  previous_pubkey = none;
}

shard_urls-stable_example :
    get_elem? (shard_urls urls ([] ++ registered ∷ [])) 1 ≡ get_elem? (shard_urls urls []) 1
shard_urls-stable_example =
    shard_urls-stable urls [] (registered ∷ []) 1
      (unfold shard_urls in (unfold merge_urls in omega arith))
