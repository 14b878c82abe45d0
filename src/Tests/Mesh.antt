-- ===== src/Tests/Mesh.antt =====
-- The theorems on what passes between the Router and the shards at concrete inputs.
use nex_talk_relay.Base.{codes, ◌+◌, ◌*◌, ◌≡◌, ◌↔◌, refl, true, none, some, [], ◌∷◌, arith}
use nex_talk_relay.Encoding.{bytes_to_hex, parse_pair, hex_value}
use nex_talk_relay.Js.{Json, bool, get, object}
use nex_talk_relay.Platform.{Platform, ShardRecord, shards, doc}
use nex_talk_relay.Platform.Exec.{value}
use nex_talk_relay.Platform.Http.{Request, json}
use nex_talk_relay.Platform.Laws.{KvLaws, HashLaws, IsKeyPair}
use nex_talk_relay.Platform.World.{World}
use nex_talk_relay.Combined.{NodeEnv, shard_env}
use nex_talk_relay.Combined.Accepted.{create_call, behind_capability, mint-accepted}
use nex_talk_relay.Combined.Agreement.{node_create-agrees}
use nex_talk_relay.Combined.Create.{own_request, node_create, create_on_replica}
use nex_talk_relay.Combined.Own.{own_mailbox-found}
use nex_talk_relay.Combined.Resolve.{exists_on_replica}
use nex_talk_relay.Router.Answers.{sign_hex}
use nex_talk_relay.Router.Answers.Signed.{IsLowerHex}
use nex_talk_relay.Router.Config.{
  TopologyEnv, RouterEnv, get_shard_urls, base_urls, get_registered_shards, spread, configured_urls,
  hmac_hex,
}
use nex_talk_relay.Router.Enroll.{Capability, mint_capability}
use nex_talk_relay.Router.Register.{router_defaults, registered_of, registered_shards_key}
use nex_talk_relay.Router.Ring.{
  replicas_for_era, replica_set_for_era, ring_loop, replication_factor, at_index, ring_start,
  hash_point, parse_prefix,
}
use nex_talk_relay.Router.Table.{build_signed_routing_table}
use nex_talk_relay.Router.Table.Cached.{signed_table-cached}
use nex_talk_relay.Router.Topology.{shard_urls, merge_urls}
use nex_talk_relay.Shard.{Env, defaults}
use nex_talk_relay.Shard.Create.{handle_create, create_result}
use nex_talk_relay.Shard.Keys.{sign_with_shard_key}
use nex_talk_relay.Shard.Replicate.{routing_table_kv_key}
use nex_talk_relay.Shard.Table.{handle_routing_table_push}
use nex_talk_relay.Tests.Handlers.{program, key64, send_request, env}
use nex_talk_relay.Tests.Host.{host, host_laws, empty, kv_write, zeros, zeros-bytes}

abbrev pub first_shard : ShardRecord
first_shard = record {
  url = codes "https://a";
  pubkey = codes "00";
  registered_at = 5;
  updated_at = none;
  previous_pubkey = none;
}

-- The small host with digests of 32 bytes.
abbrev relay : Platform
relay = record host { sha256 = λ bs. zeros 32; hmac = λ key bs. zeros 32 }

relay_laws : KvLaws relay
relay_laws = record {
  read-write_self = λ s t k v ttl u le. host_laws.read-write_self s t k v ttl u le;
  read-write_ne = λ s t k v ttl u j away. host_laws.read-write_ne s t k v ttl u j away;
  read-remove_self = λ s t k u le. host_laws.read-remove_self s t k u le;
  read-remove_ne = λ s t k u j away. host_laws.read-remove_ne s t k u j away;
}

relay_hashes : HashLaws relay
relay_hashes = record {
  sha256-bytes = λ m. zeros-bytes 32;
  hmac-bytes = λ key m. zeros-bytes 32;
  random-bytes = λ n k. zeros-bytes k;
}

abbrev topology : TopologyEnv
topology = record { shard_urls = none; prior_shard_counts = none }

abbrev pub router : RouterEnv
router = record {
  server_secret = codes "s";
  signing_key = codes "K";
  signing_public = codes "00";
  shared_secret = none;
  replication_factor = none;
  topology = topology;
  cfg = router_defaults;
}

router-IsKeyPair : IsKeyPair relay router.signing_key router.signing_public
unfolding program parse_pair hex_value
router-IsKeyPair = record {
  public_bytes = 0 ∷ [];
  public_read = refl;
  signs = λ m. (zeros 64, refl, (zeros-bytes 64).0, (zeros-bytes 64).1, refl);
}

abbrev shard : Env
shard = record env { router_signing_public = codes "00" }

abbrev morning : World relay
morning = record { kv = empty; time = 5000; draws = 0; calls = 0; sent = []; tasks = [] }

abbrev evening : World relay
evening = record morning { time = 9000 }

key64-IsLowerHex : IsLowerHex 64 key64
unfolding program
key64-IsLowerHex = record { size = refl; digits = refl; lower = refl }

mint-accepted_example :
    (c : Capability) × (v : World relay) × (mint_capability relay router
        (codes "https://a" ∷ [])
        key64
        morning
      ≡ (value c, v))
    × (handle_create relay (create_call relay send_request c) shard defaults evening
        ≡ behind_capability relay
            (create_call relay send_request c)
            defaults
            (own_request relay c)
            evening)
mint-accepted_example =
    mint-accepted relay relay_hashes router router-IsKeyPair shard defaults send_request
      (codes "https://a" ∷ []) key64 morning evening refl key64-IsLowerHex (omega arith)

abbrev node : NodeEnv
node = record {
  server_secret = codes "s";
  signing_key = codes "K";
  signing_public = codes "00";
  shared_secret = none;
  replication_factor = none;
  topology = topology;
  cfg = router_defaults;
  router_url = none;
  self_url = some (codes "https://a");
}

abbrev minted : Capability
minted = record {
  mailbox_id = hmac_hex relay key64 (codes "s");
  client = key64;
  read_secret = bytes_to_hex (zeros 32);
  cap_exp = 5000 + 31_536_000 * 1000;
  cap_nonce = bytes_to_hex (zeros 16);
  cap_sig = bytes_to_hex (zeros 64);
  replicas = some (codes "https://a") ∷ [];
}

abbrev minted_world : World relay
minted_world = record morning { draws = 2 }

abbrev enrolled : World relay
enrolled =
    record (create_on_replica relay node defaults minted (some (codes "https://a"))
      minted_world).1 { time = 9000 }

abbrev own_call : Request
own_call = create_call relay send_request minted

node_create-agrees_example :
    (node_create relay own_call node defaults morning
      ≡ (value (create_result defaults (own_request relay minted) true), enrolled))
    ↔ (handle_create relay own_call (shard_env node) defaults morning
        ≡ (value (create_result defaults (own_request relay minted) true), enrolled))
node_create-agrees_example =
    node_create-agrees relay defaults own_call node morning enrolled
      (create_result defaults (own_request relay minted) true)

own_mailbox-found_example :
    ((create_on_replica relay node defaults minted (some (codes "https://a")) minted_world).0
      ≡ value true)
    × (exists_on_replica relay node (some (codes "https://a")) minted.mailbox_id enrolled
        ≡ (value true, enrolled))
unfolding program mint_capability sign_hex sign_with_shard_key replicas_for_era replica_set_for_era
    ring_loop replication_factor at_index ring_start hash_point parse_prefix hex_value
own_mailbox-found_example =
    own_mailbox-found relay relay_laws node defaults (codes "https://a") refl relay_hashes
      router-IsKeyPair (codes "https://a" ∷ []) key64 minted morning minted_world enrolled
      key64-IsLowerHex refl (omega arith) (omega arith) refl

abbrev listed : World relay
listed = record morning {
  kv = kv_write empty 4000 registered_shards_key (shards (first_shard ∷ [])) none;
}

signed_table-cached_example :
    (signed : Json) × (build_signed_routing_table relay router listed ≡ (value signed, listed))
    × (handle_routing_table_push relay (record send_request { body = some signed }) shard evening
        ≡ (
          value (
              json (
                object (
                  (codes "cached", bool true)
                  ∷ (codes "version", get (codes "version") signed)
                  ∷ []))),
          record evening {
            kv = relay.write evening.kv evening.time routing_table_kv_key (doc signed) none;
          },
        ))
unfolding program get_shard_urls base_urls registered_shards_key get_registered_shards spread
    configured_urls shard_urls merge_urls registered_of
signed_table-cached_example =
    signed_table-cached relay router router-IsKeyPair shard send_request (codes "https://a") []
      listed listed evening refl refl (omega arith)
