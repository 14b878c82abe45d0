-- ===== src/Tests/Joint.antt =====
-- The theorems on the queue of a mailbox and on the registration of a shard at concrete inputs.
use nex_talk_relay.Base.{◌∷◌, true, [], ◌++◌, find, codes, ◌≡◌, refl, some, arith}
use nex_talk_relay.Encoding.{parse_pair, hex_value}
use nex_talk_relay.Js.{get, bool, Json, str}
use nex_talk_relay.Js.Regex.{is_http_url}
use nex_talk_relay.Platform.{ShardRecord, Identity, challenge, Challenge}
use nex_talk_relay.Platform.Exec.{value}
use nex_talk_relay.Platform.World.{World}
use nex_talk_relay.Router.Register.{
  router_defaults, has_url, registered_of, registered_shards_key, pow_nonce_key,
}
use nex_talk_relay.Router.Register.Handlers.{handle_register_shard}
use nex_talk_relay.Shard.Limits.{rate_limit}
use nex_talk_relay.Router.Rotate.Authorized.{registered}
use nex_talk_relay.Platform.Http.{json_ok}
use nex_talk_relay.Shard.{defaults}
use nex_talk_relay.Shard.Admin.{signed_registration}
use nex_talk_relay.Shard.Capacity.Queue.{Steps, sent, asked}
use nex_talk_relay.Shard.Capacity.Queue.Writes.{queue}
use nex_talk_relay.Shard.Capacity.Queue.Refines.{none_yet, send, read, Requests-refine}
use nex_talk_relay.Shard.Joining.Taken.{IsShardKey, registration-taken}
use nex_talk_relay.Shard.Read.{handle_read}
use nex_talk_relay.Shard.Send.{handle_send}
use nex_talk_relay.Shard.Work.{is_solution, leading_zero_bits, shift_loop}
use nex_talk_relay.Tests.Handlers.{program, key64, send_request, read_request, env, id, w}
use nex_talk_relay.Tests.Host.{host, host_laws, at_time, empty, kv_write, zeros, zeros-bytes}

abbrev both : World host
both =
    (handle_read host read_request env defaults (handle_send host send_request env defaults w).1).1

-- A message is sent and read.
Requests-refine_example :
    Steps host defaults 5000 id
      (queue host host_laws defaults (omega arith) w id)
      (asked read_request ∷ sent send_request ∷ [])
      (queue host host_laws defaults (omega arith) both id)
Requests-refine_example =
    Requests-refine host host_laws defaults (omega arith) id
      (read read_request env (send send_request env none_yet))

abbrev own : Identity
own = record { public_key_hex = key64; private_key = codes "P" }

own-IsShardKey : IsShardKey host own
unfolding program parse_pair hex_value
own-IsShardKey = record {
  keys = record {
    public_bytes = _;
    public_read = refl;
    signs = λ m. (zeros 64, refl, (zeros-bytes 64).0, (zeros-bytes 64).1, refl);
  };
  form = record { size = refl; digits = refl; lower = refl };
}

abbrev issued : Challenge
issued = record { difficulty = 1; expires_at = 9000 }

abbrev challenged : World host
challenged =
    at_time 6000 (kv_write empty 4000 (pow_nonce_key (codes "ab")) (challenge issued) (some 125))

-- The state behind the rate limit of the address.
abbrev counted : World host
counted = (rate_limit host (codes "register-shard-ip:" ++ codes "unknown") 6 3600 challenged).1

registration-taken_example :
    (payload : Json) × (s : ShardRecord) × (body : Json) × (signed_registration host own
        (codes "https://a")
        (str (codes "ab"))
        (str (codes "0"))
        (at_time 5000 empty)
      ≡ (value payload, at_time 5000 empty))
    × (find (has_url (codes "https://a")) (
          registered host
            (handle_register_shard host
              (record send_request { body = some payload })
              router_defaults
              challenged).1)
        ≡ some s)
    × (s.pubkey ≡ key64)
    × ((handle_register_shard host
          (record send_request { body = some payload })
          router_defaults
          challenged).0
        ≡ value (json_ok body []))
    × (get (codes "registered") body ≡ bool true)
unfolding program is_solution leading_zero_bits shift_loop is_http_url pow_nonce_key registered_of
    registered_shards_key
registration-taken_example =
    registration-taken host host_laws own own-IsShardKey router_defaults send_request
      (codes "https://a") (codes "ab") (codes "0") issued (at_time 5000 empty) challenged counted
      refl refl refl refl refl refl (omega arith) refl refl (omega arith)
