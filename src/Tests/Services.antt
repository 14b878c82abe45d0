-- ===== src/Tests/Services.antt =====
-- The theorems on routing tables, key rotation and registration at concrete inputs.
use nex_talk_relay.Base.{codes, ◌≡◌, ◌⊎◌, refl, none, some, List, [], ◌∷◌, decimal, arith}
use nex_talk_relay.Js.{Json, num, str, arr, cons, nil, object, without}
use nex_talk_relay.Platform.{ShardRecord, challenge}
use nex_talk_relay.Platform.Exec.{value, reply}
use nex_talk_relay.Platform.Http.{Request, json_response, json_err}
use nex_talk_relay.Platform.World.{World, kv_delete}
use nex_talk_relay.Router.Register.{RegisterRequest, pow_nonce_key}
use nex_talk_relay.Router.Register.Handlers.{load_challenge, redeem}
use nex_talk_relay.Router.Register.Once.{redeem_once}
use nex_talk_relay.Shard.Crypto.{to_number}
use nex_talk_relay.Shard.Keys.{ensure_shard_identity}
use nex_talk_relay.Shard.Rotate.{Rotation, rotate}
use nex_talk_relay.Shard.Rotate.Takeover.{rotate-takes_over}
use nex_talk_relay.Shard.Table.{
  PushRequest, parse_push, is_filled_array, handle_routing_table_push, handle_routing_table_serve,
  max_age,
}
use nex_talk_relay.Shard.Table.Authentic.{
  IsAuthentic, handle_routing_table_push-IsAuthentic, push_then_serve,
}
use nex_talk_relay.Shard.Work.{shift_loop, leading_zero_bits, is_solution, solve_pow}
use nex_talk_relay.Shard.Work.First.{solve_pow-first}
use nex_talk_relay.Tests.Handlers.{program, key64, sig128, send_request, env}
use nex_talk_relay.Tests.Host.{host, host_laws, at_time, empty, kv_write, zeros}

-- The host's digest is the text itself, and the letter "a" has one leading zero bit.
solve_pow-first_example : solve_pow host (codes "a") (codes "u") 1 ≡ some (decimal 0)
unfolding program is_solution leading_zero_bits shift_loop
solve_pow-first_example =
    solve_pow-first host (codes "a") (codes "u") 1 0 (omega arith) refl λ k lt. absurd (omega arith)

abbrev table : Json
table = object (
    (codes "shard_urls", arr (cons (str (codes "https://a")) nil))
    ∷ (codes "expires_at", num 9000)
    ∷ (codes "signature", str sig128)
    ∷ [])

abbrev push_request : Request
push_request = record send_request { body = some table }

abbrev parsed_push : PushRequest
parsed_push = record {
  body = table;
  unsigned = without (codes "signature") table;
  signature = sig128;
  expires_at = some 9000;
}

abbrev start : World host
start = at_time 5000 empty

abbrev pushed : World host
pushed = record (handle_routing_table_push host push_request env start).1 { time = 6000 }

parsed_push-IsAuthentic : IsAuthentic host host_laws env parsed_push start
unfolding program
parsed_push-IsAuthentic = record { signed = refl; in_time = refl }

handle_routing_table_push-IsAuthentic_example :
    ((handle_routing_table_push host push_request env start).1 ≡ start)
    ⊎ ((r : PushRequest) × (parse_push host push_request.body ≡ value r)
        × IsAuthentic host host_laws env r start)
handle_routing_table_push-IsAuthentic_example =
    handle_routing_table_push-IsAuthentic host host_laws env push_request start

push_then_serve_example :
    handle_routing_table_serve host pushed
    ≡ (value (json_response table 200 ((codes "Cache-Control", max_age host) ∷ [])), pushed)
unfolding program parse_push is_filled_array without to_number
push_then_serve_example =
    push_then_serve host host_laws env push_request parsed_push start pushed refl
      parsed_push-IsAuthentic refl (omega arith) refl

abbrev rotation : Rotation
rotation = record {
  shard_url = codes "https://a";
  old = record { public_key_hex = codes "00"; private_key = codes "A" };
  new = record { public_key_hex = codes "01"; private_key = codes "B" };
  timestamp = codes "5000";
}

abbrev rotated : World host
rotated = record (rotate host env rotation start).1 { time = 7000 }

rotate-takes_over_example : ensure_shard_identity host rotated ≡ (value rotation.new, rotated)
rotate-takes_over_example =
    rotate-takes_over host host_laws env rotation (zeros 64) (zeros 64) start rotated refl refl
      (omega arith) refl

abbrev first_shard : ShardRecord
first_shard = record {
  url = codes "https://a";
  pubkey = codes "00";
  registered_at = 5;
  updated_at = none;
  previous_pubkey = none;
}

abbrev both : List ShardRecord
both =
    first_shard
    ∷ record first_shard { url = codes "https://b"; pubkey = codes "01"; registered_at = 6 }
    ∷ []

abbrev registration : RegisterRequest
registration = record {
  shard_url = codes "https://a";
  shard_pubkey = str key64;
  nonce = codes "ab";
  solution = codes "0";
  timestamp = str (codes "5000");
  signature = sig128;
}

abbrev challenged : World host
challenged = at_time 5000 (
    kv_write empty 4000 (pow_nonce_key (codes "ab"))
      (challenge (record { difficulty = 1; expires_at = 9000 })) (some 125))

abbrev used : World host
used = record (redeem host registration challenged).1 { time = 5001 }

redeem_once_example : redeem host (record registration { solution = codes "1" }) used ≡ (
  reply (
      json_err
        (codes "unknown, expired, or already-used nonce — request a fresh /pow_challenge")
        401),
  used,
)
unfolding program redeem load_challenge pow_nonce_key leading_zero_bits shift_loop kv_delete
redeem_once_example =
    redeem_once host host_laws registration (record registration { solution = codes "1" })
      challenged used tt refl refl (omega arith) refl
