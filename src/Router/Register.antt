-- ===== src/Router/Register.antt =====
-- The data of the registration of shards with a proof of work: the parts of `handleRegisterShard` and
-- `getRoutingTableVersion` of router/router.js that do not touch the KV namespace.
pub mod Mesh
pub mod Handlers
pub mod Once
use mathlib.Core.List.{reverse}
use nex_talk_relay.Base.{
  Text, codes, same, to_lower, ℕ, ◌+◌, ◌*◌, Bool, true, false, not, ◌&&◌, ◌||◌, Option, none, some,
  List, [], ◌∷◌, ◌++◌, map, any, find, length, decimal, number_digits, ltb, leb, if◌then◌else◌,
}
use nex_talk_relay.Encoding.{utf8, hex_to_bytes_floor}
use nex_talk_relay.Js.{Json, null, bool, num, str, Number, get, truthy, is_string, to_text, object}
use nex_talk_relay.Js.Regex.{is_http_url, is_digits, skip_spaces}
use nex_talk_relay.Platform.{
  Platform, Stored, ShardRecord, Challenge, text, shards, challenge, as_challenge, number_of,
}
use nex_talk_relay.Platform.Exec.{Outcome, value, reply, pure, lift, stop_if, ◌>>=◌, ◌>>◌}
use nex_talk_relay.Platform.Http.{Request, Response, json_ok, json_err}
use nex_talk_relay.Platform.World.{Run, now, kv_get, kv_put, kv_delete, random_hex}
use nex_talk_relay.Shard.Crypto.{is_hex_value, is_apart, is_verified, lower_case, to_number, ◌∶◌}
use nex_talk_relay.Shard.Limits.{client_ip, rate_limit, counter, one_more}
use nex_talk_relay.Shard.Work.{leading_zero_bits}

-- The variables of the Router's `env` that the registration reads, with their defaults.
pub record RouterCfg : Type 0 where
  pub pow_difficulty_bits : ℕ
  pub max_registered_shards : ℕ
  pub routing_table_version : ℕ

abbrev pub router_defaults : RouterCfg
router_defaults = record {
  pow_difficulty_bits = 20;
  max_registered_shards = 200;
  routing_table_version = 1;
}

unfoldable pub pow_nonce_key : Text → Text
pow_nonce_key nonce = codes "pow_nonce:" ++ nonce

unfoldable pub registered_shards_key : Text
registered_shards_key = codes "registered_shards"

unfoldable pub routing_table_version_key : Text
routing_table_version_key = codes "routing_table_version"

-- What `handleRegisterShard` reads from its body.
pub record RegisterRequest : Type 0 where
  pub shard_url : Text
  pub shard_pubkey : Json
  pub nonce : Text
  pub solution : Text
  pub timestamp : Json
  pub signature : Text

-- the tests on the form of the body
unfoldable pub parse_register : Option Json → Outcome RegisterRequest
parse_register none = reply (json_err (codes "Request body must be valid JSON") 400)
parse_register (some body) =
    let shard_url = get (codes "shard_url") body in
    let shard_pubkey = get (codes "shard_pubkey") body in
    let nonce = get (codes "nonce") body in
    let solution = get (codes "solution") body in
    let timestamp = get (codes "timestamp") body in
    let signature = get (codes "signature") body in
    if not (truthy shard_url && is_string shard_url && is_http_url (to_text shard_url))
    then reply (json_err (codes "shard_url must be a valid http(s) URL") 400)
    else if not (is_hex_value 64 64 shard_pubkey)
    then reply (json_err (codes "shard_pubkey must be 64-char hex") 400)
    else if not (truthy nonce && is_string nonce)
    then reply (json_err (codes "nonce is required") 400)
    else if not (truthy solution && is_string solution)
    then reply (json_err (codes "solution is required") 400)
    else if not (truthy timestamp && is_digits (to_text timestamp))
    then reply (json_err (codes "timestamp required") 400)
    else if not (is_hex_value 128 128 signature)
    then reply (json_err (codes "signature must be 128-char hex") 400)
    else value (record {
      shard_url = to_text shard_url;
      shard_pubkey = shard_pubkey;
      nonce = to_text nonce;
      solution = to_text solution;
      timestamp = timestamp;
      signature = to_text signature;
    })

-- `s.url === shardUrl`
abbrev pub has_url : Text → ShardRecord → Bool
has_url url s = same s.url url

-- A new record for a known URL: its first registration stays, the key is the new one.
abbrev pub renewed : Text → Text → ℕ → ShardRecord → ShardRecord
renewed url pubkey t s =
    if same s.url url
    then record {
      url = url;
      pubkey = pubkey;
      registered_at = s.registered_at;
      updated_at = some t;
      previous_pubkey = none;
    }
    else s

-- `updated`, or `none` where the mesh is at its capacity.
unfoldable pub upsert_shard : ℕ → Text → Text → ℕ → List ShardRecord → Option (List ShardRecord)
upsert_shard max_shards url pubkey t existing =
    if any (has_url url) existing
    then some (map (renewed url pubkey t) existing)
    else if leb max_shards (length existing)
    then none
    else some (
        existing
        ++ record {
          url = url;
          pubkey = pubkey;
          registered_at = t;
          updated_at = none;
          previous_pubkey = none;
        }
          ∷ [])

-- `getRegisteredShards`; what is no array counts as none
unfoldable pub registered_of : Option Stored → List ShardRecord
registered_of (some (shards ss)) = ss
registered_of _ = []

-- `raw.trim()`
abbrev pub trim : Text → Text
trim t = reverse (skip_spaces (reverse (skip_spaces t)))

-- `getRoutingTableVersion`, at the configured version and what is stored
unfoldable pub current_version : ℕ → Option Stored → ℕ
current_version configured (some (text t)) = elim (number_digits (trim t)) [
  | none ↦ configured
  | some n ↦ n
]
current_version configured _ = configured
