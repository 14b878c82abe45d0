-- ===== src/Tests/Routing.antt =====
-- The theorems on the handlers of the Router at concrete requests.
use nex_talk_relay.Base.{
  List, Text, codes, to_lower, ℕ, ◌≡◌, ◌⊎◌, refl, none, some, Option, [], ◌∷◌, ◌++◌, map,
}
use nex_talk_relay.Js.{Json, str, object}
use nex_talk_relay.Platform.{shards}
use nex_talk_relay.Platform.Exec.{value, reply}
use nex_talk_relay.Platform.Http.{Request, json_ok, json_err}
use nex_talk_relay.Platform.World.{World}
use nex_talk_relay.Router.Config.{prior_counts_of, hmac_hex}
use nex_talk_relay.Router.Enroll.{prefix}
use nex_talk_relay.Router.Register.{
  router_defaults, RegisterRequest, registered_of, registered_shards_key, routing_table_version_key,
  current_version,
}
use nex_talk_relay.Router.Register.Handlers.{add_shard}
use nex_talk_relay.Router.Resolve.{handle_resolve}
use nex_talk_relay.Router.Resolve.First.{AreEras, IsResolution, FirstYes, handle_resolve-answers}
use nex_talk_relay.Router.Rotate.{RotateRequest, parse_rotate, current_key, handle_rotate_shard_key}
use nex_talk_relay.Router.Rotate.Authorized.{
  moved, registered, IsAuthorized, handle_rotate_shard_key-IsAuthorized,
}
use nex_talk_relay.Router.Rotate.Overtaken.{add_shard-overtakes}
use nex_talk_relay.Router.Status.{no_health, fresh_health, handle_status}
use nex_talk_relay.Router.Status.AllDown.{all_up, handle_status-all_down}
use nex_talk_relay.Tests.Handlers.{program, key64, sig128, send_request}
use nex_talk_relay.Tests.Host.{host, host_laws, at_time, empty, kv_write}
use nex_talk_relay.Tests.Mesh.{router, first_shard}

abbrev mesh : World host
mesh = at_time 5000 (kv_write empty 4000 registered_shards_key (shards (first_shard ∷ [])) none)

abbrev old_key : Text
old_key = codes "00" ++ prefix 62 key64

abbrev old_mesh : World host
old_mesh = at_time 5000 (
    kv_write empty 4000 registered_shards_key
      (shards (record first_shard { pubkey = old_key } ∷ [])) none)

abbrev rotate_request : Request
rotate_request = record send_request {
  body = some (
      object (
        (codes "shard_url", str (codes "https://a"))
        ∷ (codes "old_pubkey", str old_key)
        ∷ (codes "new_pubkey", str key64)
        ∷ (codes "timestamp", str (codes "5000"))
        ∷ (codes "old_signature", str sig128)
        ∷ (codes "new_signature", str sig128)
        ∷ []));
}

handle_rotate_shard_key-IsAuthorized_example :
    ((handle_rotate_shard_key host rotate_request router_defaults old_mesh).1 ≡ old_mesh)
    ⊎ ((r : RotateRequest) × (parse_rotate rotate_request.body ≡ value r)
        × IsAuthorized host r old_mesh
        × (registered host (handle_rotate_shard_key host rotate_request router_defaults old_mesh).1
            ≡ map (moved r old_mesh.time) (registered host old_mesh)))
handle_rotate_shard_key-IsAuthorized_example =
    handle_rotate_shard_key-IsAuthorized host host_laws router_defaults rotate_request old_mesh

abbrev intruder : RegisterRequest
intruder = record {
  shard_url = codes "https://a";
  shard_pubkey = str key64;
  nonce = codes "ab";
  solution = codes "0";
  timestamp = str (codes "5000");
  signature = sig128;
}

abbrev rotation : RotateRequest
rotation = record {
  shard_url = codes "https://a";
  old_pubkey = codes "00";
  new_pubkey = codes "01";
  timestamp = str (codes "5000");
  old_signature = sig128;
  new_signature = sig128;
}

add_shard-overtakes_example :
    current_key rotation (registered host (add_shard host router_defaults intruder key64 mesh).1)
    ≡ reply (json_err (codes "old_pubkey does not match current shard identity") 401)
unfolding program registered_of registered_shards_key
add_shard-overtakes_example =
    add_shard-overtakes host host_laws router_defaults intruder key64 rotation mesh refl refl refl

handle_status-all_down_example :
    (handle_status host no_health (codes "https://a" ∷ []) mesh).0
    ≡ value (
      json_ok (all_up (codes "https://a" ∷ [])) [],
      record { checked_at = 5000; healthy_urls = some (codes "https://a" ∷ []) },
    )
unfolding fresh_health
handle_status-all_down_example =
    handle_status-all_down host no_health (codes "https://a" ∷ []) mesh (λ n url. refl) refl

abbrev resolve_request : Request
resolve_request = record send_request { query = (codes "pubkey", key64) ∷ [] }

abbrev resolved_id : Text
resolved_id = hmac_hex host (to_lower key64) router.server_secret

handle_resolve-answers_example :
    (eras : List ℕ) × (era : Option ℕ) × (body : Json) × (v : World host) × (handle_resolve host
        resolve_request router
        (codes "https://a" ∷ [])
        mesh
      ≡ (value (json_ok body []), v))
    × AreEras
        (codes "https://a" ∷ [])
        (prior_counts_of host router.topology
          (host.read mesh.kv mesh.time (codes "prior_shard_counts")))
        eras
    × FirstYes host router (codes "https://a" ∷ []) key64 resolved_id mesh.calls eras era
    × IsResolution host router
        (codes "https://a" ∷ [])
        key64
        resolved_id
        (current_version router.cfg.routing_table_version
          (host.read mesh.kv mesh.time routing_table_version_key))
        era
        body
    × (v.kv ≡ mesh.kv)
unfolding program
handle_resolve-answers_example =
    handle_resolve-answers host resolve_request router (codes "https://a" ∷ []) key64 mesh refl refl
