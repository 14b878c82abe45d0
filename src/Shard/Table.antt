-- ===== src/Shard/Table.antt =====
-- The routing table that a shard caches and serves: `handleRoutingTablePush` and
-- `handleRoutingTableServe` of shard/worker.js.
pub mod Authentic
use nex_talk_relay.Base.{
  Text, codes, ℕ, Bool, true, false, not, ◌&&◌, ◌||◌, Option, none, some, List, [], ◌∷◌, ◌++◌,
  decimal, length, ltb, if◌then◌else◌,
}
use nex_talk_relay.Js.{
  Json, bool, num, str, Number, get, truthy, is_string, is_array, elements, to_text, object,
  without,
}
use nex_talk_relay.Platform.{Platform, Stored, doc}
use nex_talk_relay.Platform.Exec.{Outcome, value, reply, pure, lift, stop_if, ◌>>=◌, ◌>>◌}
use nex_talk_relay.Platform.Http.{
  Request, Response, bad_request, err, err_with, json, json_response,
}
use nex_talk_relay.Platform.World.{Run, now, kv_put}
use nex_talk_relay.Shard.{Env}
use nex_talk_relay.Shard.Crypto.{is_hex_string, is_past, to_number, verify_ed25519_message}
use nex_talk_relay.Shard.Replicate.{routing_table_kv_key, get_cached_routing_table}

abbrev pub routing_table_serve_max_age : ℕ
routing_table_serve_max_age = 300

-- What `handleRoutingTablePush` reads from its body.
pub record PushRequest : Type 0 where
  pub body : Json
  pub unsigned : Json
  pub signature : Text
  pub expires_at : Number

abbrev pub is_number : Number → Bool
is_number none = false
is_number (some n) = true

unfoldable pub is_filled_array : Json → Bool
is_filled_array v = is_array v && ltb 0 (length (elements v))

module _ (p : Platform) where
  -- the tests on the form of the body
  unfoldable pub parse_push : Option Json → Outcome PushRequest
  parse_push none = reply (bad_request (codes "Request body must be valid JSON"))
  parse_push (some body) =
      let signature = get (codes "signature") body in
      let unsigned = without (codes "signature") body in
      let expires_at = to_number p (get (codes "expires_at") unsigned) in
      if not (is_hex_string 128 128 signature)
      then reply (err (codes "signature must be a 128-char hex Ed25519 signature") 400)
      else if not (is_filled_array (get (codes "shard_urls") unsigned))
      then reply (err (codes "shard_urls must be a non-empty array") 400)
      else if not (is_number expires_at)
      then reply (err (codes "expires_at is required") 400)
      else value (record {
        body = body;
        unsigned = unsigned;
        signature = to_text signature;
        expires_at = expires_at;
      })

  -- The part behind the tests on the form.
  unfoldable pub cache_table : Env → PushRequest → Run p Response
  cache_table env r = do
    stop_if
        (not
          (verify_ed25519_message p env.router_signing_public (p.stringify r.unsigned) r.signature))
        (err (codes "routing table signature verification failed") 401)
    t ← now p
    stop_if (is_past t r.expires_at) (err (codes "pushed routing table is already expired") 400)
    kv_put p routing_table_kv_key (doc r.body) none
    pure (
        json (
          object (
            (codes "cached", bool true)
            ∷ (codes "version", get (codes "version") r.unsigned)
            ∷ [])))

  unfoldable pub handle_routing_table_push : Request → Env → Run p Response
  handle_routing_table_push request env = do r ← lift (parse_push request.body); cache_table env r

  abbrev pub max_age : Text
  max_age =
      codes "public, max-age="
      ++ (decimal routing_table_serve_max_age
          ++ (codes ", s-maxage=" ++ decimal routing_table_serve_max_age))

  -- A cached `null` or other falsy value counts as none.
  unfoldable pub handle_routing_table_serve : Run p Response
  handle_routing_table_serve = do
    cached ← get_cached_routing_table p
    (elim cached [
      | none ↦ pure (
          err_with
            (codes
              "no routing table cached on this shard yet — fall back to the Router's /routing_table.json")
            503 ((codes "Retry-After", codes "30") ∷ []))
      | some table ↦ pure (
          if truthy table
          then json_response table 200 ((codes "Cache-Control", max_age) ∷ [])
          else err_with
              (codes
                "no routing table cached on this shard yet — fall back to the Router's /routing_table.json")
              503 ((codes "Retry-After", codes "30") ∷ []))
    ])
