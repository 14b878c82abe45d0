-- ===== src/Router/Table/Cached.antt =====
-- The routing table that the Router signs (router/router.js) at a shard that it is pushed to
-- (shard/worker.js, `handleRoutingTablePush`).
use nex_talk_relay.Base.{
  Text, codes, ℕ, ◌+◌, ◌*◌, ◌≤◌, ◌≡◌, refl, suc, length, lt→ltb, true, false, none, some, List, [],
  ◌∷◌, ◌++◌, map, ltb, arith,
}
use nex_talk_relay.Js.{Json, bool, num, str, get, without, object, to_text, to_list, from_list}
use nex_talk_relay.Platform.{Platform, doc}
use nex_talk_relay.Platform.Exec.{value}
use nex_talk_relay.Platform.Http.{Request, json}
use nex_talk_relay.Platform.Laws.{IsKeyPair}
use nex_talk_relay.Platform.World.{World, now, kv_get, kv_put}
use nex_talk_relay.Router.Answers.Signed.{IsLowerHex, is_hex_string-within, sign_hex-verified}
use nex_talk_relay.Router.Config.{
  RouterEnv, get_registered_shards, get_shard_urls, prior_counts_of, get_prior_shard_counts,
  get_routing_table_version,
}
use nex_talk_relay.Router.Register.{
  registered_of, registered_shards_key, current_version, routing_table_version_key,
}
use nex_talk_relay.Router.Table.{shard_entry, table_fields, sign_table, build_signed_routing_table}
use nex_talk_relay.Shard.{Env}
use nex_talk_relay.Shard.Crypto.{to_number, verify_ed25519_message}
use nex_talk_relay.Shard.Replicate.{routing_table_kv_key}
use nex_talk_relay.Shard.Table.{parse_push, is_filled_array, cache_table, handle_routing_table_push}

module _ (p : Platform) (env : RouterEnv) where
  -- The table with its signature, as it is pushed.
  abbrev signed_fields : List Text → List Json → ℕ → List Json → ℕ → Text → Json
  signed_fields urls prior version entries t signature =
      object
        (table_fields env urls prior version entries t ++ (codes "signature", str signature) ∷ [])

  parse_push-signed :
      (u : Text) (us : List Text) (prior : List Json) (version : ℕ) (entries : List Json) (t : ℕ)
      (signature : Text)
      → IsLowerHex 128 signature
      → parse_push p (some (signed_fields (u ∷ us) prior version entries t signature))
        ≡ value (record {
          body = signed_fields (u ∷ us) prior version entries t signature;
          unsigned = object (table_fields env (u ∷ us) prior version entries t);
          signature = signature;
          expires_at = some (t + 3600 * 1000);
        })
  unfolding parse_push table_fields get without codes is_filled_array to_number to_text
  parse_push-signed u us prior version entries t signature h =
      let (form, _) =
        is_hex_string-within 128 128 128 signature (omega arith) (omega arith) (omega arith) h in
      let filled = lt→ltb 0 (suc (length (to_list (from_list (map str us))))) (omega arith) in
      rw (form, filled) refl

  push-signed :
      (shard : Env) (request : Request) (z : World p) (u : Text) (us : List Text)
      (prior : List Json) (version : ℕ) (entries : List Json) (t : ℕ) (signature : Text)
      → IsLowerHex 128 signature
      → verify_ed25519_message p env.signing_public
          (p.stringify (object (table_fields env (u ∷ us) prior version entries t)))
          signature
        ≡ true
      → shard.router_signing_public ≡ env.signing_public
      → z.time ≤ t + 3600 * 1000
      → handle_routing_table_push p
          (record request {
            body = some (signed_fields (u ∷ us) prior version entries t signature);
          })
          shard
          z
        ≡ (
          value (json (object ((codes "cached", bool true) ∷ (codes "version", num version) ∷ []))),
          record z {
            kv =
                p.write z.kv z.time routing_table_kv_key
                  (doc (signed_fields (u ∷ us) prior version entries t signature))
                  none;
          },
        )
  unfolding handle_routing_table_push cache_table kv_put now
  push-signed shard request z u us prior version entries t signature form good knows le =
      let fresh : ltb (t + 3600 * 1000) z.time ≡ false = ground arith in
      let at_version : get (codes "version")
            (object (table_fields env (u ∷ us) prior version entries t))
          ≡ num version =
        (unfold get in unfold table_fields in unfold codes in refl) in
      rw
        (
          parse_push-signed u us prior version entries t signature form,
          knows,
          good,
          fresh,
          at_version,
        )
        refl

  -- Where the Router's list of shards is not empty, it makes a signed table, and a shard that knows the
  -- Router's key caches this table when it is pushed there within the hour that it is valid. The
  -- hypothesis is that the Router's keys are a key pair.
  pub signed_table-cached :
      (keys : IsKeyPair p env.signing_key env.signing_public) (shard : Env) (request : Request)
      (u : Text) (us : List Text) (w v z : World p)
      → get_shard_urls p env.topology w ≡ (value (u ∷ us), v)
      → shard.router_signing_public ≡ env.signing_public
      → z.time ≤ v.time + 3600 * 1000
      → (signed : Json) × (build_signed_routing_table p env w ≡ (value signed, v))
        × (handle_routing_table_push p (record request { body = some signed }) shard z ≡ (
          value (
              json (
                object (
                  (codes "cached", bool true)
                  ∷ (codes "version", get (codes "version") signed)
                  ∷ []))),
          record z { kv = p.write z.kv z.time routing_table_kv_key (doc signed) none },
        ))
  unfolding build_signed_routing_table get_prior_shard_counts get_routing_table_version
      get_registered_shards kv_get now sign_table
  signed_table-cached keys shard request u us w v z listed knows le =
      let prior =
        prior_counts_of p env.topology (p.read v.kv v.time (codes "prior_shard_counts")) in
      let version =
        current_version env.cfg.routing_table_version
          (p.read v.kv v.time routing_table_version_key) in
      let entries =
        map (shard_entry (registered_of (p.read v.kv v.time registered_shards_key))) (u ∷ us) in
      let (sig, run, form, good) =
        sign_hex-verified p env keys
          (p.stringify (object (table_fields env (u ∷ us) prior version entries v.time))) in
      let signed = signed_fields (u ∷ us) prior version entries v.time sig in
      let at_version : get (codes "version") signed ≡ num version =
        (unfold get in unfold table_fields in unfold codes in refl) in
      (
        signed,
        rw (listed, run v) refl,
        rw at_version
            (push-signed shard request z u us prior version entries v.time sig form good knows le),
      )
