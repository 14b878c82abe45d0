-- ===== src/Shard/Table/Authentic.antt =====
-- Which routing tables a shard caches, and that it serves what it cached.
use nex_talk_relay.Base.{
  codes, ◌≤◌, ◌≡◌, ◌⊎◌, refl, ap, ◌∙◌, true, false, none, some, [], ◌∷◌, Bool-cases, inl, inr,
}
use nex_talk_relay.Js.{truthy}
use nex_talk_relay.Platform.{Platform, doc}
use nex_talk_relay.Platform.Exec.{Outcome, value, reply, throw, lift, ◌>>=◌}
use nex_talk_relay.Platform.Http.{Request, json_response}
use nex_talk_relay.Platform.Laws.{KvLaws}
use nex_talk_relay.Platform.World.{World, now, kv_get, kv_put}
use nex_talk_relay.Shard.{Env}
use nex_talk_relay.Shard.Crypto.{is_past, verify_ed25519_message}
use nex_talk_relay.Shard.Replicate.{routing_table_kv_key, get_cached_routing_table}
use nex_talk_relay.Shard.Table.{
  PushRequest, parse_push, cache_table, handle_routing_table_push, handle_routing_table_serve,
  max_age,
}

module _ (p : Platform) (laws : KvLaws p) (env : Env) where
  -- The Router's signature is good, and the table has not expired.
  pub record IsAuthentic (r : PushRequest) (w : World p) : Type 0 where
    pub signed :
        verify_ed25519_message p env.router_signing_public (p.stringify r.unsigned) r.signature
        ≡ true
    pub in_time : is_past w.time r.expires_at ≡ false

  cache_table-cases :
      (r : PushRequest) (w : World p) → ((cache_table p env r w).1 ≡ w) ⊎ IsAuthentic r w
  unfolding cache_table now kv_put
  cache_table-cases r w =
      elim (Bool-cases
        (verify_ed25519_message p env.router_signing_public (p.stringify r.unsigned) r.signature)) [
          | inr bad ↦ inl (rw bad refl)
          | inl good ↦ elim (Bool-cases (is_past w.time r.expires_at)) [
            | inl past ↦ inl (rw (good, past) refl)
            | inr fresh ↦ inr (record { signed = good; in_time = fresh })
          ]
        ]

  -- A push changes nothing at all, or the table in it is signed by the Router and has not expired.
  pub handle_routing_table_push-IsAuthentic :
      (request : Request) (w : World p)
      → ((handle_routing_table_push p request env w).1 ≡ w)
        ⊎ ((r : PushRequest) × (parse_push p request.body ≡ value r) × IsAuthentic r w)
  unfolding handle_routing_table_push
  handle_routing_table_push-IsAuthentic request w = parsed (parse_push p request.body) refl
    where
      parsed :
          (o : Outcome PushRequest)
          → parse_push p request.body ≡ o
          → (((do r ← lift o; cache_table p env r) w).1 ≡ w)
            ⊎ ((r : PushRequest) × (parse_push p request.body ≡ value r) × IsAuthentic r w)
      parsed (value r) e = elim (cache_table-cases r w) [
        | inl same ↦ inl same
        | inr good ↦ inr (r, e, good)
      ]
      parsed (reply x) e = inl refl
      parsed (throw x) e = inl refl

  -- A table that is pushed with a good signature before it expires is what the shard serves at any
  -- later time, as long as nothing else touches the cache, also after the table has expired.
  pub push_then_serve :
      (request : Request) (r : PushRequest) (w z : World p)
      → parse_push p request.body ≡ value r
      → IsAuthentic r w
      → truthy r.body ≡ true
      → w.time ≤ z.time
      → p.read z.kv z.time routing_table_kv_key
        ≡ p.read (handle_routing_table_push p request env w).1.kv z.time routing_table_kv_key
      → handle_routing_table_serve p z
        ≡ (value (json_response r.body 200 ((codes "Cache-Control", max_age p) ∷ [])), z)
  unfolding handle_routing_table_serve get_cached_routing_table kv_get
  push_then_serve request r w z form good filled le untouched =
      let run : (handle_routing_table_push p request env w).1.kv
          ≡ p.write w.kv w.time routing_table_kv_key (doc r.body) none =
        (unfold handle_routing_table_push in
          unfold cache_table in
          unfold now in unfold kv_put in rw (form, good.signed, good.in_time) refl) in
      let found : p.read z.kv z.time routing_table_kv_key ≡ some (doc r.body) =
        untouched
        ∙ ap (λ s. p.read s z.time routing_table_kv_key) run
        ∙ laws.read-write_self w.kv w.time routing_table_kv_key (doc r.body) none z.time le in
      rw (found, filled) refl
