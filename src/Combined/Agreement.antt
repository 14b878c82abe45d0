-- ===== src/Combined/Agreement.antt =====
-- The combined worker's `handleCreate` against the shard's.
use nex_talk_relay.Base.{
  not, Text, codes, ℕ, ◌≡◌, ◌↔◌, refl, ap, sym, ◌∙◌, inl, inr, Bool, Bool-cases, some, ◌++◌,
}
use nex_talk_relay.Js.{Json}
use nex_talk_relay.Platform.{Platform}
use nex_talk_relay.Platform.Ends.{Outcome-cases, bind-value}
use nex_talk_relay.Platform.Exec.{value, pure, lift, ◌>>=◌, stop_if}
use nex_talk_relay.Platform.Http.{Request, Response, err, err_with, retry_after}
use nex_talk_relay.Platform.World.{World, now, kv_get, kv_put}
use nex_talk_relay.Combined.{NodeEnv, shard_env}
use nex_talk_relay.Combined.Create.{local_create, store_locally, create_answer, node_create}
use nex_talk_relay.Shard.{Cfg}
use nex_talk_relay.Shard.Create.{
  CreateRequest, parse_create, check_capability, client_key, store_with, store_mailbox,
  handle_create,
}
use nex_talk_relay.Shard.Limits.{client_ip, rate_limit, bucket_key, at_least, counter}

module _ (p : Platform) (cfg : Cfg) where
  -- The two workers store the same mailbox, and say the same of it.
  store-agrees :
      (r : CreateRequest) (w : World p)
      → (do
        result ← (do created ← store_locally p cfg r; pure (some created))
        lift (create_answer cfg r result))
          w
        ≡ store_mailbox p cfg r w
  unfolding store_locally store_mailbox store_with kv_get now kv_put
  store-agrees r w = elim (Outcome-cases (client_key r)) [
    | inl (client, e) ↦ rw e refl
    | inr (inl (x, e)) ↦ rw e refl
    | inr (inr (x, e)) ↦ rw e refl
  ]

  rate_limit-ends :
      (bucket : Text) (limit window : ℕ) (w : World p)
      → (ok : Bool) × (v : World p) × (rate_limit p bucket limit window w ≡ (value ok, v))
        × (v.time ≡ w.time)
  unfolding rate_limit kv_get now kv_put
  rate_limit-ends bucket limit window w =
      elim (Bool-cases
        (at_least (counter p (p.read w.kv w.time (bucket_key bucket window w.time))) limit)) [
          | inl full ↦ rw full (_, _, refl, refl)
          | inr room ↦ rw room (_, _, refl, refl)
        ]

  -- A create request that succeeds has a key that is a text, or needs none.
  create-key :
      (request : Request) (env : NodeEnv) (w : World p) (response : Response) (r : CreateRequest)
      → parse_create p request.body ≡ value r
      → (handle_create p request (shard_env env) cfg w).0 ≡ value response
      → (client : Json) × (client_key r ≡ value client)
  unfolding handle_create store_mailbox
  create-key request env w response r e h =
      let (t, _, a) = bind-value (now p) _ w response (rw e at h) in
      let (ok, _, b) = bind-value (lift (check_capability p (shard_env env) t r)) _ _ response a in
      let (_, _, c) =
        bind-value (stop_if (not ok) (err (codes "invalid or expired Router capability") 401)) _ _
          response b in
      let (ip_ok, _, d) =
        bind-value
          (rate_limit p (codes "create-ip:" ++ client_ip request) cfg.max_creates_per_ip 60) _ _
          response c in
      let (_, _, f) =
        bind-value
          (stop_if (not ip_ok)
            (err_with (codes "Too many create requests, slow down") 429 (retry_after (codes "60"))))
          _ _ response d in
      let (client, key, _) = bind-value (lift (client_key r)) _ _ response f in (client, key)

  node-key :
      (request : Request) (env : NodeEnv) (w : World p) (response : Response) (r : CreateRequest)
      → parse_create p request.body ≡ value r
      → (node_create p request env cfg w).0 ≡ value response
      → (client : Json) × (client_key r ≡ value client)
  unfolding node_create
  node-key request env w response r e h =
      let (ip_ok, _, d) =
        bind-value
          (rate_limit p (codes "create-ip:" ++ client_ip request) cfg.max_creates_per_ip 60) _ _
          response (rw e at h) in
      let (_, _, f) =
        bind-value
          (stop_if (not ip_ok)
            (err_with (codes "Too many create requests, slow down") 429 (retry_after (codes "60"))))
          _ _ response d in
      let (client, key, _) = bind-value (lift (client_key r)) _ _ response f in (client, key)

  -- The two workers where the body has the right form and a key.
  agrees_with_key :
      (request : Request) (env : NodeEnv) (w v : World p) (response : Response) (r : CreateRequest)
      (client : Json)
      → parse_create p request.body ≡ value r
      → client_key r ≡ value client
      → (node_create p request env cfg w ≡ (value response, v))
        ↔ (handle_create p request (shard_env env) cfg w ≡ (value response, v))
  unfolding node_create handle_create local_create now
  agrees_with_key request env w v response r client e key =
      let (ok, u, run, same) =
        rate_limit-ends (codes "create-ip:" ++ client_ip request) cfg.max_creates_per_ip 60 w in
      let again : check_capability p (shard_env env) u.time r
          ≡ check_capability p (shard_env env) w.time r =
        ap (λ t. check_capability p (shard_env env) t r) same in
      let kept = store-agrees r u in
      elim (Outcome-cases (check_capability p (shard_env env) w.time r)) [
        | inl (c, check) ↦ (elim (Bool-cases c) [
          | inl good ↦ (elim (Bool-cases ok) [
            | inl free ↦
                rw (e, check, good, run, free, key, again, check, good)
                  (λ h. sym kept ∙ h, λ h. kept ∙ h)
            | inr full ↦ rw (e, check, good, run, full) (λ h. h, λ h. h)
          ])
          | inr bad ↦ (elim (Bool-cases ok) [
            | inl free ↦ rw (e, check, bad, run, free, key, again, check, bad) (λ h. cc, λ h. cc)
            | inr full ↦ rw (e, check, bad, run, full) (λ h. cc, λ h. cc)
          ])
        ])
        | inr (inl (x, check)) ↦ (elim (Bool-cases ok) [
          | inl free ↦ rw (e, check, run, free, key, again, check) (λ h. cc, λ h. cc)
          | inr full ↦ rw (e, check, run, full) (λ h. cc, λ h. cc)
        ])
        | inr (inr (x, check)) ↦ (elim (Bool-cases ok) [
          | inl free ↦ rw (e, check, run, free, key, again, check) (λ h. cc, λ h. cc)
          | inr full ↦ rw (e, check, run, full) (λ h. cc, λ h. cc)
        ])
      ]

  -- The shard tests the capability before the rate limit, the combined worker behind it: a create
  -- request succeeds at the one if and only if it does at the other, with the same response and the
  -- same state behind it.
  pub node_create-agrees :
      (request : Request) (env : NodeEnv) (w v : World p) (response : Response)
      → (node_create p request env cfg w ≡ (value response, v))
        ↔ (handle_create p request (shard_env env) cfg w ≡ (value response, v))
  node_create-agrees request env w v response = elim (Outcome-cases (parse_create p request.body)) [
    | inr (inl (x, e)) ↦ (unfold node_create in unfold handle_create in rw e (λ h. h, λ h. h))
    | inr (inr (x, e)) ↦ (unfold node_create in unfold handle_create in rw e (λ h. h, λ h. h))
    | inl (r, e) ↦ (
      λ h.
          (let (client, key) = node-key request env w response r e (ap (λ o. o.0) h) in
            (agrees_with_key request env w v response r client e key).0 h),
      λ h.
          (let (client, key) = create-key request env w response r e (ap (λ o. o.0) h) in
            (agrees_with_key request env w v response r client e key).1 h),
    )
  ]
