-- ===== src/Router/Register/Handlers.antt =====
-- `handlePowChallenge` and `handleRegisterShard` of router/router.js, where ROUTER_ADMIN_KV is bound.
use nex_talk_relay.Base.{
  Text, codes, ℕ, ◌+◌, ◌*◌, Bool, true, not, none, some, [], ◌∷◌, ◌++◌, length, decimal, ltb,
}
use nex_talk_relay.Encoding.{utf8, hex_to_bytes_floor}
use nex_talk_relay.Js.{bool, num, str, to_text, object}
use nex_talk_relay.Platform.{Platform, Challenge, text, shards, challenge, as_challenge}
use nex_talk_relay.Platform.Exec.{reply, pure, lift, stop_if, ◌>>=◌, ◌>>◌}
use nex_talk_relay.Platform.Http.{Request, Response, json_ok, json_err}
use nex_talk_relay.Platform.World.{Run, now, kv_get, kv_put, kv_delete, random_hex}
use nex_talk_relay.Shard.Crypto.{is_apart, is_verified, lower_case, to_number, ◌∶◌}
use nex_talk_relay.Shard.Limits.{client_ip, rate_limit}
use nex_talk_relay.Shard.Work.{leading_zero_bits}
use nex_talk_relay.Router.Register.{
  RouterCfg, pow_nonce_key, registered_shards_key, routing_table_version_key, RegisterRequest,
  parse_register, upsert_shard, registered_of, current_version,
}

module _ (p : Platform) where
  -- `verifyEd25519` of the Router
  unfoldable pub verify_ed25519 : Text → Text → Text → Bool
  verify_ed25519 pubkey_hex message sig_hex =
      is_verified
        (p.verify (hex_to_bytes_floor pubkey_hex) (hex_to_bytes_floor sig_hex) (utf8 message))

  unfoldable pub handle_pow_challenge : Request → RouterCfg → Run p Response
  handle_pow_challenge request cfg = do
    ok_ip ← rate_limit p (codes "pow-challenge-ip:" ++ client_ip request) 30 3600
    stop_if (not ok_ip) (json_err (codes "too many challenge requests, slow down") 429)
    nonce ← random_hex p 16
    t ← now p
    let expires_at = t + 120 * 1000
    kv_put p (pow_nonce_key nonce)
        (challenge (record { difficulty = cfg.pow_difficulty_bits; expires_at = expires_at }))
        (some (120 + 5))
    pure (
        json_ok
          (object (
            (codes "nonce", str nonce)
            ∷ (codes "difficulty", num cfg.pow_difficulty_bits)
            ∷ (codes "expires_at", num expires_at)
            ∷ []))
          [])

  -- The open challenge under a nonce.
  unfoldable pub load_challenge : Text → Run p Challenge
  load_challenge nonce = do
    raw ← kv_get p (pow_nonce_key nonce)
    (elim raw [
      | none ↦ lift (
          reply (
            json_err
              (codes "unknown, expired, or already-used nonce — request a fresh /pow_challenge")
              401))
      | some s ↦ elim (as_challenge s) [
        | none ↦ lift (reply (json_err (codes "internal challenge storage error") 500))
        | some c ↦ pure c
      ]
    ])

  -- 1 and 2: the challenge is open, the work is done, and the nonce is used up.
  unfoldable pub redeem : RegisterRequest → Run p Unit
  redeem r = do
    c ← load_challenge r.nonce
    t ← now p
    stop_if (ltb c.expires_at t) (json_err (codes "PoW challenge expired") 401)
    stop_if
        (ltb (leading_zero_bits (p.sha256 (utf8 (r.nonce ∶ r.shard_url ∶ r.solution))))
          c.difficulty)
        (json_err (codes "proof-of-work does not meet required difficulty") 401)
    kv_delete p (pow_nonce_key r.nonce)

  -- 3: the key is held by who registers it; its text in lower case is passed on.
  unfoldable pub prove_key : RegisterRequest → Run p Text
  prove_key r = do
    t ← now p
    stop_if (is_apart t (to_number p r.timestamp) 60_000)
        (json_err (codes "timestamp outside allowed skew") 401)
    pubkey ← lift (lower_case r.shard_pubkey)
    stop_if
        (not (
          verify_ed25519 (to_text r.shard_pubkey)
            (codes "register_shard" ∶ r.shard_url ∶ pubkey ∶ to_text r.timestamp) r.signature))
        (json_err (codes "self-signature verification failed") 401)
    pure pubkey

  -- `getRoutingTableVersion` and the write of the next version
  unfoldable pub bump_version : RouterCfg → Run p ℕ
  bump_version cfg = do
    raw ← kv_get p routing_table_version_key
    let current = current_version cfg.routing_table_version raw
    kv_put p routing_table_version_key (text (decimal (current + 1))) none
    pure (current + 1)

  -- 4: the shard is added to the mesh or renewed.
  unfoldable pub add_shard : RouterCfg → RegisterRequest → Text → Run p Response
  add_shard cfg r pubkey = do
    raw ← kv_get p registered_shards_key
    t ← now p
    let updated = upsert_shard cfg.max_registered_shards r.shard_url pubkey t (registered_of raw)
    (elim updated [
      | none ↦ lift (
          reply (
            json_err
              (codes "mesh is at capacity ("
                ++ (decimal cfg.max_registered_shards
                    ++ codes " shards) — contact the Router operator"))
              403))
      | some ss ↦ do
        kv_put p registered_shards_key (shards ss) none
        version ← bump_version cfg
        pure (
            json_ok
              (object (
                (codes "registered", bool true)
                ∷ (codes "shard_url", str r.shard_url)
                ∷ (codes "shard_count", num (length ss))
                ∷ (codes "table_version", num version)
                ∷ []))
              [])
    ])

  unfoldable pub handle_register_shard : Request → RouterCfg → Run p Response
  handle_register_shard request cfg = do
    r ← lift (parse_register request.body)
    ip_ok ← rate_limit p (codes "register-shard-ip:" ++ client_ip request) 6 3600
    stop_if (not ip_ok)
        (json_err (codes "too many shard registration attempts from this IP, slow down") 429)
    redeem r
    pubkey ← prove_key r
    add_shard cfg r pubkey
