-- ===== src/Combined/Accepted.antt =====
-- A capability that the Router mints (router/router.js, combined/worker.js `handleRegister`) is good at
-- every shard that knows the Router's key (shard/worker.js `handleCreate`).
use nex_talk_relay.Base.{
  Text, codes, to_lower, ℕ, ◌+◌, ◌*◌, ◌≤◌, ◌<◌, ◌≡◌, refl, ap, true, false, not, some, List, ◌++◌,
  length, ltb, arith,
}
use nex_talk_relay.Encoding.{bytes_to_hex, utf8}
use nex_talk_relay.Js.{get, to_text}
use nex_talk_relay.Platform.{Platform}
use nex_talk_relay.Platform.Exec.{value, stop_if, ◌>>=◌, ◌>>◌}
use nex_talk_relay.Platform.Http.{Request, Response, err_with, retry_after}
use nex_talk_relay.Platform.Laws.{HashLaws, IsKeyPair}
use nex_talk_relay.Platform.World.{World, Run, now, random_hex}
use nex_talk_relay.Combined.Create.{own_request}
use nex_talk_relay.Router.Answers.Signed.{
  IsLowerHex, IsLowerHex-bytes, truthy-text, truthy-num, is_hex_string-within, sign_hex-verified,
}
use nex_talk_relay.Router.Config.{RouterEnv, hmac_hex}
use nex_talk_relay.Router.Enroll.{
  Capability, capability_message, mint_capability, create_body, factor_turns,
}
use nex_talk_relay.Router.Ring.{replication_factor, replicas_for_era}
use nex_talk_relay.Shard.{Env, Cfg}
use nex_talk_relay.Shard.Create.{
  CreateRequest, parse_create, check_capability, handle_create, store_mailbox,
}
use nex_talk_relay.Shard.Crypto.{
  to_number, lower_case, sha256_hex, verify_ed25519_message, verify_capability_v2,
}
use nex_talk_relay.Shard.Limits.{client_ip, rate_limit}

module _ (p : Platform) (hashes : HashLaws p) (env : RouterEnv)
    (keys : IsKeyPair p env.signing_key env.signing_public) where
  -- A capability as the Router makes it: of the right form, and signed with its key.
  record IsMinted (c : Capability) : Type 0 where
    mailbox : IsLowerHex 64 c.mailbox_id
    client : IsLowerHex 64 c.client
    nonce : IsLowerHex 32 c.cap_nonce
    signature : IsLowerHex 128 c.cap_sig
    in_future : 0 < c.cap_exp
    signed :
        verify_ed25519_message p env.signing_public
          (capability_message c.mailbox_id c.client c.cap_exp c.cap_nonce)
          c.cap_sig
        ≡ true

  sha256_hex-IsLowerHex : (t : Text) → IsLowerHex 64 (sha256_hex p t)
  unfolding sha256_hex
  sha256_hex-IsLowerHex t =
      let (size, small) = hashes.sha256-bytes (utf8 t) in IsLowerHex-bytes 32 _ size small

  parse_create-minted :
      (c : Capability)
      → IsMinted c
      → parse_create p (some (create_body p c)) ≡ value (own_request p c)
  unfolding parse_create create_body own_request get codes to_number to_text
  parse_create-minted c h =
      let (id_form, _) =
        is_hex_string-within 16 128 64 _ (omega arith) (omega arith) (omega arith) h.mailbox in
      let (hash_form, _) =
        is_hex_string-within 64 64 64 _ (omega arith) (omega arith) (omega arith)
          (sha256_hex-IsLowerHex c.read_secret) in
      let (_, client_form) =
        is_hex_string-within 64 64 64 _ (omega arith) (omega arith) (omega arith) h.client in
      rw
        (
          id_form,
          hash_form,
          truthy-num c.cap_exp h.in_future,
          truthy-text 128 c.cap_sig (omega arith) h.signature.size,
          client_form,
          truthy-text 32 c.cap_nonce (omega arith) h.nonce.size,
        )
        refl

  check_capability-minted :
      (shard : Env) (c : Capability) (t : ℕ)
      → shard.router_signing_public ≡ env.signing_public
      → IsMinted c
      → t ≤ c.cap_exp
      → check_capability p shard t (own_request p c) ≡ value true
  unfolding check_capability own_request verify_capability_v2 lower_case capability_message
  check_capability-minted shard c t knows h le =
      let fresh : ltb c.cap_exp t ≡ false = ground arith in
      rw (fresh, knows, h.mailbox.lower, h.client.lower) (ap value h.signed)

  mint-IsMinted :
      (urls : List Text) (client : Text) (w : World p)
      → IsLowerHex 64 client
      → (c : Capability) × (v : World p) × (mint_capability p env urls client w ≡ (value c, v))
        × IsMinted c
        × (c.cap_exp ≡ w.time + 31_536_000 * 1000)
        × (v.time ≡ w.time)
  unfolding mint_capability hmac_hex random_hex now
  mint-IsMinted urls client w h =
      let id = hmac_hex p client env.server_secret in
      let nonce = bytes_to_hex (p.random_bytes (w.draws + 1) 16) in
      let (sig, run, form, good) =
        sign_hex-verified p env keys
          (capability_message id client (w.time + 31_536_000 * 1000) nonce) in
      let (id_size, id_small) = hashes.hmac-bytes (utf8 env.server_secret) (utf8 client) in
      let (nonce_size, nonce_small) = hashes.random-bytes (w.draws + 1) 16 in
      let c : Capability = record {
        mailbox_id = id;
        client = client;
        read_secret = bytes_to_hex (p.random_bytes w.draws 32);
        cap_exp = w.time + 31_536_000 * 1000;
        cap_nonce = nonce;
        cap_sig = sig;
        replicas =
            replicas_for_era p client (length urls) urls
              (factor_turns (replication_factor env.replication_factor (length urls)));
      } in
      let v : World p = record w { draws = w.draws + 1 + 1 } in
      (
        c,
        v,
        rw (run v, mint_capability) refl,
        record {
          mailbox = IsLowerHex-bytes 32 _ id_size id_small;
          client = h;
          nonce = IsLowerHex-bytes 16 _ nonce_size nonce_small;
          signature = form;
          in_future = omega arith;
          signed = good;
        },
        refl,
        refl,
      )

module _ (p : Platform) (hashes : HashLaws p) (env : RouterEnv)
    (keys : IsKeyPair p env.signing_key env.signing_public) where
  -- What holds of a capability that was minted at `w`, at a shard that knows the Router's key.
  pub minted-good :
      (shard : Env) (urls : List Text) (client : Text) (c : Capability) (w v : World p) (t : ℕ)
      → shard.router_signing_public ≡ env.signing_public
      → IsLowerHex 64 client
      → mint_capability p env urls client w ≡ (value c, v)
      → t ≤ w.time + 31_536_000 * 1000
      → (to_lower c.mailbox_id ≡ c.mailbox_id)
        × (check_capability p shard t (own_request p c) ≡ value true)
  minted-good shard urls client c w v t knows h made le =
      let (c', v', run, minted, exp, _) = mint-IsMinted p hashes env keys urls client w h in
      let same : c' ≡ c = cc (run, made) in
      let checked =
        check_capability-minted p hashes env keys shard c' t knows minted (omega (arith, exp)) in
      (rw same at minted.mailbox.lower, rw same at checked)

  -- Minting takes no time.
  pub minted-time :
      (urls : List Text) (client : Text) (c : Capability) (w v : World p)
      → IsLowerHex 64 client
      → mint_capability p env urls client w ≡ (value c, v)
      → v.time ≡ w.time
  minted-time urls client c w v h made =
      let (c', v', run, _, _, same) = mint-IsMinted p hashes env keys urls client w h in
      cc (run, made, same)

-- The request that carries the Router's `createBody`.
abbrev pub create_call : Platform → Request → Capability → Request
create_call p request c = record request { body = some (create_body p c) }

module _ (p : Platform) where
  -- What `handleCreate` does behind the tests of the form and of the capability.
  unfoldable pub behind_capability : Request → Cfg → CreateRequest → Run p Response
  behind_capability request cfg r = do
    ip_ok ← rate_limit p (codes "create-ip:" ++ client_ip request) cfg.max_creates_per_ip 60
    stop_if (not ip_ok)
        (err_with (codes "Too many create requests, slow down") 429 (retry_after (codes "60")))
    store_mailbox p cfg r

  -- For every public key of 64 lower-case digits the Router makes a capability, and every shard that
  -- knows the Router's key takes it until a year has passed: a create request with it passes the tests
  -- of the form and of the capability, and only the rate limit stands before the store. The
  -- hypotheses are that the Router's keys are a key pair, and the lengths of digests and random bytes.
  pub mint-accepted :
      (hashes : HashLaws p) (env : RouterEnv)
      (keys : IsKeyPair p env.signing_key env.signing_public) (shard : Env) (cfg : Cfg)
      (request : Request) (urls : List Text) (client : Text) (w z : World p)
      → shard.router_signing_public ≡ env.signing_public
      → IsLowerHex 64 client
      → z.time ≤ w.time + 31_536_000 * 1000
      → (c : Capability) × (v : World p) × (mint_capability p env urls client w ≡ (value c, v))
        × (handle_create p (create_call p request c) shard cfg z
            ≡ behind_capability (create_call p request c) cfg (own_request p c) z)
  unfolding handle_create behind_capability now
  mint-accepted hashes env keys shard cfg request urls client w z knows h le =
      let (c, v, run, minted, exp, _) = mint-IsMinted p hashes env keys urls client w h in
      let form = parse_create-minted p hashes env keys c minted in
      let good =
        check_capability-minted p hashes env keys shard c z.time knows minted
          (omega (arith, exp)) in
      (c, v, run, rw (form, good) refl)
