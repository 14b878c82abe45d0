-- ===== src/Shard/Joining/Taken.antt =====
-- A self-registration of a shard (shard/worker.js `ensureSelfRegistered`, `handleAdminRegister`) at the
-- Router (router/router.js `handleRegisterShard`).
use nex_talk_relay.Base.{
  ◌<◌, ◌++◌, length, find, Text, codes, ℕ, ◌+◌, ◌-◌, ◌*◌, ◌≤◌, ◌≡◌, refl, true, false, ◌&&◌, none,
  some, [], ◌∷◌, all, decimal, number_digits, number_digits-decimal, parse_digits, ltb, leb, arith,
  Bool-cases, inl, inr,
}
use nex_talk_relay.Encoding.{bytes_to_hex, utf8}
use nex_talk_relay.Encoding.RoundTrip.{hex_to_bytes-bytes_to_hex, hex_to_bytes_floor-agrees}
use nex_talk_relay.Js.{bool, Json, str, get, truthy, to_text, object}
use nex_talk_relay.Js.Regex.{is_digit, is_digits, is_http_url}
use nex_talk_relay.Platform.{ShardRecord, Platform, Identity, Challenge, challenge, number_of}
use nex_talk_relay.Platform.Http.{Request, json_ok}
use nex_talk_relay.Platform.Exec.{value}
use nex_talk_relay.Platform.Laws.{IsKeyPair, KvLaws}
use nex_talk_relay.Platform.World.{World, now, kv_get, kv_delete}
use nex_talk_relay.Router.Answers.Signed.{IsLowerHex, IsLowerHex-bytes, is_hex_string-within}
use nex_talk_relay.Router.Register.{
  has_url, RouterCfg, RegisterRequest, parse_register, pow_nonce_key,
}
use nex_talk_relay.Router.Register.Handlers.{
  verify_ed25519, load_challenge, redeem, prove_key, handle_register_shard,
}
use nex_talk_relay.Router.Rotate.Overtaken.{add_shard-enters}
use nex_talk_relay.Router.Rotate.Authorized.{registered}
use nex_talk_relay.Shard.Limits.{rate_limit, client_ip}
use nex_talk_relay.Shard.Admin.{signed_registration}
use nex_talk_relay.Shard.Crypto.{◌∶◌, is_apart, lower_case, to_number}
use nex_talk_relay.Shard.Keys.{sign_with_shard_key}
use nex_talk_relay.Shard.Work.{is_solution, leading_zero_bits}

all-digits : (acc : ℕ) (t : Text) (n : ℕ) → parse_digits acc t ≡ some n → all is_digit t ≡ true
all-digits acc [] n h = refl
all-digits acc (c ∷ t) n h = elim (Bool-cases (leb 48 c && leb c 57)) [
  | inl digit ↦ rw (digit, all-digits (acc * 10 + (c - 48)) t n (rw digit at h)) refl
  | inr other ↦ (let none_is_some : none ≡ some n = rw other at h in cc)
]

-- A text that reads as a number is a time stamp of the right form.
timestamp-form :
    (p : Platform) (t : Text) (n : ℕ)
    → number_digits t ≡ some n
    → (truthy (str t) ≡ true) × (is_digits t ≡ true) × (to_number p (str t) ≡ some n)
unfolding is_digits to_number number_of
timestamp-form p [] n h = let none_is_some : none ≡ some n = unfold number_digits in h in cc
timestamp-form p (c ∷ t) n h =
    let digits : all is_digit (c ∷ t) ≡ true = all-digits 0 (c ∷ t) n (unfold number_digits in h) in
    (refl, digits, rw (h, number_of) refl)

-- The key pair of a shard: its public key is written as 64 digits in lower case.
pub record IsShardKey (p : Platform) (own : Identity) : Type 0 where
  pub keys : IsKeyPair p own.private_key own.public_key_hex
  pub form : IsLowerHex 64 own.public_key_hex

module _ (p : Platform) (laws : KvLaws p) (own : Identity) (good : IsShardKey p own) where
  -- What the shard signs, the Router verifies.
  signed-verified :
      (message : Text)
      → (sig : Text) × ((w : World p)
          → sign_with_shard_key p own.private_key message w ≡ (value sig, w))
        × IsLowerHex 128 sig
        × (verify_ed25519 p own.public_key_hex message sig ≡ true)
  unfolding sign_with_shard_key verify_ed25519
  signed-verified message =
      let (sig, run, size, small, verified) = good.keys.signs (utf8 message) in
      let (_, read) = hex_to_bytes-bytes_to_hex sig small in
      let public =
        hex_to_bytes_floor-agrees own.public_key_hex good.keys.public_bytes good.keys.public_read in
      (
        bytes_to_hex sig,
        λ w. rw (run, sign_with_shard_key) refl,
        IsLowerHex-bytes 64 sig size small,
        rw (public, read, verified, verify_ed25519) refl,
      )

  -- What the shard sends, as the Router reads it.
  abbrev sent_request : Text → Text → Text → ℕ → Text → RegisterRequest
  sent_request self_url nonce solution t signature = record {
    shard_url = self_url;
    shard_pubkey = str own.public_key_hex;
    nonce = nonce;
    solution = solution;
    timestamp = str (decimal t);
    signature = signature;
  }

  abbrev sent_body : Text → Text → Text → ℕ → Text → Json
  sent_body self_url nonce solution t signature = object (
      (codes "shard_url", str self_url)
      ∷ (codes "shard_pubkey", str own.public_key_hex)
      ∷ (codes "nonce", str nonce)
      ∷ (codes "solution", str solution)
      ∷ (codes "timestamp", str (decimal t))
      ∷ (codes "signature", str signature)
      ∷ [])

  parse_register-sent :
      (self_url nonce solution : Text) (t : ℕ) (signature : Text)
      → truthy (str self_url) ≡ true
      → is_http_url self_url ≡ true
      → truthy (str nonce) ≡ true
      → truthy (str solution) ≡ true
      → IsLowerHex 128 signature
      → parse_register (some (sent_body self_url nonce solution t signature))
        ≡ value (sent_request self_url nonce solution t signature)
  unfolding parse_register get codes to_text
  parse_register-sent self_url nonce solution t signature url_filled url nonce_filled
        solution_filled h =
      let (_, key_form) =
        is_hex_string-within 64 64 64 _ (omega arith) (omega arith) (omega arith) good.form in
      let (_, signature_form) =
        is_hex_string-within 128 128 128 _ (omega arith) (omega arith) (omega arith) h in
      let (time_filled, digits, _) = timestamp-form p (decimal t) t (number_digits-decimal t) in
      rw
        (
          url_filled, url, key_form, nonce_filled, solution_filled, time_filled, digits,
          signature_form,
        )
        refl

  redeem-passes :
      (r : RegisterRequest) (c : Challenge) (z : World p)
      → p.read z.kv z.time (pow_nonce_key r.nonce) ≡ some (challenge c)
      → z.time ≤ c.expires_at
      → is_solution p r.nonce r.shard_url c.difficulty r.solution ≡ true
      → redeem p r z ≡ (value tt, record z { kv = p.remove z.kv z.time (pow_nonce_key r.nonce) })
  unfolding redeem load_challenge now kv_get kv_delete is_solution
  redeem-passes r c z found soon solved =
      let in_time : ltb c.expires_at z.time ≡ false = ground arith in
      let enough : ltb (leading_zero_bits (p.sha256 (utf8 (r.nonce ∶ r.shard_url ∶ r.solution))))
            c.difficulty
          ≡ false =
        ground (arith, solved) in
      rw (found, in_time, enough) refl

  -- A registration that a shard makes with its own key, as the body of a request, is entered at the
  -- Router, and the answer says so: the shard is then listed under its URL with its key. The request passes the
  -- rate limit of its address (`v` is the state behind it); there the nonce is an open challenge that the
  -- solution meets, the time stamp is at most a minute off, and behind the removal of the challenge the
  -- mesh has room.
  pub registration-taken :
      (cfg : RouterCfg) (request : Request) (self_url nonce solution : Text) (c : Challenge)
      (w z v : World p)
      → truthy (str self_url) ≡ true
      → is_http_url self_url ≡ true
      → truthy (str nonce) ≡ true
      → truthy (str solution) ≡ true
      → rate_limit p (codes "register-shard-ip:" ++ client_ip request) 6 3600 z ≡ (value true, v)
      → p.read v.kv v.time (pow_nonce_key nonce) ≡ some (challenge c)
      → v.time ≤ c.expires_at
      → is_solution p nonce self_url c.difficulty solution ≡ true
      → is_apart v.time (some w.time) 60_000 ≡ false
      → length (registered p (record v { kv = p.remove v.kv v.time (pow_nonce_key nonce) }))
        < cfg.max_registered_shards
      → (payload : Json) × (s : ShardRecord) × (body : Json) × (signed_registration p own self_url
            (str nonce)
            (str solution)
            w
          ≡ (value payload, w))
        × (find (has_url self_url) (
              registered p
                (handle_register_shard p (record request { body = some payload }) cfg z).1)
            ≡ some s)
        × (s.pubkey ≡ own.public_key_hex)
        × ((handle_register_shard p (record request { body = some payload }) cfg z).0
            ≡ value (json_ok body []))
        × (get (codes "registered") body ≡ bool true)
  unfolding signed_registration prove_key now lower_case to_text handle_register_shard client_ip
  registration-taken cfg request self_url nonce solution c w z v url_filled url nonce_filled
        solution_filled limited found soon solved recent room =
      let message = codes "register_shard" ∶ self_url ∶ own.public_key_hex ∶ decimal w.time in
      let (sig, run, form, verified) = signed-verified message in
      let r = sent_request self_url nonce solution w.time sig in
      let v' : World p = record v { kv = p.remove v.kv v.time (pow_nonce_key nonce) } in
      let (_, _, time) = timestamp-form p (decimal w.time) w.time (number_digits-decimal w.time) in
      let parsed =
        parse_register-sent self_url nonce solution w.time sig url_filled url nonce_filled
          solution_filled form in
      let redeemed = redeem-passes r c v found soon solved in
      let (s, body, listed, key, answer, says) =
        add_shard-enters p laws cfg r own.public_key_hex v' room in
      (
        sent_body self_url nonce solution w.time sig,
        s,
        body,
        rw (run w) refl,
        rw (parsed, limited, redeemed, time, recent, good.form.lower, verified) listed,
        key,
        rw (parsed, limited, redeemed, time, recent, good.form.lower, verified) answer,
        says,
      )
