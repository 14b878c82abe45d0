-- ===== src/Router/Enroll.antt =====
-- `handleRegister` of router/router.js: the registration of a client.
use nex_talk_relay.Base.{
  Text, codes, ℕ, zero, suc, ◌+◌, ◌*◌, Bool, false, not, ◌&&◌, Option, none, some, List, [], ◌∷◌,
  ◌++◌, map, decimal, length, if◌then◌else◌,
}
use nex_talk_relay.Js.{
  Json, undefined, num, str, arr, from_list, Number, get, truthy, to_text, object,
}
use nex_talk_relay.Js.Regex.{is_digits}
use nex_talk_relay.Platform.{Platform, Fetched, unreachable, answered}
use nex_talk_relay.Platform.Exec.{Outcome, value, reply, throw, pure, lift, stop_if, ◌>>=◌, ◌>>◌}
use nex_talk_relay.Platform.Http.{Request, Response, json_ok, json_err}
use nex_talk_relay.Platform.World.{Run, now, random_hex, fetch}
use nex_talk_relay.Router.Answers.{sign_hex, build_signed_response}
use nex_talk_relay.Router.Config.{RouterEnv, hmac_hex, get_routing_table_version}
use nex_talk_relay.Router.Register.Handlers.{verify_ed25519}
use nex_talk_relay.Router.Ring.{replication_factor, replicas_for_era}
use nex_talk_relay.Shard.Admin.{is_ok}
use nex_talk_relay.Shard.Crypto.{is_hex_value, is_apart, lower_case, to_number, ◌∶◌, sha256_hex}

abbrev pub capability_ttl_seconds : ℕ
capability_ttl_seconds = 31_536_000

-- What `handleRegister` reads from its body.
pub record ClientRequest : Type 0 where
  pub pubkey : Json
  pub timestamp : Json
  pub signature : Text
  pub request_id : Json

-- the tests on the form of the body
unfoldable pub parse_client : Option Json → Outcome ClientRequest
parse_client none = reply (json_err (codes "Request body must be valid JSON") 400)
parse_client (some body) =
    let pubkey = get (codes "pubkey") body in
    let timestamp = get (codes "timestamp") body in
    let signature = get (codes "signature") body in
    if not (is_hex_value 64 64 pubkey)
    then reply (json_err (codes "pubkey must be 64-char hex") 400)
    else if not (truthy timestamp && is_digits (to_text timestamp))
    then reply (json_err (codes "timestamp required") 400)
    else if not (is_hex_value 128 128 signature)
    then reply (json_err (codes "signature must be 128-char hex") 400)
    else value (record {
      pubkey = pubkey;
      timestamp = timestamp;
      signature = to_text signature;
      request_id = get (codes "request_id") body;
    })

-- A member of a replica set as a JSON value and in a template string.
abbrev pub url_json : Option Text → Json
url_json none = undefined
url_json (some u) = str u

abbrev pub url_text : Option Text → Text
url_text none = codes "undefined"
url_text (some u) = u

abbrev pub url_array : List (Option Text) → Json
url_array urls = arr (from_list (map url_json urls))

-- `shardUrls[start..]`, as many as `replicationFactor` says; `NaN` is no turn of the loop
abbrev pub factor_turns : Number → ℕ
factor_turns none = 0
factor_turns (some r) = r

abbrev pub first_url : List (Option Text) → Option Text
first_url [] = none
first_url (u ∷ us) = u

-- A capability for a mailbox that the Router mints.
pub record Capability : Type 0 where
  pub mailbox_id : Text
  pub client : Text
  pub read_secret : Text
  pub cap_exp : ℕ
  pub cap_nonce : Text
  pub cap_sig : Text
  pub replicas : List (Option Text)

unfoldable pub capability_message : Text → Text → ℕ → Text → Text
capability_message mailbox_id client cap_exp cap_nonce =
    codes "cap"
    ∶ codes "v2"
    ∶ mailbox_id
    ∶ client
    ∶ codes "mailbox.create"
    ∶ decimal cap_exp
    ∶ cap_nonce

-- What became of a `/create` at a replica.
pub record CreateResult : Type 0 where
  pub ok : Bool
  pub status : ℕ
  pub text : Text

unfoldable pub create_outcome : Fetched → CreateResult
create_outcome (answered status body) = record {
  ok = is_ok status;
  status = status;
  text = if is_ok status then [] else body;
}
create_outcome (unreachable e) = record { ok = false; status = 0; text = e }

-- `text.slice(0, n)`
abbrev pub prefix : ℕ → Text → Text
prefix zero t = []
prefix (suc n) [] = []
prefix (suc n) (c ∷ t) = c ∷ prefix n t

-- The primary's failure fails the registration; `createResults[0]` of none is a TypeError.
unfoldable pub primary_created : List CreateResult → Outcome Unit
primary_created [] = throw (codes "TypeError")
primary_created (r ∷ rs) =
    if r.ok
    then value tt
    else reply (
        json_err
          (codes "Failed to create mailbox on primary shard ("
            ++ (decimal r.status ++ (codes ": " ++ (prefix 200 r.text ++ codes ")"))))
          502)

module _ (p : Platform) where
  -- The request is recent, and its key is held by who sends it; the key in lower case is passed on.
  unfoldable pub authenticate_client : ClientRequest → Run p Text
  authenticate_client r = do
    t ← now p
    stop_if (is_apart t (to_number p r.timestamp) 30_000)
        (json_err (codes "timestamp outside allowed skew") 401)
    client ← lift (lower_case r.pubkey)
    stop_if
        (not (
          verify_ed25519 p (to_text r.pubkey) (codes "register" ∶ client ∶ to_text r.timestamp)
            r.signature))
        (json_err (codes "signature verification failed") 401)
    pure client

  unfoldable pub mint_capability : RouterEnv → List Text → Text → Run p Capability
  mint_capability env urls client = do
    let mailbox_id = hmac_hex p client env.server_secret
    let factor = replication_factor env.replication_factor (length urls)
    let replicas = replicas_for_era p client (length urls) urls (factor_turns factor)
    read_secret ← random_hex p 32
    t ← now p
    let cap_exp = t + capability_ttl_seconds * 1000
    cap_nonce ← random_hex p 16
    cap_sig ← sign_hex p env.signing_key (capability_message mailbox_id client cap_exp cap_nonce)
    pure (record {
      mailbox_id = mailbox_id;
      client = client;
      read_secret = read_secret;
      cap_exp = cap_exp;
      cap_nonce = cap_nonce;
      cap_sig = cap_sig;
      replicas = replicas;
    })

  -- `createBody`
  unfoldable pub create_body : Capability → Json
  create_body c = object (
      (codes "mailbox_id", str c.mailbox_id)
      ∷ (codes "read_secret_hash", str (sha256_hex p c.read_secret))
      ∷ (codes "cap_exp", num c.cap_exp)
      ∷ (codes "cap_sig", str c.cap_sig)
      ∷ (codes "replica_shard_urls", url_array c.replicas)
      ∷ (codes "cap_version", num 2)
      ∷ (codes "client_pubkey", str c.client)
      ∷ (codes "cap_nonce", str c.cap_nonce)
      ∷ [])

  -- The requests of `Promise.all`, each of which catches its own failure.
  unfoldable pub create_all : Json → List (Option Text) → Run p (List CreateResult)
  create_all body [] = pure []
  create_all body (url ∷ urls) = do
    answer ← fetch p (url_text url ++ codes "/create") body
    rest ← create_all body urls
    pure (create_outcome answer ∷ rest)

  unfoldable pub register_response : Capability → ℕ → Json
  register_response c version = object (
      (codes "mailbox_id", str c.mailbox_id)
      ∷ (codes "read_secret", str c.read_secret)
      ∷ (codes "shard_url", url_json (first_url c.replicas))
      ∷ (codes "replica_shard_urls", url_array c.replicas)
      ∷ (codes "expires_at", num c.cap_exp)
      ∷ (codes "table_version", num version)
      ∷ [])

  -- Any truthy `request_id` asks for a signed envelope.
  unfoldable pub answer_client : RouterEnv → Json → Json → Run p Response
  answer_client env request_id response =
      if truthy request_id
      then (do
        signed ← build_signed_response p env request_id 200 response
        pure (json_ok signed []))
      else pure (json_ok response [])

  unfoldable pub handle_register : Request → RouterEnv → List Text → Run p Response
  handle_register request env urls = do
    r ← lift (parse_client request.body)
    client ← authenticate_client r
    c ← mint_capability env urls client
    results ← create_all (create_body c) c.replicas
    lift (primary_created results)
    version ← get_routing_table_version p env.cfg
    answer_client env r.request_id (register_response c version)
