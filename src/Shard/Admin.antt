-- ===== src/Shard/Admin.antt =====
-- The operator's handlers of shard/worker.js, its health, and its proof of identity to a client.
use nex_talk_relay.Base.{
  Text, codes, ℕ, Bool, true, false, not, ◌&&◌, Option, none, some, [], ◌∷◌, ◌++◌, decimal, length,
  leb, if◌then◌else◌, ◌==◌,
}
use nex_talk_relay.Encoding.{constant_time_equal}
use nex_talk_relay.Js.{
  Json, undefined, null, bool, num, str, get, truthy, is_string, to_text, object,
}
use nex_talk_relay.Js.Regex.{bearer}
use nex_talk_relay.Platform.{Platform, Identity, text, Fetched, unreachable, answered}
use nex_talk_relay.Platform.Exec.{Outcome, value, reply, throw, pure, lift, stop_if, ◌>>=◌, ◌>>◌}
use nex_talk_relay.Platform.Http.{Request, Response, bad_request, err, json}
use nex_talk_relay.Platform.World.{Run, now, kv_get, kv_put, fetch}
use nex_talk_relay.Shard.{Env}
use nex_talk_relay.Shard.Crypto.{◌∶◌}
use nex_talk_relay.Shard.Keys.{ensure_shard_identity, sign_with_shard_key}

unfoldable pub self_register_kv_key : Text
self_register_kv_key = codes "shard_self_registration"

-- A variable of `env` that is set and not empty.
abbrev pub is_set : Option Text → Bool
is_set none = false
is_set (some []) = false
is_set (some (c ∷ t)) = true

abbrev pub or_empty : Option Text → Text
or_empty none = []
or_empty (some t) = t

abbrev pub or_null : Option Text → Json
or_null none = null
or_null (some []) = null
or_null (some (c ∷ t)) = str (c ∷ t)

-- Whether the header carries the shared secret, where one is set.
unfoldable pub is_authorized : Request → Env → Bool
is_authorized request env =
    if is_set env.router_shared_secret
    then (elim (bearer (or_empty request.authorization)) [
      | none ↦ false
      | some provided ↦ constant_time_equal provided (or_empty env.router_shared_secret)
    ])
    else true

-- `.replace(/\/$/, "")`
unfoldable pub strip_slash : Text → Text
strip_slash [] = []
strip_slash (c ∷ []) = if c == b'/' then [] else c ∷ []
strip_slash (c ∷ d ∷ t) = c ∷ strip_slash (d ∷ t)

-- `(routerUrl || env.ROUTER_URL || "").replace(/\/$/, "")`
unfoldable pub target_router : Json → Env → Outcome Text
target_router url env =
    if truthy url
    then (if is_string url
        then value (strip_slash (to_text url))
        else throw (codes "replace is not a function"))
    else value (strip_slash (or_empty env.router_url))

-- `resp.ok`
abbrev pub is_ok : ℕ → Bool
is_ok status = leb 200 status && leb status 299

unfoldable pub is_hello_nonce : Json → Bool
is_hello_nonce v =
    truthy v && is_string v && leb 8 (length (to_text v)) && leb (length (to_text v)) 256

-- `protocol = "nextalk/v1"` in a pattern: the default stands for `undefined` alone.
unfoldable pub hello_protocol : Json → Json
hello_protocol undefined = str (codes "nextalk/v1")
hello_protocol v = v

module _ (p : Platform) where
  unfoldable pub handle_health : Request → Env → Run p Response
  handle_health request env = do
    stop_if (not (is_authorized request env)) (err (codes "Unauthorized") 401)
    kv_get p (codes "__health_check__")
    t ← now p
    pure (json (object ((codes "status", str (codes "ok")) ∷ (codes "time", num t) ∷ [])))

  unfoldable pub handle_admin_shard_info : Request → Env → Run p Response
  handle_admin_shard_info request env = do
    stop_if (not (is_authorized request env)) (err (codes "Unauthorized") 401)
    own ← ensure_shard_identity p
    pure (
        json (
          object (
            (codes "shard_pubkey", str own.public_key_hex)
            ∷ (codes "router_url", or_null env.router_url)
            ∷ (codes "self_url", or_null env.self_url)
            ∷ [])))

  -- `resp.json().catch(() => ({}))`
  unfoldable pub json_or_empty : Text → Json
  json_or_empty t = elim (p.parse t) [ none ↦ object [] | some v ↦ v ]

  abbrev pub bad_gateway : Text → Response
  bad_gateway message = err message 502

  unfoldable pub registered_answer : Fetched → Run p Response
  registered_answer (unreachable e) = pure (bad_gateway (codes "Could not reach Router: " ++ e))
  registered_answer (answered status body) =
      if is_ok status
      then (do
        t ← now p
        kv_put p self_register_kv_key (text (decimal t)) none
        pure (
            json (
              object (
                (codes "registered", bool true)
                ∷ (codes "router_response", json_or_empty body)
                ∷ []))))
      else pure (
          bad_gateway
            (codes "Router rejected registration (" ++ (decimal status ++ (codes "): " ++ body))))

  -- The registration that `handleAdminRegister` and `ensureSelfRegistered` send to the Router.
  unfoldable pub signed_registration : Identity → Text → Json → Json → Run p Json
  signed_registration own self_url nonce solution = do
    t ← now p
    signature ←
        sign_with_shard_key p own.private_key
          (codes "register_shard" ∶ self_url ∶ own.public_key_hex ∶ decimal t)
    pure (
        object (
          (codes "shard_url", str self_url)
          ∷ (codes "shard_pubkey", str own.public_key_hex)
          ∷ (codes "nonce", nonce)
          ∷ (codes "solution", solution)
          ∷ (codes "timestamp", str (decimal t))
          ∷ (codes "signature", str signature)
          ∷ []))

  unfoldable pub registration : Text → Json → Json → Run p Json
  registration self_url nonce solution = do
    own ← ensure_shard_identity p
    signed_registration own self_url nonce solution

  abbrev pub body_or_stop : Option Json → Outcome Json
  body_or_stop none = reply (bad_request (codes "Request body must be valid JSON"))
  body_or_stop (some v) = value v

  unfoldable pub handle_admin_register : Request → Env → Run p Response
  handle_admin_register request env = do
    stop_if (not (is_authorized request env)) (err (codes "Unauthorized") 401)
    body ← lift (body_or_stop request.body)
    let nonce = get (codes "nonce") body
    let solution = get (codes "solution") body
    stop_if (not (truthy nonce && is_string nonce)) (bad_request (codes "nonce is required"))
    stop_if (not (truthy solution && is_string solution))
        (bad_request (codes "solution is required"))
    target ← lift (target_router (get (codes "router_url") body) env)
    stop_if (not (is_set (some target)))
        (bad_request (codes "router_url is required (or set ROUTER_URL in wrangler.toml)"))
    stop_if (not (is_set env.self_url))
        (bad_request (codes "SELF_URL is not configured on this shard"))
    payload ← registration (or_empty env.self_url) nonce solution
    answer ← fetch p (target ++ codes "/register_shard") payload
    registered_answer answer

  unfoldable pub handle_server_hello : Request → Run p Response
  handle_server_hello request = do
    body ← lift (body_or_stop request.body)
    let nonce = get (codes "nonce") body
    let protocol = hello_protocol (get (codes "protocol") body)
    stop_if (not (is_hello_nonce nonce))
        (err (codes "nonce must be a non-empty string (8–256 chars)") 400)
    stop_if (not (is_string protocol && leb (length (to_text protocol)) 32))
        (err (codes "protocol must be a short identifier string") 400)
    own ← ensure_shard_identity p
    t ← now p
    signature ← sign_with_shard_key p own.private_key (
        codes "NexTalk Server Authentication"
        ∶ to_text protocol
        ∶ to_text nonce
        ∶ own.public_key_hex
        ∶ decimal t)
    pure (
        json (
          object (
            (codes "version", num 1)
            ∷ (codes "type", str (codes "server_hello"))
            ∷ (codes "protocol", protocol)
            ∷ (codes "server_public_key", str own.public_key_hex)
            ∷ (codes "challenge", nonce)
            ∷ (codes "timestamp", str (decimal t))
            ∷ (codes "signature", str signature)
            ∷ [])))
