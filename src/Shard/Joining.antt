-- ===== src/Shard/Joining.antt =====
-- The self-registration that runs in the background of every request: `ensureSelfRegistered` of
-- shard/worker.js. What it logs is left out.
pub mod Taken
use nex_talk_relay.Base.{
  Text, codes, ℕ, ◌-◌, ◌*◌, Bool, true, false, not, ◌&&◌, Option, none, some, [], ◌∷◌, ◌++◌,
  decimal, ltb, if◌then◌else◌,
}
use nex_talk_relay.Js.{Json, undefined, str, Number, get, to_text}
use nex_talk_relay.Platform.{Platform, Stored, text, Fetched, unreachable, answered, number_of}
use nex_talk_relay.Platform.Exec.{Outcome, value, reply, throw, pure, lift, ◌>>=◌, ◌>>◌}
use nex_talk_relay.Platform.World.{Run, now, kv_get, kv_put, fetch}
use nex_talk_relay.Shard.{Env}
use nex_talk_relay.Shard.Admin.{self_register_kv_key, is_set, or_empty, is_ok, signed_registration}
use nex_talk_relay.Shard.Crypto.{to_number}
use nex_talk_relay.Shard.Keys.{ensure_shard_identity}
use nex_talk_relay.Shard.Work.{solve_pow}

abbrev pub self_register_min_interval_ms : ℕ
self_register_min_interval_ms = 12 * 60 * 60 * 1000

-- `Date.now() - n < SELF_REGISTER_MIN_INTERVAL_MS`
abbrev pub is_recent : ℕ → Number → Bool
is_recent t none = false
is_recent t (some n) = ltb (t - n) self_register_min_interval_ms

module _ (p : Platform) where
  -- Whether the last registration is recent; the mark holds a text.
  unfoldable pub is_registered : ℕ → Option Stored → Bool
  is_registered t none = false
  is_registered t (some (text [])) = false
  is_registered t (some (text (c ∷ s))) = is_recent t (number_of p (c ∷ s))
  is_registered t (some _) = false

  abbrev pub parsed_challenge : Option Json → Outcome Json
  parsed_challenge none = throw (codes "SyntaxError")
  parsed_challenge (some v) = value v

  unfoldable pub challenge_of : Fetched → Outcome Json
  challenge_of (unreachable e) = throw e
  challenge_of (answered status body) =
      if is_ok status
      then parsed_challenge (p.parse body)
      else throw (codes "pow_challenge failed with status " ++ decimal status)

  -- A difficulty that is no number is never met.
  unfoldable pub solution_of : Text → Text → Number → Outcome Text
  solution_of nonce self_url none = throw (codes "failed to solve PoW within attempt budget")
  solution_of nonce self_url (some difficulty) = elim (solve_pow p nonce self_url difficulty) [
    | none ↦ throw (codes "failed to solve PoW within attempt budget")
    | some solution ↦ value solution
  ]

  abbrev pub mark_registered : Fetched → Run p Unit
  mark_registered (unreachable e) = lift (throw e)
  mark_registered (answered status body) =
      if is_ok status
      then (do t ← now p; kv_put p self_register_kv_key (text (decimal t)) none)
      else pure tt

  module _ (encode_uri_component : Text → Text) where
    -- the `try` block
    unfoldable pub register_self : Text → Text → Run p Unit
    register_self router_url self_url = do
      own ← ensure_shard_identity p
      answer ←
          fetch p
            (router_url ++ (codes "/pow_challenge?shard_url=" ++ encode_uri_component self_url))
            undefined
      challenge ← lift (challenge_of answer)
      let nonce = get (codes "nonce") challenge
      solution ←
          lift (
            solution_of (to_text nonce) self_url (to_number p (get (codes "difficulty") challenge)))
      payload ← signed_registration p own self_url nonce (str solution)
      result ← fetch p (router_url ++ codes "/register_shard") payload
      mark_registered result

    -- Every failure is caught.
    unfoldable pub try_register : Text → Text → Run p Unit
    try_register router_url self_url w = (value tt, (register_self router_url self_url w).1)

    unfoldable pub ensure_self_registered : Env → Run p Unit
    ensure_self_registered env =
        if is_set env.router_url && is_set env.self_url
        then (do
          last ← kv_get p self_register_kv_key
          t ← now p
          (if is_registered t last
              then pure tt
              else try_register (or_empty env.router_url) (or_empty env.self_url)))
        else pure tt
