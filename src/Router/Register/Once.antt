-- ===== src/Router/Register/Once.antt =====
-- A proof-of-work challenge is redeemed once, and only with the work done.
use nex_talk_relay.Base.{
  codes, ◌≤◌, ◌≡◌, refl, ap, ◌∙◌, false, none, some, ltb, Option-cases, inl, inr, arith,
}
use nex_talk_relay.Encoding.{utf8}
use nex_talk_relay.Platform.{Platform, Stored, Challenge, as_challenge}
use nex_talk_relay.Platform.Exec.{value, reply}
use nex_talk_relay.Platform.Http.{json_err}
use nex_talk_relay.Platform.Laws.{KvLaws}
use nex_talk_relay.Platform.World.{World, now, kv_get, kv_delete}
use nex_talk_relay.Router.Register.{RegisterRequest, pow_nonce_key}
use nex_talk_relay.Router.Register.Handlers.{load_challenge, redeem}
use nex_talk_relay.Shard.Crypto.{◌∶◌}
use nex_talk_relay.Shard.Work.{leading_zero_bits}

module _ (p : Platform) (laws : KvLaws p) where
  -- What a challenge that is redeemed at `w` was, and what becomes of it.
  record Redeemed (r : RegisterRequest) (w : World p) : Type 0 where
    stored : Stored
    issued : Challenge
    found : p.read w.kv w.time (pow_nonce_key r.nonce) ≡ some stored
    readable : as_challenge stored ≡ some issued
    in_time : ltb issued.expires_at w.time ≡ false
    work :
        ltb
          (leading_zero_bits (p.sha256 (utf8 (r.nonce ∶ r.shard_url ∶ r.solution))))
          issued.difficulty
        ≡ false
    removed : (redeem p r w).1.kv ≡ p.remove w.kv w.time (pow_nonce_key r.nonce)

  redeemed :
      (r : RegisterRequest) (w : World p) (u : Unit) → (redeem p r w).0 ≡ value u → Redeemed r w
  unfolding redeem load_challenge now kv_get kv_delete
  redeemed r w u ok = elim (Option-cases (p.read w.kv w.time (pow_nonce_key r.nonce))) [
    | inl missing ↦ absurd (ground arith)
    | inr (s, found) ↦ elim (Option-cases (as_challenge s)) [
      | inl bad ↦ absurd (ground arith)
      | inr (c, readable) ↦ record {
        stored = s;
        issued = c;
        found = found;
        readable = readable;
        in_time = ground arith;
        work = ground arith;
        removed = ground arith;
      }
    ]
  ]

  -- A registration that passes the proof of work uses its nonce up: any later one with the same nonce
  -- is refused, whatever its URL and solution, as long as the nonce is not issued again.
  pub redeem_once :
      (r again : RegisterRequest) (w z : World p) (u : Unit)
      → again.nonce ≡ r.nonce
      → (redeem p r w).0 ≡ value u
      → w.time ≤ z.time
      → p.read z.kv z.time (pow_nonce_key r.nonce)
        ≡ p.read (redeem p r w).1.kv z.time (pow_nonce_key r.nonce)
      → redeem p again z ≡ (
        reply (
            json_err
              (codes "unknown, expired, or already-used nonce — request a fresh /pow_challenge")
              401),
        z,
      )
  unfolding redeem load_challenge kv_get
  redeem_once r again w z u same ok le untouched =
      let gone : p.read z.kv z.time (pow_nonce_key again.nonce) ≡ none =
        ap (λ n. p.read z.kv z.time (pow_nonce_key n)) same
        ∙ untouched
        ∙ ap (λ s. p.read s z.time (pow_nonce_key r.nonce)) (redeemed r w u ok).removed
        ∙ laws.read-remove_self w.kv w.time (pow_nonce_key r.nonce) z.time le in
      rw gone refl
