-- ===== src/Combined/Own.antt =====
-- A node of combined/worker.js that is the primary shard of a mailbox itself: `createOnReplica` and
-- `existsOnReplica` at its own URL.
use nex_talk_relay.Base.{
  Text, arith, same_refl, to_lower, ◌+◌, ◌*◌, ◌≤◌, ◌<◌, ◌≡◌, refl, ap, sym, ◌∙◌, true, none, some,
  List, lt→ltb, if◌then◌else◌,
}
use nex_talk_relay.Js.{str}
use nex_talk_relay.Platform.{Platform, Mailbox, mailbox}
use nex_talk_relay.Platform.Exec.{value}
use nex_talk_relay.Platform.Laws.{KvLaws, HashLaws, IsKeyPair}
use nex_talk_relay.Platform.World.{World, now, kv_get, kv_put}
use nex_talk_relay.Combined.{NodeEnv, router_env, shard_env, is_self}
use nex_talk_relay.Combined.Accepted.{minted-good, minted-time}
use nex_talk_relay.Combined.Create.{create_on_replica, local_create, store_locally, own_request}
use nex_talk_relay.Combined.Resolve.{exists_on_replica}
use nex_talk_relay.Router.Answers.Signed.{IsLowerHex}
use nex_talk_relay.Router.Enroll.{Capability, mint_capability}
use nex_talk_relay.Shard.{Cfg}
use nex_talk_relay.Shard.Create.{mailbox_key, mailbox_after_create, check_capability, client_key}
use nex_talk_relay.Shard.Crypto.{lower_case}

module _ (p : Platform) (laws : KvLaws p) (env : NodeEnv) (cfg : Cfg) (url : Text)
    (own : env.self_url ≡ some url) where
  is_self-own : is_self env (some url) ≡ true
  unfolding is_self
  is_self-own = rw (own, same_refl url) refl

  -- What the node keeps of the mailbox.
  abbrev stored_mailbox : Capability → World p → Mailbox
  stored_mailbox c w =
      (mailbox_after_create (own_request p c) (str (to_lower c.client)) w.time
        (p.read w.kv w.time (mailbox_key (to_lower c.mailbox_id)))).0

  -- With a good capability the node stores the mailbox.
  create-stores :
      (c : Capability) (w : World p)
      → check_capability p (shard_env env) w.time (own_request p c) ≡ value true
      → create_on_replica p env cfg c (some url) w ≡ (
        value true,
        record w {
          kv =
              p.write w.kv w.time
                (mailbox_key (to_lower c.mailbox_id))
                (mailbox (stored_mailbox c w))
                (some cfg.mailbox_ttl_seconds);
        },
      )
  unfolding create_on_replica local_create store_locally own_request client_key lower_case now
      kv_get kv_put
  create-stores c w good = rw (is_self-own, good, local_create) refl

  -- A node that is its own primary needs no network to enroll a client: where the Router's half has
  -- minted a capability for a key of 64 lower-case digits, the node's own `/create` succeeds, and
  -- until the mailbox expires the node finds it at every later time at which nothing has changed it.
  pub own_mailbox-found :
      (hashes : HashLaws p) (keys : IsKeyPair p env.signing_key env.signing_public)
      (urls : List Text) (client : Text) (c : Capability) (w v z : World p)
      → IsLowerHex 64 client
      → mint_capability p (router_env env) urls client w ≡ (value c, v)
      → v.time ≤ z.time
      → z.time < v.time + 1000 * cfg.mailbox_ttl_seconds
      → p.read z.kv z.time (mailbox_key c.mailbox_id)
        ≡ p.read (create_on_replica p env cfg c (some url) v).1.kv z.time (mailbox_key c.mailbox_id)
      → ((create_on_replica p env cfg c (some url) v).0 ≡ value true)
        × (exists_on_replica p env (some url) c.mailbox_id z ≡ (value true, z))
  unfolding exists_on_replica kv_get
  own_mailbox-found hashes keys urls client c w v z form made le alive untouched =
      let same_time = minted-time p hashes (router_env env) keys urls client c w v form made in
      let (lower, good) =
        minted-good p hashes (router_env env) keys (shard_env env) urls client c w v v.time refl
          form made (omega (arith, same_time)) in
      let run = create-stores c v good in
      let m = mailbox (stored_mailbox c v) in
      let ttl = some cfg.mailbox_ttl_seconds in
      let read =
        laws.read-write_self v.kv v.time (mailbox_key (to_lower c.mailbox_id)) m ttl z.time le in
      let found : p.read z.kv z.time (mailbox_key c.mailbox_id) ≡ some m =
        untouched
        ∙ ap (λ r. p.read r.1.kv z.time (mailbox_key c.mailbox_id)) run
        ∙ ap
            (λ id.
              p.read (p.write v.kv v.time (mailbox_key (to_lower c.mailbox_id)) m ttl) z.time
                (mailbox_key id))
            (sym lower)
        ∙ read
        ∙ ap (λ b. if b then some m else none) (lt→ltb _ _ alive) in
      (ap (λ r. r.0) run, rw (is_self-own, lower, found) refl)
