-- ===== src/Router/Rotate/Authorized.antt =====
-- Who can change the key of a registered shard by `handleRotateShardKey` (router/router.js).
use nex_talk_relay.Base.{
  eq_of_same, if◌then◌else◌, Option-cases, to_lower, some, same, find, Text, codes, ◌≡◌, ◌≢◌, ◌⊎◌,
  refl, ap, ◌∙◌, inl, inr, Bool-cases, ℕ, true, false, none, List, map, arith, append_cancel_left,
  ne_of_first,
}
use nex_talk_relay.Platform.{Platform, Stored, ShardRecord, shards}
use nex_talk_relay.Platform.Ends.{Outcome-cases}
use nex_talk_relay.Platform.Exec.{value, reply, throw}
use nex_talk_relay.Platform.Http.{Request, Response, json_err}
use nex_talk_relay.Platform.Laws.{KvLaws}
use nex_talk_relay.Platform.World.{World, now, kv_get, kv_put}
use nex_talk_relay.Router.Config.{get_registered_shards}
use nex_talk_relay.Router.Register.{
  RouterCfg, registered_shards_key, routing_table_version_key, registered_of,
}
use nex_talk_relay.Router.Register.Handlers.{verify_ed25519, bump_version}
use nex_talk_relay.Router.Rotate.{
  RotateRequest, parse_rotate, rotated_text, current_key, check_rotation, store_rotation,
  handle_rotate_shard_key,
}
use nex_talk_relay.Shard.Crypto.{is_apart, to_number, ◌∶◌}

module _ (p : Platform) where
  abbrev pub registered : World p → List ShardRecord
  registered w = registered_of (p.read w.kv w.time registered_shards_key)

  -- The shard is registered under the old key, the request is recent, and both keys sign for it.
  pub record IsAuthorized (r : RotateRequest) (w : World p) : Type 0 where
    pub recent : is_apart w.time (to_number p r.timestamp) 60_000 ≡ false
    pub before : ShardRecord
    pub found : find (λ s. same s.url r.shard_url) (registered w) ≡ some before
    pub current : to_lower before.pubkey ≡ to_lower r.old_pubkey
    pub old_signs :
        verify_ed25519 p r.old_pubkey (codes "key_rotation" ∶ rotated_text r) r.old_signature ≡ true
    pub new_signs :
        verify_ed25519 p r.new_pubkey (codes "key_rotation_accept" ∶ rotated_text r) r.new_signature
        ≡ true

current_key-found :
    (r : RotateRequest) (existing : List ShardRecord) (u : Unit)
    → current_key r existing ≡ value u
    → (s : ShardRecord) × (find (λ s. same s.url r.shard_url) existing ≡ some s)
      × (to_lower s.pubkey ≡ to_lower r.old_pubkey)
unfolding current_key
current_key-found r existing u h =
    elim (Option-cases (find (λ s. same s.url r.shard_url) existing)) [
      | inl gone ↦ (let wrong = rw (gone, current_key) at h in cc)
      | inr (s, found) ↦ elim (Bool-cases (same (to_lower s.pubkey) (to_lower r.old_pubkey))) [
        | inl equal ↦ (s, found, eq_of_same _ _ equal)
        | inr other ↦ (let wrong = rw (found, other, current_key) at h in cc)
      ]
    ]

-- The record of a shard behind the rotation, at the URL of the request and elsewhere.
abbrev pub moved : RotateRequest → ℕ → ShardRecord → ShardRecord
moved r t s =
    if same s.url r.shard_url
    then record s {
      url = r.shard_url;
      pubkey = to_lower r.new_pubkey;
      updated_at = some t;
      previous_pubkey = some (to_lower r.old_pubkey);
    }
    else s

module _ (p : Platform) (laws : KvLaws p) where
  version-ne-registered : routing_table_version_key ≢ registered_shards_key
  unfolding registered_shards_key routing_table_version_key codes
  version-ne-registered h = ne_of_first _ _ (omega arith) (append_cancel_left (codes "r") _ _ h)

  -- A list of shards that is written before the version is the list that is registered.
  pub registered-written :
      (s : p.Store) (t : ℕ) (ss : List ShardRecord) (v : Stored)
      → registered_of (
          p.read
            (p.write
              (p.write s t registered_shards_key (shards ss) none)
              t
              routing_table_version_key
              v
              none)
            t
            registered_shards_key)
        ≡ ss
  unfolding registered_of
  registered-written s t ss v = ap registered_of (
      laws.read-write_ne _ t routing_table_version_key v none t registered_shards_key
        version-ne-registered
      ∙ laws.read-write_self s t registered_shards_key (shards ss) none t (omega arith))

module _ (p : Platform) (laws : KvLaws p) (cfg : RouterCfg) where
  store_rotation-registered :
      (r : RotateRequest) (existing : List ShardRecord) (w : World p)
      → registered p (store_rotation p cfg r existing w).1 ≡ map (moved r w.time) existing
  unfolding store_rotation bump_version now kv_get kv_put
  store_rotation-registered r existing w = registered-written p laws w.kv w.time _ _

  -- The checks change nothing, and they pass only for an authorized request.
  check_rotation-cases :
      (r : RotateRequest) (w : World p)
      → is_apart w.time (to_number p r.timestamp) 60_000 ≡ false
      → ((check_rotation p r (registered p w) w ≡ (value tt, w)) × IsAuthorized p r w)
        ⊎ (((x : Response) × (check_rotation p r (registered p w) w ≡ (reply x, w)))
            ⊎ ((x : Text) × (check_rotation p r (registered p w) w ≡ (throw x, w))))
  unfolding check_rotation
  check_rotation-cases r w recent = elim (Outcome-cases (current_key r (registered p w))) [
    | inr (inl (x, e)) ↦ inr (inl (x, rw e refl))
    | inr (inr (x, e)) ↦ inr (inr (x, rw e refl))
    | inl (u, e) ↦
        (elim (Bool-cases
          (verify_ed25519 p r.old_pubkey (codes "key_rotation" ∶ rotated_text r) r.old_signature)) [
            | inr bad ↦ inr (
                inl
                  (json_err (codes "old key signature verification failed") 401, rw (e, bad) refl))
            | inl old ↦
                (elim (Bool-cases (
                  verify_ed25519 p r.new_pubkey (codes "key_rotation_accept" ∶ rotated_text r)
                    r.new_signature)) [
                      | inr bad ↦ inr (
                          inl (
                            json_err (codes "new key self-signature verification failed") 401,
                            rw (e, old, bad) refl,
                          ))
                      | inl new ↦ inl (
                        rw (e, old, new) refl,
                        (let (s, found, key) = current_key-found r (registered p w) u e in
                            record {
                              recent = recent;
                              before = s;
                              found = found;
                              current = key;
                              old_signs = old;
                              new_signs = new;
                            }),
                      )
                    ])
          ])
  ]

  -- A rotation request leaves the state as it was, or the shard is registered under the old key, the
  -- request is recent, and both the old key and the new one sign for it; then the list of registered
  -- shards is the one before, but that the record at the URL of the shard has the new key in lower
  -- case, the old one as the previous key, and the time of the request as its update.
  pub handle_rotate_shard_key-IsAuthorized :
      (request : Request) (w : World p)
      → ((handle_rotate_shard_key p request cfg w).1 ≡ w)
        ⊎ ((r : RotateRequest) × (parse_rotate request.body ≡ value r)
            × IsAuthorized p r w
            × (registered p (handle_rotate_shard_key p request cfg w).1
                ≡ map (moved r w.time) (registered p w)))
  unfolding handle_rotate_shard_key get_registered_shards now kv_get
  handle_rotate_shard_key-IsAuthorized request w =
      elim (Outcome-cases (parse_rotate request.body)) [
        | inr (inl (x, e)) ↦ inl (rw e refl)
        | inr (inr (x, e)) ↦ inl (rw e refl)
        | inl (r, e) ↦ (elim (Bool-cases (is_apart w.time (to_number p r.timestamp) 60_000)) [
          | inl late ↦ inl (rw (e, late) refl)
          | inr recent ↦ (elim (check_rotation-cases r w recent) [
            | inl (run, ok) ↦
                inr (r, e, ok, rw (e, recent, run) (store_rotation-registered r (registered p w) w))
            | inr (inl (x, run)) ↦ inl (rw (e, recent, run) refl)
            | inr (inr (x, run)) ↦ inl (rw (e, recent, run) refl)
          ])
        ])
      ]
