-- ===== src/Router/Rotate/Overtaken.antt =====
-- The entry of a registration in the list of shards, and a registration at a known URL
-- (`handleRegisterShard`) against a rotation of its key (`handleRotateShardKey`), of router/router.js.
use nex_talk_relay.Base.{
  ◌+◌, none, leb, lt-leb, ◌<◌, length, ◌++◌, Bool, Text, codes, same, same_refl, to_lower, ℕ, ◌≡◌,
  refl, ap, ◌∙◌, Bool-cases, inl, inr, true, false, some, List, [], ◌∷◌, map, any, find,
}
use nex_talk_relay.Js.{object, str, num, get, bool, Json}
use nex_talk_relay.Platform.{shards, Platform, ShardRecord}
use nex_talk_relay.Platform.Exec.{value, reply}
use nex_talk_relay.Platform.Http.{json_ok, json_err}
use nex_talk_relay.Platform.Laws.{KvLaws}
use nex_talk_relay.Platform.World.{World, now, kv_get, kv_put}
use nex_talk_relay.Router.Register.{
  routing_table_version_key, registered_shards_key, current_version, RouterCfg, RegisterRequest,
  has_url, renewed, upsert_shard,
}
use nex_talk_relay.Router.Register.Handlers.{add_shard, bump_version}
use nex_talk_relay.Router.Rotate.{get, RotateRequest, current_key}
use nex_talk_relay.Router.Rotate.Authorized.{registered, registered-written}

-- The first record of a known URL has the new key when the list has been renewed.
find-renewed :
    (url pubkey : Text) (t : ℕ) (ss : List ShardRecord)
    → any (has_url url) ss ≡ true
    → (s : ShardRecord) × (find (has_url url) (map (renewed url pubkey t) ss) ≡ some s)
      × (s.pubkey ≡ pubkey)
find-renewed url pubkey t [] known = cc
find-renewed url pubkey t (s ∷ ss) known = elim (Bool-cases (has_url url s)) [
  | inl here ↦ rw (here, same_refl url) (_, refl, refl)
  | inr away ↦ rw (away, away) (find-renewed url pubkey t ss (rw away at known))
]

find-last :
    {A : Type 0} (test : A → Bool) (xs : List A) (x : A)
    → any test xs ≡ false
    → test x ≡ true
    → find test (xs ++ x ∷ []) ≡ some x
find-last test [] x none_before h = rw h refl
find-last test (y ∷ ys) x none_before h = elim (Bool-cases (test y)) [
  | inl yes_ ↦ (let wrong = rw yes_ at none_before in cc)
  | inr no_ ↦ rw no_ (find-last test ys x (rw no_ at none_before) h)
]

module _ (p : Platform) (laws : KvLaws p) (cfg : RouterCfg) where
  add_shard-registered :
      (r : RegisterRequest) (pubkey : Text) (w : World p)
      → any (has_url r.shard_url) (registered p w) ≡ true
      → registered p (add_shard p cfg r pubkey w).1
        ≡ map (renewed r.shard_url pubkey w.time) (registered p w)
  unfolding add_shard bump_version now kv_get kv_put upsert_shard
  add_shard-registered r pubkey w known = rw known (registered-written p laws w.kv w.time _ _)

  -- The answer to a registration that is entered, with the new list.
  abbrev entered : RegisterRequest → World p → List ShardRecord → Json
  entered r w ss = object (
      (codes "registered", bool true)
      ∷ (codes "shard_url", str r.shard_url)
      ∷ (codes "shard_count", num (length ss))
      ∷ (
        codes "table_version",
        num (
            current_version cfg.routing_table_version (
              p.read (p.write w.kv w.time registered_shards_key (shards ss) none) w.time
                routing_table_version_key)
            + 1),
      )
      ∷ [])

  -- Where there is room, a registration that comes as far as the list of shards is entered there.
  pub add_shard-enters :
      (r : RegisterRequest) (pubkey : Text) (w : World p)
      → length (registered p w) < cfg.max_registered_shards
      → (s : ShardRecord) × (body : Json) × (find
            (has_url r.shard_url)
            (registered p (add_shard p cfg r pubkey w).1)
          ≡ some s)
        × (s.pubkey ≡ pubkey)
        × ((add_shard p cfg r pubkey w).0 ≡ value (json_ok body []))
        × (get (codes "registered") body ≡ bool true)
  unfolding add_shard bump_version now kv_get kv_put upsert_shard get codes
  add_shard-enters r pubkey w room =
      elim (Bool-cases (any (has_url r.shard_url) (registered p w))) [
        | inl known ↦
            (let (s, found, key) = find-renewed r.shard_url pubkey w.time (registered p w) known in
              (
                s,
                entered r w (map (renewed r.shard_url pubkey w.time) (registered p w)),
                ap (find (has_url r.shard_url)) (add_shard-registered r pubkey w known) ∙ found,
                key,
                rw known refl,
                refl,
              ))
        | inr new ↦
            (let full : leb cfg.max_registered_shards (length (registered p w)) ≡ false =
                lt-leb _ _ room in
              (
                record {
                  url = r.shard_url;
                  pubkey = pubkey;
                  registered_at = w.time;
                  updated_at = none;
                  previous_pubkey = none;
                },
                entered r w (
                    registered p w
                    ++ record {
                      url = r.shard_url;
                      pubkey = pubkey;
                      registered_at = w.time;
                      updated_at = none;
                      previous_pubkey = none;
                    }
                      ∷ []),
                rw (new, full)
                    (ap (find (has_url r.shard_url)) (registered-written p laws w.kv w.time _ _)
                      ∙ find-last (has_url r.shard_url) (registered p w) _ new
                          (same_refl r.shard_url)),
                refl,
                rw (new, full) refl,
                refl,
              ))
      ]

  -- Where a URL is registered, a registration with any other key that comes as far as the list of
  -- shards puts its key there, with no sign of the key before it; the holder of that key can then not
  -- rotate it any more: the Router answers that it is not the current identity.
  pub add_shard-overtakes :
      (r : RegisterRequest) (pubkey : Text) (rotation : RotateRequest) (w : World p)
      → any (has_url r.shard_url) (registered p w) ≡ true
      → rotation.shard_url ≡ r.shard_url
      → same (to_lower pubkey) (to_lower rotation.old_pubkey) ≡ false
      → current_key rotation (registered p (add_shard p cfg r pubkey w).1)
        ≡ reply (json_err (codes "old_pubkey does not match current shard identity") 401)
  unfolding current_key
  add_shard-overtakes r pubkey rotation w known there other =
      let (s, found, key) = find-renewed r.shard_url pubkey w.time (registered p w) known in
      let at_url =
        ap (λ u. find (has_url u) (map (renewed r.shard_url pubkey w.time) (registered p w))) there
        ∙ found in
      rw (add_shard-registered r pubkey w known, at_url, current_key, key, other) refl
