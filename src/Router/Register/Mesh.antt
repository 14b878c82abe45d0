-- ===== src/Router/Register/Mesh.antt =====
-- The size of the mesh under registrations.
use nex_talk_relay.Base.{
  Text, same, same_refl, eq_of_same, ◌⊎◌, sym, ℕ, ◌+◌, ◌≤◌, ◌≡◌, refl, ap, ◌∙◌, true, false, none,
  some, List, [], ◌∷◌, ◌++◌, map, any, any-append, length, length-map, length-append, leb, ◌||◌,
  if◌then◌else◌, Bool-cases, inl, inr, arith,
}
use nex_talk_relay.Platform.{ShardRecord}
use nex_talk_relay.Router.Register.{has_url, renewed, upsert_shard}

some_injective : {A : Type 0} {a b : A} → some a ≡ some b → a ≡ b
some_injective h = cc

renewed-url :
    (url pubkey u : Text) (t : ℕ) (s : ShardRecord)
    → has_url u (renewed url pubkey t s) ≡ has_url u s
renewed-url url pubkey u t s = elim (Bool-cases (same s.url url)) [
  | inl known ↦ rw known (ap (λ v. same v u) (sym (eq_of_same s.url url known)))
  | inr other ↦ rw other refl
]

renewed-any :
    (url pubkey u : Text) (t : ℕ) (ss : List ShardRecord)
    → any (has_url u) (map (renewed url pubkey t) ss) ≡ any (has_url u) ss
renewed-any url pubkey u t [] = refl
renewed-any url pubkey u t (s ∷ ss) =
    ap (λ b. b || any (has_url u) (map (renewed url pubkey t) ss)) (renewed-url url pubkey u t s)
    ∙ ap (λ b. has_url u s || b) (renewed-any url pubkey u t ss)

-- A registration that is taken leaves the mesh within its capacity, if it was within it before, and
-- the URL is among the shards. A URL that is known already adds no shard.
pub upsert_shard-bounded :
    (max_shards : ℕ) (url pubkey : Text) (t : ℕ) (existing updated : List ShardRecord)
    → length existing ≤ max_shards
    → upsert_shard max_shards url pubkey t existing ≡ some updated
    → (length updated ≤ max_shards)
      × (any (has_url url) updated ≡ true)
      × (length updated
          ≡ (if any (has_url url) existing then length existing else length existing + 1))
unfolding upsert_shard
upsert_shard-bounded max_shards url pubkey t existing updated fits taken =
    elim (Bool-cases (any (has_url url) existing)) [
      | inl known ↦
          let e : map (renewed url pubkey t) existing ≡ updated =
            some_injective (rw known at taken) in
          let same_length = length-map (renewed url pubkey t) existing in
          let there = renewed-any url pubkey url t existing in
          rw (known, ← e) (omega (arith, same_length), there ∙ known, same_length)
      | inr new ↦ appended new (Bool-cases (leb max_shards (length existing)))
    ]
  where
    fresh : ShardRecord
    fresh = record {
      url = url;
      pubkey = pubkey;
      registered_at = t;
      updated_at = none;
      previous_pubkey = none;
    }

    appended :
        any (has_url url) existing ≡ false
        → (leb max_shards (length existing) ≡ true) ⊎ (leb max_shards (length existing) ≡ false)
        → (length updated ≤ max_shards)
          × (any (has_url url) updated ≡ true)
          × (length updated
              ≡ (if any (has_url url) existing then length existing else length existing + 1))
    appended new (inl full) = let absurdity : none ≡ some updated = rw (new, full) at taken in cc
    appended new (inr room) =
        let e : existing ++ fresh ∷ [] ≡ updated = some_injective (rw (new, room) at taken) in
        let longer = length-append existing (fresh ∷ []) in
        rw (new, ← e)
          (
            ground (arith, longer),
            any-append (has_url url) existing (fresh ∷ []) ∙ ground (arith, same_refl url),
            longer,
          )
