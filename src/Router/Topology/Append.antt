-- ===== src/Router/Topology/Append.antt =====
-- The list of shards only grows at its end, so that the places on the ring stay what they are.
use nex_talk_relay.Base.{
  Text, same, eq_of_same, ℕ, ◌<◌, ◌≡◌, refl, ap, ◌∙◌, Bool, true, ◌||◌, List, [], ◌∷◌, ◌++◌, any,
  any-append, map, length, length-append, get_elem?, get_elem?-append, if◌then◌else◌, Bool-cases,
  inl, inr, arith,
}
use nex_talk_relay.Platform.{ShardRecord}
use nex_talk_relay.Router.Topology.{includes, merge_urls, shard_urls}

merge_urls-append :
    (merged urls more : List Text)
    → merge_urls merged (urls ++ more) ≡ merge_urls (merge_urls merged urls) more
unfolding merge_urls
merge_urls-append merged [] more = refl
merge_urls-append merged (url ∷ urls) more =
    merge_urls-append (if includes url merged then merged else merged ++ url ∷ []) urls more

-- The shard at a place of the list stays there.
merge_urls-keeps :
    (merged urls : List Text) (i : ℕ)
    → i < length merged
    → get_elem? (merge_urls merged urls) i ≡ get_elem? merged i
unfolding merge_urls
merge_urls-keeps merged [] i h = refl
merge_urls-keeps merged (url ∷ urls) i h = elim (Bool-cases (includes url merged)) [
  | inl old ↦ rw old (merge_urls-keeps merged urls i h)
  | inr new ↦ rw new (
      merge_urls-keeps (merged ++ url ∷ []) urls i (omega (arith, length-append merged (url ∷ [])))
      ∙ get_elem?-append merged (url ∷ []) i h)
]

map-append :
    (xs ys : List ShardRecord)
    → map (λ (s : ShardRecord). s.url) (xs ++ ys)
      ≡ map (λ (s : ShardRecord). s.url) xs ++ map (λ (s : ShardRecord). s.url) ys
map-append [] ys = refl
map-append (x ∷ xs) ys = ap (λ zs. x.url ∷ zs) (map-append xs ys)

-- Shards that are registered later do not move the others: a place of the list of shards that is
-- taken holds the same URL after any further registrations.
pub shard_urls-stable :
    (base : List Text) (registered later : List ShardRecord) (i : ℕ)
    → i < length (shard_urls base registered)
    → get_elem? (shard_urls base (registered ++ later)) i ≡ get_elem? (shard_urls base registered) i
unfolding shard_urls
shard_urls-stable base registered later i h =
    ap (λ urls. get_elem? (merge_urls base urls) i) (map-append registered later)
    ∙ ap (λ urls. get_elem? urls i)
        (merge_urls-append base (map (λ (s : ShardRecord). s.url) registered)
          (map (λ (s : ShardRecord). s.url) later))
    ∙ merge_urls-keeps (merge_urls base (map (λ (s : ShardRecord). s.url) registered))
        (map (λ (s : ShardRecord). s.url) later) i h

-- What is there need not be looked for again.
absorb :
    (u url : Text) (merged : List Text) (b : Bool)
    → includes url merged ≡ true
    → (includes u merged || b) ≡ (includes u merged || (same u url || b))
absorb u url merged b old = elim (Bool-cases (same u url)) [
  | inl here ↦ let e = eq_of_same u url here in rw (here, ap (λ v. includes v merged) e ∙ old) refl
  | inr away ↦ rw away refl
]

merge_urls-includes :
    (merged urls : List Text) (u : Text)
    → includes u (merge_urls merged urls) ≡ (includes u merged || includes u urls)
unfolding merge_urls
merge_urls-includes merged [] u = ground arith
merge_urls-includes merged (url ∷ urls) u = elim (Bool-cases (includes url merged)) [
  | inl old ↦ rw old (merge_urls-includes merged urls u ∙ absorb u url merged (includes u urls) old)
  | inr new ↦ rw new (
      merge_urls-includes (merged ++ url ∷ []) urls u
      ∙ ground (arith, any-append (same u) merged (url ∷ [])))
]

-- A URL is in the list of shards if and only if it is a configured one or one of a registered shard.
pub shard_urls-includes :
    (base : List Text) (registered : List ShardRecord) (u : Text)
    → includes u (shard_urls base registered)
      ≡ (includes u base || any (λ (s : ShardRecord). same u s.url) registered)
unfolding shard_urls
shard_urls-includes base registered u =
    merge_urls-includes base (map (λ (s : ShardRecord). s.url) registered) u
    ∙ ap (λ b. includes u base || b) (in_map registered)
  where
    in_map :
        (xs : List ShardRecord)
        → includes u (map (λ (s : ShardRecord). s.url) xs)
          ≡ any (λ (s : ShardRecord). same u s.url) xs
    in_map [] = refl
    in_map (x ∷ xs) = ap (λ b. same u x.url || b) (in_map xs)
