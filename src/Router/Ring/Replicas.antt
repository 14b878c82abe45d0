-- ===== src/Router/Ring/Replicas.antt =====
-- The replica set of a point on the ring.
use native.Mathlib.Nat.{mod-add-mod, mod-eq_of_lt, mod-eq-sub-mod}
use native.Mathlib.Omega.{mod_fact}
use nex_talk_relay.Base.{
  Text, to_lower, ℕ, zero, suc, ◌+◌, ◌*◌, ◌%◌, ◌≤◌, ◌<◌, ◌≡◌, ◌≢◌, refl, sym, ap, ◌∙◌, some, List,
  length, get_elem?, get_elem?-lt, ltb, ltb→lt, Bool-cases, if◌then◌else◌, inl, inr, ◌-◌, arith,
}
use nex_talk_relay.Platform.{Platform}
use nex_talk_relay.Router.Ring.{
  hash_point, at_index, owner_for_era, ring_loop, ring_start, replica_set_for_era, replicas_for_era,
}

length-ring_loop :
    (start n : ℕ) (urls : List Text) (i k : ℕ) → length (ring_loop start n urls i k) ≡ k
unfolding ring_loop
length-ring_loop start n urls i zero = refl
length-ring_loop start n urls i (suc k) = ap suc (length-ring_loop start n urls (suc i) k)

get-ring_loop :
    (start n : ℕ) (urls : List Text) (i k j : ℕ)
    → j < k
    → get_elem? (ring_loop start n urls i k) j ≡ some (at_index urls (start + i + j) n)
unfolding ring_loop
get-ring_loop start n urls i zero j h = elim h [ ]
get-ring_loop start n urls i (suc k) zero h = ap (λ m. some (at_index urls m n)) (omega arith)
get-ring_loop start n urls i (suc k) (suc j) h =
    get-ring_loop start n urls (suc i) k j (omega arith)
    ∙ ap (λ m. some (at_index urls m n)) (omega arith)

get-replicas :
    (p : Platform) (id : Text) (n : ℕ) (urls : List Text) (r j : ℕ)
    → j < r
    → get_elem? (replicas_for_era p id (suc n) urls r) j
      ≡ some (get_elem? urls ((hash_point p (to_lower id) + j) % suc n))
unfolding replicas_for_era replica_set_for_era at_index ring_start
get-replicas p id n urls r j h =
    get-ring_loop (hash_point p (to_lower id) % suc n) (suc n) urls 0 r j h
    ∙ ap (λ m. some (get_elem? urls (m % suc n))) (omega arith)
    ∙ ap (λ m. some (get_elem? urls m)) (mod-add-mod (hash_point p (to_lower id)) (suc n) j)

-- The replica set has as many members as are asked for, and at the place `j` stands the shard that is
-- `j` places behind the owner of the key, counted around the `n` shards of the era.
pub replicas_for_era-ring :
    (p : Platform) (id : Text) (n : ℕ) (urls : List Text) (r j : ℕ)
    → j < r
    → (length (replicas_for_era p id (suc n) urls r) ≡ r)
      × (get_elem? (replicas_for_era p id (suc n) urls r) j
          ≡ some (get_elem? urls ((hash_point p (to_lower id) + j) % suc n)))
unfolding replicas_for_era replica_set_for_era
replicas_for_era-ring p id n urls r j h = (
  length-ring_loop (ring_start (hash_point p (to_lower id)) (suc n)) (suc n) urls 0 r,
  get-replicas p id n urls r j h,
)

-- The first replica of a key is its owner in the same era.
pub replicas_for_era-primary :
    (p : Platform) (id : Text) (n : ℕ) (urls : List Text) (r : ℕ)
    → get_elem? (replicas_for_era p id (suc n) urls (suc r)) 0
      ≡ some (owner_for_era p id (suc n) urls)
unfolding owner_for_era at_index
replicas_for_era-primary p id n urls r =
    get-replicas p id n urls (suc r) 0 (omega arith)
    ∙ ap (λ m. some (get_elem? urls (m % suc n))) (omega arith)

-- No text stands at two places.
pub record IsDistinct (urls : List Text) : Type 0 where
  pub at : (i j : ℕ) (u : Text) → get_elem? urls i ≡ some u → get_elem? urls j ≡ some u → i ≡ j

-- The remainder of a number below twice the divisor.
mod_low : (m n : ℕ) → m < 2 * suc n → m % suc n ≡ (if ltb m (suc n) then m else m - suc n)
mod_low m n h = elim (Bool-cases (ltb m (suc n))) [
  | inl low ↦ mod-eq_of_lt (omega (arith, ltb→lt _ _ low)) ∙ rw low refl
  | inr high ↦
      let le : suc n ≤ m = ground arith in
      mod-eq-sub-mod le ∙ mod-eq_of_lt (omega arith) ∙ rw high refl
]

mod_injective : (s n j k : ℕ) → j ≤ n → k ≤ n → (s + j) % suc n ≡ (s + k) % suc n → j ≡ k
mod_injective s n j k hj hk e =
    let low = mod_fact s n in
    let a = mod_low (s % suc n + j) n (omega arith) in
    let b = mod_low (s % suc n + k) n (omega arith) in
    let c = mod-add-mod s (suc n) j in
    let d = mod-add-mod s (suc n) k in ground (arith, low, a, b, c, d, e)

-- Where the shards are distinct and no more replicas are asked for than the era has shards, all
-- members of the replica set are there and no two of them are the same.
pub replicas_for_era-distinct :
    (p : Platform) (id : Text) (n : ℕ) (urls : List Text) (r j k : ℕ)
    → IsDistinct urls
    → suc n ≤ length urls
    → r ≤ suc n
    → j < r
    → k < r
    → j ≢ k
    → get_elem? (replicas_for_era p id (suc n) urls r) j
      ≢ get_elem? (replicas_for_era p id (suc n) urls r) k
replicas_for_era-distinct p id n urls r j k distinct fits few hj hk ne e =
    let point = hash_point p (to_lower id) in
    let (u, found) =
      get_elem?-lt urls ((point + j) % suc n) (omega (arith, mod_fact (point + j) n)) in
    let same_url : some (get_elem? urls ((point + j) % suc n))
        ≡ some (get_elem? urls ((point + k) % suc n)) =
      sym (get-replicas p id n urls r j hj) ∙ e ∙ get-replicas p id n urls r k hk in
    let found' : get_elem? urls ((point + k) % suc n) ≡ some u = cc in
    ne (mod_injective point n j k (omega arith) (omega arith) (distinct.at _ _ u found found'))
