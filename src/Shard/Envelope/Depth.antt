-- ===== src/Shard/Envelope/Depth.antt =====
-- The depth test of `validateEnvelopeShape` against the height of a JSON value.
use Prim.Native.Nat.{max}
use nex_talk_relay.Base.{
  codes, same, ℕ, ◌+◌, ◌≤◌, ◌<◌, ◌≡◌, ◌↔◌, ◌⊎◌, true, false, none, any, ltb, if◌then◌else◌, arith,
}
use nex_talk_relay.Js.{
  Json, Items, Fields, undefined, null, bool, num, str, arr, obj, nil, cons, end, field, get,
  is_string, is_object, to_text,
}
use nex_talk_relay.Shard.Envelope.{
  max_json_depth, allowed_envelope_types, json_depth, items_depth, fields_depth,
  validate_envelope_shape,
}

-- How deep arrays and objects stand in one another; an empty one adds nothing.
unfoldable mutual
  pub height : Json → ℕ
  height undefined = 0
  height null = 0
  height (bool b) = 0
  height (num n) = 0
  height (str t) = 0
  height (arr xs) = items_height xs
  height (obj fs) = fields_height fs

  pub items_height : Items → ℕ
  items_height nil = 0
  items_height (cons v xs) = max (height v + 1) (items_height xs)

  pub fields_height : Fields → ℕ
  fields_height end = 0
  fields_height (field k v fs) = max (height v + 1) (fields_height fs)

-- A result of the walk at some depth stands for `n`: it is `n` where that is within the bound, and
-- past the bound otherwise.
abbrev StandsFor : ℕ → ℕ → Type 0
StandsFor r n = (n ≤ 8 → r ≡ n) × (8 < n → 8 < r)

-- One round of the loop: `d` is what the child gives, `r` what the rest gives from the new maximum.
round_lem :
    (m d r depth h rest : ℕ)
    → depth ≤ m
    → StandsFor d (depth + 1 + h)
    → StandsFor r (max (if ltb m d then d else m) (depth + rest))
    → StandsFor
        (if ltb max_json_depth (if ltb m d then d else m) then (if ltb m d then d else m) else r)
        (max m (depth + max (h + 1) rest))
round_lem m d r depth h rest p child later = ground arith

mutual
  unfolding json_depth height

  json_depth_lem : (v : Json) (depth : ℕ) → StandsFor (json_depth v depth) (depth + height v)
  json_depth_lem undefined depth = omega arith
  json_depth_lem null depth = omega arith
  json_depth_lem (bool b) depth = omega arith
  json_depth_lem (num n) depth = omega arith
  json_depth_lem (str t) depth = omega arith
  json_depth_lem (arr xs) depth = ground (arith, items_depth_lem xs depth depth)
  json_depth_lem (obj fs) depth = ground (arith, fields_depth_lem fs depth depth)

  items_depth_lem :
      (xs : Items) (depth m : ℕ)
      → depth ≤ m
      → StandsFor (items_depth xs depth m) (max m (depth + items_height xs))
  items_depth_lem nil depth m p = omega arith
  items_depth_lem (cons v xs) depth m p =
      round_lem m (json_depth v (depth + 1)) _ depth (height v) (items_height xs) p
        (json_depth_lem v (depth + 1)) (items_depth_lem xs depth _ (ground arith))

  fields_depth_lem :
      (fs : Fields) (depth m : ℕ)
      → depth ≤ m
      → StandsFor (fields_depth fs depth m) (max m (depth + fields_height fs))
  fields_depth_lem end depth m p = omega arith
  fields_depth_lem (field k v fs) depth m p =
      round_lem m (json_depth v (depth + 1)) _ depth (height v) (fields_height fs) p
        (json_depth_lem v (depth + 1)) (fields_depth_lem fs depth _ (ground arith))

pub json_depth-height :
    (v : Json) → ltb max_json_depth (json_depth v 0) ≡ ltb max_json_depth (height v)
json_depth-height v = let (exact, past) = json_depth_lem v 0 in ground arith

-- The type of an envelope is one of the four, or it is no text.
pub record IsEnvelope (v : Json) : Type 0 where
  pub is_an_object : is_object v ≡ true
  pub known_type :
      (is_string (get (codes "type") v) ≡ false)
      ⊎ (any (same (to_text (get (codes "type") v))) allowed_envelope_types ≡ true)
  pub shallow : height v ≤ max_json_depth

-- An envelope passes the validation exactly when it is an object or array, its `type` is one of the
-- permitted ones or no text, and it is nested at most eight deep; the walk that stops early at the
-- bound decides the same as the full height.
pub validate_envelope_shape_iff : (v : Json) → (validate_envelope_shape v ≡ none) ↔ IsEnvelope v
unfolding validate_envelope_shape
validate_envelope_shape_iff v = (sound, complete)
  where
    sound : validate_envelope_shape v ≡ none → IsEnvelope v
    sound h = ground (arith, json_depth-height v)

    complete : IsEnvelope v → validate_envelope_shape v ≡ none
    complete e = ground (arith, json_depth-height v)
