-- ===== src/Shard/Envelope.antt =====
-- `jsonDepth` and `validateEnvelopeShape` of shard/worker.js.
pub mod Depth
use nex_talk_relay.Base.{
  Text, codes, same, ℕ, ◌+◌, Bool, not, ◌&&◌, Option, none, some, List, [], ◌∷◌, ◌++◌, any, decimal,
  ltb, if◌then◌else◌,
}
use nex_talk_relay.Js.{
  Json, Items, Fields, undefined, null, bool, num, str, arr, obj, nil, cons, end, field, get,
  truthy, is_string, is_object, to_text,
}

abbrev pub max_json_depth : ℕ
max_json_depth = 8

-- `ALLOWED_ENVELOPE_TYPES`
abbrev pub allowed_envelope_types : List Text
allowed_envelope_types = codes "offer" ∷ codes "answer" ∷ codes "message" ∷ codes "finish" ∷ []

-- The loop over the children carries `max`, and ends early where it passes the bound.
unfoldable mutual
  pub json_depth : Json → ℕ → ℕ
  json_depth undefined depth = depth
  json_depth null depth = depth
  json_depth (bool b) depth = depth
  json_depth (num n) depth = depth
  json_depth (str t) depth = depth
  json_depth (arr xs) depth =
      let deepest = items_depth xs depth depth in
      if ltb max_json_depth depth then depth else deepest
  json_depth (obj fs) depth =
      let deepest = fields_depth fs depth depth in
      if ltb max_json_depth depth then depth else deepest

  pub items_depth : Items → ℕ → ℕ → ℕ
  items_depth nil depth m = m
  items_depth (cons v xs) depth m =
      let d = json_depth v (depth + 1) in
      let m' = if ltb m d then d else m in
      let rest = items_depth xs depth m' in if ltb max_json_depth m' then m' else rest

  pub fields_depth : Fields → ℕ → ℕ → ℕ
  fields_depth end depth m = m
  fields_depth (field k v fs) depth m =
      let d = json_depth v (depth + 1) in
      let m' = if ltb m d then d else m in
      let rest = fields_depth fs depth m' in if ltb max_json_depth m' then m' else rest

-- `none` where the envelope has a permitted shape, and otherwise what is wrong
unfoldable pub validate_envelope_shape : Json → Option Text
validate_envelope_shape parsed =
    let type = get (codes "type") parsed in
    if not (truthy parsed && is_object parsed)
    then some (codes "message must decode to a JSON object")
    else if is_string type && not (any (same (to_text type)) allowed_envelope_types)
    then some (codes "envelope type '" ++ (to_text type ++ codes "' is not recognized"))
    else if ltb max_json_depth (json_depth parsed 0)
    then some
        (codes "envelope exceeds max nesting depth (" ++ (decimal max_json_depth ++ codes ")"))
    else none
