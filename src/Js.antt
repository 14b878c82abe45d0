-- ===== src/Js.antt =====
-- Values of a JavaScript program: what `JSON.parse` returns, and how the workers look into it. A
-- number is a natural number; `Number` is `none` where JavaScript has NaN.
pub mod Regex
use nex_talk_relay.Base.{
  Text, codes, same, ℕ, zero, suc, ◌≡◌, Bool, true, false, not, ◌&&◌, ◌||◌, Option, none, some,
  List, [], ◌∷◌, ◌++◌, decimal, number_digits, if◌then◌else◌,
}

mutual
  pub data Json : Type 0 where
    undefined null : Json
    bool : Bool → Json
    num : ℕ → Json
    str : Text → Json
    arr : Items → Json
    obj : Fields → Json

  pub data Items : Type 0 where
    nil : Items
    cons : Json → Items → Items

  pub data Fields : Type 0 where
    end : Fields
    field : Text → Json → Fields → Fields

abbrev pub get_field : Text → Fields → Json
get_field k end = undefined
get_field k (field j v fs) = if same j k then v else get_field k fs

-- `(v || {})[k]`, and `(v ?? {})[k]`, at a name that no number, text or array has
unfoldable pub get : Text → Json → Json
get k (obj fs) = get_field k fs
get k _ = undefined

-- `const { k: _, ...rest } = v`
abbrev pub drop_field : Text → Fields → Fields
drop_field k end = end
drop_field k (field j v fs) =
    let rest = drop_field k fs in if same j k then rest else field j v rest

unfoldable pub without : Text → Json → Json
without k (obj fs) = obj (drop_field k fs)
without k _ = obj end

-- What `if (v)` tests.
abbrev pub truthy : Json → Bool
truthy undefined = false
truthy null = false
truthy (bool b) = b
truthy (num zero) = false
truthy (num (suc n)) = true
truthy (str []) = false
truthy (str (c ∷ t)) = true
truthy (arr xs) = true
truthy (obj fs) = true

-- `typeof v === "string"`
abbrev pub is_string : Json → Bool
is_string (str t) = true
is_string _ = false

-- `v && typeof v === "object"`
abbrev pub is_object : Json → Bool
is_object (arr xs) = true
is_object (obj fs) = true
is_object _ = false

abbrev pub is_array : Json → Bool
is_array (arr xs) = true
is_array _ = false

abbrev pub to_list : Items → List Json
to_list nil = []
to_list (cons v xs) = v ∷ to_list xs

abbrev pub from_list : List Json → Items
from_list [] = nil
from_list (v ∷ vs) = cons v (from_list vs)

-- The elements of an array; of any other value, none.
abbrev pub elements : Json → List Json
elements (arr xs) = to_list xs
elements _ = []

abbrev pub fields : List (Text × Json) → Fields
fields [] = end
fields ((k, v) ∷ kvs) = field k v (fields kvs)

-- An object literal.
abbrev pub object : List (Text × Json) → Json
object kvs = obj (fields kvs)

-- `String(v)`, and the text of an array: the texts of its elements with commas between, where
-- `null` and `undefined` are empty.
mutual
  text_of : Json → Text
  text_of undefined = codes "undefined"
  text_of null = codes "null"
  text_of (bool true) = codes "true"
  text_of (bool false) = codes "false"
  text_of (num n) = decimal n
  text_of (str t) = t
  text_of (arr xs) = join xs
  text_of (obj fs) = codes "[object Object]"

  join : Items → Text
  join nil = []
  join (cons v nil) = element_text v
  join (cons v (cons u xs)) = element_text v ++ b',' ∷ join (cons u xs)

  element_text : Json → Text
  element_text undefined = []
  element_text null = []
  element_text (bool true) = codes "true"
  element_text (bool false) = codes "false"
  element_text (num n) = decimal n
  element_text (str t) = t
  element_text (arr xs) = join xs
  element_text (obj fs) = codes "[object Object]"

unfoldable pub to_text : Json → Text
unfolding text_of
to_text v = text_of v

abbrev pub Number : Type 0
Number = Option ℕ
