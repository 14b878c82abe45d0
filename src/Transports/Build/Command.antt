-- ===== src/Transports/Build/Command.antt =====
-- The command line of the build and the extensions that it finds (transports/build-wasm.mjs).
pub mod Valid
use nex_talk_relay.Base.{
  Text, codes, same, ℕ, zero, suc, ◌+◌, Bool, true, false, not, ◌&&◌, ◌||◌, Option, none, some,
  List, [], ◌∷◌, map, length, all, any, keep, leb, ltb, ◌==◌, if◌then◌else◌,
}
use nex_talk_relay.Js.Regex.{is_digit}
use nex_talk_relay.Transports.Ntx.Zip.{text_ltb}
use nex_talk_relay.Transports.Verify.{includes}
use nex_talk_relay.Transports.Build.{insert_line, sort_lines}

-- What `opt` finds: `no_value` is the exit with status 2.
pub data Found : Type 0 where
  absent no_value : Found
  value : Text → Found

-- `startsWith("--")`
abbrev pub is_flag : Text → Bool
is_flag (c ∷ d ∷ t) = c == b'-' && d == b'-'
is_flag _ = false

-- The value behind a flag; an empty one is none.
abbrev pub value_of : List Text → Found
value_of [] = no_value
value_of ([] ∷ ts) = no_value
value_of ((c ∷ t) ∷ ts) = if is_flag (c ∷ t) then no_value else value (c ∷ t)

-- `opt`
abbrev pub opt : Text → List Text → Found
opt name [] = absent
opt name (a ∷ bs) = let rest = opt name bs in if same a name then value_of bs else rest

-- `indexOf`
abbrev pub index_of : Text → List Text → Option ℕ
index_of name [] = none
index_of name (a ∷ bs) =
    let rest = index_of name bs in
    if same a name then some 0 else elim rest [ none ↦ none | some i ↦ some (i + 1) ]

-- Whether `skipIdx` has `i`, for one flag.
abbrev pub is_skipped : Text → List Text → ℕ → Bool
is_skipped name args i = elim (index_of name args) [ none ↦ false | some j ↦ i == j || i == j + 1 ]

-- `args.filter((a, i) => ...)`, from the index `i` on
abbrev pub named_from : List Text → ℕ → List Text → List Text
named_from args i [] = []
named_from args i (a ∷ bs) =
    let rest = named_from args (i + 1) bs in
    if not (is_flag a)
      && not (is_skipped (codes "--version") args i || is_skipped (codes "--out") args i)
    then a ∷ rest
    else rest

unfoldable pub named : List Text → List Text
unfolding codes
named args = named_from args 0 args

-- `\d*`, with what is behind it
abbrev pub skip_digits : Text → Text
skip_digits [] = []
skip_digits (c ∷ t) = let rest = skip_digits t in if is_digit c then rest else c ∷ t

-- `\d+`; `none` where there is no digit
abbrev pub digits : Text → Option Text
digits [] = none
digits (c ∷ t) = if is_digit c then some (skip_digits t) else none

-- `\d+\.`
abbrev pub digits_dot : Text → Option Text
digits_dot t = elim (digits t) [
  | none ↦ none
  | some [] ↦ none
  | some (c ∷ s) ↦ if c == b'.' then some s else none
]

abbrev pub is_tag_char : ℕ → Bool
is_tag_char c =
    is_digit c
    || (((leb b'A' c && leb c b'Z') || (leb b'a' c && leb c b'z')) || (c == b'.' || c == b'-'))

-- `(-[0-9A-Za-z.-]+)?$`
abbrev pub is_tag : Text → Bool
is_tag [] = true
is_tag (c ∷ t) = c == b'-' && (ltb 0 (length t) && all is_tag_char t)

-- `/^\d+\.\d+\.\d+(-[0-9A-Za-z.-]+)?$/`
unfoldable pub is_version : Text → Bool
is_version t = elim (digits_dot t) [
  | none ↦ false
  | some t1 ↦ elim (digits_dot t1) [
    | none ↦ false
    | some t2 ↦ elim (digits t2) [ none ↦ false | some t3 ↦ is_tag t3 ]
  ]
]

-- An entry of the directory `transports`.
pub record Entry : Type 0 where
  pub name : Text
  pub is_directory : Bool

unfoldable pub is_source : Entry → Bool
unfolding codes
is_source d =
    d.is_directory
    && (not (
          includes (codes "dist" ∷ codes "node_modules" ∷ codes "tools" ∷ codes "test" ∷ []) d.name)
        && not (elim d.name [ [] ↦ false | c ∷ t ↦ c == b'.' ]))

-- `exts`; `has_manifest` is the test for `wasm/manifest.json`
unfoldable pub discover : (Text → Bool) → List Text → List Entry → List Text
unfolding is_source
discover has_manifest only ds = sort_lines (
    keep (λ n. length only == 0 || includes only n)
      (keep has_manifest (map (λ d. d.name) (keep is_source ds))))

-- How the build begins.
pub data Begin : Type 0 where
  usage_error nothing_found : Begin
  begin : Option Text → Option Text → List Text → Begin

unfoldable pub version_refused : Found → Bool
unfolding is_version
version_refused (value v) = not (is_version v)
version_refused _ = false

abbrev pub optional : Found → Option Text
optional (value v) = some v
optional _ = none

abbrev pub begin_with : Option Text → Option Text → List Text → Begin
begin_with version out [] = nothing_found
begin_with version out (n ∷ ns) = begin version out (n ∷ ns)

abbrev pub is_missing : Found → Bool
is_missing no_value = true
is_missing _ = false

-- The tests of the options, and of what was found.
unfoldable pub begin_found : Found → Found → List Text → Begin
unfolding version_refused
begin_found version out exts =
    if is_missing version || (is_missing out || version_refused version)
    then usage_error
    else begin_with (optional version) (optional out) exts

unfoldable pub begin_build : (Text → Bool) → List Text → List Entry → Begin
unfolding discover named begin_found codes
begin_build has_manifest args ds =
    begin_found (opt (codes "--version") args) (opt (codes "--out") args)
      (discover has_manifest (named args) ds)
