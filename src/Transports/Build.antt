-- ===== src/Transports/Build.antt =====
-- The build of the browser packages (transports/build-wasm.mjs): the loop over the extensions; the command
-- line and the discovery of the directories are in Command. The files of an extension are those that the
-- loop finds: a script writes nothing but its output.
pub mod Packaged
pub mod Command
use nex_talk_relay.Base.{
  Text, codes, ℕ, zero, suc, ◌+◌, ◌⊎◌, inl, inr, Bool, true, Option, none, some, List, [], ◌∷◌,
  ◌++◌, map, same, decimal, if◌then◌else◌,
}
use nex_talk_relay.Encoding.{Bytes}
use nex_talk_relay.Js.{
  Json, undefined, null, str, arr, obj, Fields, end, field, get, truthy, elements, to_list, to_text,
}
use nex_talk_relay.Transports.Ntx.Manifest.{
  Refusal, Ntx, refused, not_a_module, range_error, written, validate_manifest, write_ntx,
}
use nex_talk_relay.Transports.Ntx.Zip.{text_ltb}
use nex_talk_relay.Transports.Verify.{Engine, verify_wasm}

-- A run of `wasm/build.mjs` as a process of its own: whether its status is 0, and the files that it wrote.
pub record Script : Type 0 where
  pub succeeded : Bool
  pub output : Text → Option Bytes

-- The directory `wasm` of an extension; `script` is `none` where it has no `build.mjs`.
pub record Extension : Type 0 where
  pub files : Text → Option Bytes
  pub script : Option Script

-- What the exception that ends an extension's turn says.
pub data Failure : Type 0 where
  unreadable script_failed no_entry verify_crashed no_module too_large : Failure
  bad_manifest : Refusal → Failure
  not_conformant : List Text → Failure

-- What `writeNtx` returns, and what it writes to the file of that name.
pub record Package : Type 0 where
  pub file : Text
  pub content : Bytes
  pub hash : Text

-- The key `k` of an object literal behind a spread: a key that is there keeps its place.
abbrev pub put_field : Text → Json → Fields → Fields
put_field k v end = field k v end
put_field k v (field j u fs) =
    let rest = put_field k v fs in if same j k then field j v fs else field j u rest

-- The keys of an array are its indices.
abbrev pub indexed : ℕ → List Json → Fields
indexed n [] = end
indexed n (v ∷ vs) = field (decimal n) v (indexed (n + 1) vs)

abbrev pub characters : Text → List Json
characters t = map (λ c. str (c ∷ [])) t

-- `...v`
unfoldable pub spread : Json → Fields
spread (obj fs) = fs
spread (arr xs) = indexed 0 (to_list xs)
spread (str t) = indexed 0 (characters t)
spread _ = end

-- `version ? { ...raw, version } : raw`
unfoldable pub with_version : Option Text → Json → Json
unfolding codes spread
with_version (some (c ∷ v)) raw = obj (put_field (codes "version") (str (c ∷ v)) (spread raw))
with_version _ raw = raw

-- `manifest.capabilities`, which is an array of texts in a manifest that is accepted
unfoldable pub manifest_caps : Json → List Text
unfolding get to_text codes
manifest_caps m = map to_text (elements (get (codes "capabilities") m))

abbrev pub found : Option Bytes → Failure ⊎ Bytes
found none = inl no_entry
found (some bytes) = inr bytes

-- The entry in the temporary directory: what the script wrote, or a copy.
unfoldable pub entry_file : Extension → Text → Failure ⊎ Bytes
entry_file x name = elim x.script [
  | none ↦ found (x.files name)
  | some s ↦ if s.succeeded then found (s.output name) else inl script_failed
]

-- `!!extra.loopback`, which throws on `null`
abbrev pub loopback_in : Json → Option Bool
loopback_in null = none
loopback_in v = some (truthy (get (codes "loopback") v))

abbrev pub packed : Ntx → Failure ⊎ Package
packed (refused r) = inl (bad_manifest r)
packed not_a_module = inl no_module
packed range_error = inl too_large
packed (written file pkg hash) = inr (record { file = file; content = pkg; hash = hash })

-- The packages in the order in which they are written, and the counter `failed`. Two packages of one
-- name are both listed; the second replaces the first in the directory.
pub record Report : Type 0 where
  pub packages : List Package
  pub failed : ℕ

-- A line of `SHA256SUMS`
unfoldable pub sum_line : Package → Text
unfolding codes
sum_line p = p.hash ++ (codes "  " ++ p.file)

-- `sums.sort()`
abbrev pub insert_line : Text → List Text → List Text
insert_line t [] = t ∷ []
insert_line t (s ∷ ss) =
    let behind = s ∷ insert_line t ss in if text_ltb s t then behind else t ∷ s ∷ ss

abbrev pub sort_lines : List Text → List Text
sort_lines [] = []
sort_lines (t ∷ ts) = insert_line t (sort_lines ts)

-- `join('\n')`
abbrev pub join_lines : List Text → Text
join_lines [] = []
join_lines (t ∷ []) = t
join_lines (t ∷ s ∷ ss) = t ++ 10 ∷ join_lines (s ∷ ss)

-- The file `SHA256SUMS`
unfoldable pub sums_file : Report → Text
unfolding sum_line
sums_file r = join_lines (sort_lines (map sum_line r.packages)) ++ 10 ∷ []

-- `process.exit(failed ? 1 : 0)`
abbrev pub exit_code : Report → ℕ
exit_code r = elim r.failed [ zero ↦ 0 | suc n ↦ 1 ]

abbrev pub add_result : Failure ⊎ Package → Report → Report
add_result (inl f) r = record r { failed = r.failed + 1 }
add_result (inr p) r = record r { packages = p ∷ r.packages }

module _ (parse : Bytes → Option Json) where
  -- `readJSON`; `none` is an exception.
  unfoldable pub read_json : Extension → Text → Option Json
  read_json x name = elim (x.files name) [ none ↦ none | some bytes ↦ parse bytes ]

  unfoldable pub raw_manifest : Option Text → Extension → Option Json
  unfolding read_json with_version codes
  raw_manifest version x = elim (read_json x (codes "manifest.json")) [
    | none ↦ none
    | some raw ↦ some (with_version version raw)
  ]

  -- The option of the check: without a `verify.json`, `extra` is `{}`.
  unfoldable pub loopback_option : Extension → Option Bool
  unfolding get codes
  loopback_option x = elim (x.files (codes "verify.json")) [
    | none ↦ loopback_in (obj end)
    | some bytes ↦ elim (parse bytes) [ none ↦ none | some v ↦ loopback_in v ]
  ]

module _ (e : Engine) (parse : Bytes → Option Json) (deflate : Bytes → Bytes)
    (stringify : Json → Text) (sha256 : Bytes → Text) where
  -- The check of the entry and the package.
  unfoldable pub check_and_pack : Json → Bytes → Bool → Failure ⊎ Package
  unfolding verify_wasm write_ntx manifest_caps
  check_and_pack m bytes loopback = elim (verify_wasm e bytes (some (manifest_caps m)) loopback) [
    | none ↦ inl verify_crashed
    | some [] ↦ packed (write_ntx deflate stringify sha256 m bytes true [])
    | some (f ∷ fs) ↦ inl (not_conformant (f ∷ fs))
  ]

  unfoldable pub build_entry : Json → Extension → Failure ⊎ Package
  unfolding entry_file loopback_option check_and_pack to_text get codes
  build_entry m x = elim (entry_file x (to_text (get (codes "entry") m))) [
    | inl f ↦ inl f
    | inr bytes ↦ elim (loopback_option parse x) [
      | none ↦ inl unreadable
      | some loopback ↦ check_and_pack m bytes loopback
    ]
  ]

  -- The body of the loop, for one extension.
  unfoldable pub build_extension : Option Text → Extension → Failure ⊎ Package
  unfolding raw_manifest validate_manifest build_entry
  build_extension version x = elim (raw_manifest parse version x) [
    | none ↦ inl unreadable
    | some m ↦ elim (validate_manifest true m) [
      | some r ↦ inl (bad_manifest r)
      | none ↦ build_entry m x
    ]
  ]

  -- The loop; the packages are in the order of the extensions.
  unfoldable pub build_all : Option Text → List Extension → Report
  unfolding build_extension
  build_all version [] = record { packages = []; failed = 0 }
  build_all version (x ∷ xs) = add_result (build_extension version x) (build_all version xs)
