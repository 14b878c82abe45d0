-- ===== src/Transports/Ntx/Manifest.antt =====
-- The rules for manifests, and the package of a module (transports/tools/ntx.mjs, `validateManifest` and
-- `writeNtx`).
pub mod Safe
pub mod Package
use nex_talk_relay.Base.{
  Text, codes, same, to_lower, ℕ, zero, suc, ◌+◌, ◌-◌, Bool, true, false, not, ◌&&◌, ◌||◌, Option,
  none, some, List, [], ◌∷◌, ◌++◌, map, length, all, any, leb, ◌==◌, if◌then◌else◌,
}
use nex_talk_relay.Encoding.{Bytes, utf8}
use nex_talk_relay.Js.{
  Json, undefined, null, bool, num, str, arr, obj, get, truthy, is_object, to_list, elements,
  to_text,
}
use nex_talk_relay.Js.Regex.{is_digit}
use nex_talk_relay.Transports.Ntx.Zip.{File, zip}

unfoldable pub known_capabilities : List Text
unfolding codes
known_capabilities =
    codes "message"
    ∷ codes "binary-transfer"
    ∷ codes "presence"
    ∷ codes "local-network"
    ∷ codes "p2p"
    ∷ []

unfoldable pub known_permissions : List Text
unfolding codes
known_permissions = codes "network" ∷ codes "storage" ∷ []

abbrev pub is_lower_alnum : ℕ → Bool
is_lower_alnum c = (leb b'a' c && leb c b'z') || is_digit c

abbrev pub is_id_char : ℕ → Bool
is_id_char c = is_lower_alnum c || c == b'-'

-- `ID_RE`, `/^[a-z0-9][a-z0-9-]{0,63}$/`
unfoldable pub is_id : Text → Bool
is_id [] = false
is_id (c ∷ t) = is_lower_alnum c && (leb (length t) 63 && all is_id_char t)

abbrev pub is_file_char : ℕ → Bool
is_file_char c =
    ((leb b'A' c && leb c b'Z') || is_lower_alnum c) || ((c == b'.' || c == b'_') || c == b'-')

-- `/^[A-Za-z0-9._-]+$/`
unfoldable pub is_file_name : Text → Bool
is_file_name [] = false
is_file_name (c ∷ t) = all is_file_char (c ∷ t)

-- Why a manifest is refused; `type_error` is the exception of a value of the wrong kind.
pub data Refusal : Type 0 where
  not_object bad_id empty_name empty_version bad_api_version bad_entry : Refusal
  no_capabilities unknown_capability unknown_permission not_wasm type_error : Refusal

-- `v === t`
abbrev pub is_text : Text → Json → Bool
is_text t (str s) = same s t
is_text t _ = false

-- `list.includes(v)`
abbrev pub includes_text : List Text → Json → Bool
includes_text [] v = false
includes_text (t ∷ ts) v = is_text t v || includes_text ts v

-- `v || ''`, as a text
abbrev pub text_or_empty : Json → Text
text_or_empty v = if truthy v then to_text v else []

abbrev pub skip : ℕ → Text → Text
skip zero t = t
skip (suc n) [] = []
skip (suc n) (c ∷ t) = skip n t

-- `s.endsWith(t)`
unfoldable pub ends_with : Text → Text → Bool
ends_with s t = leb (length t) (length s) && same (skip (length s - length t) s) t

unfoldable pub refuse_if : Bool → Refusal → Option Refusal → Option Refusal
refuse_if b r next = if b then some r else next

-- The loop over `m.permissions || []`: a text is walked by its characters, none of which is known.
unfoldable pub permission_problem : Json → Option Refusal
unfolding refuse_if
permission_problem undefined = none
permission_problem null = none
permission_problem (bool false) = none
permission_problem (bool true) = some type_error
permission_problem (num zero) = none
permission_problem (num (suc n)) = some type_error
permission_problem (str []) = none
permission_problem (str (c ∷ t)) = some unknown_permission
permission_problem (arr xs) =
    refuse_if (not (all (includes_text known_permissions) (to_list xs))) unknown_permission none
permission_problem (obj fs) = some type_error

-- The last test, of the entry of a browser package.
unfoldable pub wasm_problem : Bool → Json → Option Refusal
unfolding refuse_if
wasm_problem wasm (str t) =
    refuse_if (wasm && not (ends_with (to_lower t) (codes ".wasm"))) not_wasm none
wasm_problem wasm _ = refuse_if wasm type_error none

unfoldable pub or_problem : Option Refusal → Option Refusal → Option Refusal
or_problem none next = next
or_problem (some r) next = some r

-- `validateManifest`; `none` is a manifest that is accepted.
unfoldable pub validate_manifest : Bool → Json → Option Refusal
validate_manifest wasm m =
    let entry = get (codes "entry") m in
    let capabilities = elements (get (codes "capabilities") m) in
    refuse_if (not (is_object m)) not_object (
      refuse_if (not (is_id (text_or_empty (get (codes "id") m)))) bad_id (
        refuse_if (not (truthy (get (codes "name") m))) empty_name (
          refuse_if (not (truthy (get (codes "version") m))) empty_version (
            refuse_if (not (is_text (codes "1") (get (codes "api_version") m))) bad_api_version (
              refuse_if
                (not (truthy entry)
                  || (not (is_file_name (to_text entry))
                      || (is_text (codes ".") entry || is_text (codes "..") entry)))
                bad_entry
                (refuse_if (length capabilities == 0) no_capabilities (
                  refuse_if (not (all (includes_text known_capabilities) capabilities))
                    unknown_capability
                    (or_problem (permission_problem (get (codes "permissions") m))
                      (wasm_problem wasm entry)))))))))

-- The magic number at the start of a module: `\0asm`, in eight bytes at least.
unfoldable pub is_module : Bytes → Bool
is_module (b0 ∷ b1 ∷ b2 ∷ b3 ∷ bs) =
    leb 4 (length bs) && ((b0 == 0 && b1 == 0x61) && (b2 == 0x73 && b3 == 0x6d))
is_module _ = false

-- How `writeNtx` ends: with an exception, or with a file of this name, its bytes and their hash.
pub data Ntx : Type 0 where
  refused : Refusal → Ntx
  not_a_module range_error : Ntx
  written : Text → Bytes → Text → Ntx

-- The two files of a package. `JSON.stringify(manifest, null, 2)` is the parameter `stringify`.
unfoldable pub package_files : (Json → Text) → Json → Bytes → List File
unfolding get codes
package_files stringify m entry_bytes =
    record { name = codes "manifest.json"; content = utf8 (stringify m ++ 10 ∷ []) }
    ∷ record { name = to_text (get (codes "entry") m); content = entry_bytes }
    ∷ []

-- `writeNtx`, but for the directory and the write of the file; `sha256` is a parameter.
unfoldable pub write_ntx :
    (Bytes → Bytes) → (Json → Text) → (Bytes → Text) → Json → Bytes → Bool → Text → Ntx
unfolding validate_manifest is_module package_files codes
write_ntx deflate stringify sha256 m entry_bytes wasm suffix = elim (validate_manifest wasm m) [
  | some r ↦ refused r
  | none ↦
      if wasm && not (is_module entry_bytes)
      then not_a_module
      else elim (zip deflate (package_files stringify m entry_bytes)) [
        | none ↦ range_error
        | some pkg ↦
            written (to_text (get (codes "id") m) ++ (suffix ++ codes ".ntx")) pkg (sha256 pkg)
      ]
]
