-- ===== src/Transports/Ntx/Manifest/Package.antt =====
-- What is in the package that `writeNtx` writes for a browser extension (transports/tools/ntx.mjs).
use nex_talk_relay.Base.{
  ◌⊎◌, [], ◌∷◌, ◌++◌, List, Text, codes, to_lower, ◌≡◌, ◌≢◌, refl, ap, ◌∙◌, true, Bool-cases,
  Option-cases, inl, inr, Option, some, map,
}
use nex_talk_relay.Encoding.{utf8, Bytes}
use nex_talk_relay.Js.{Json, get, to_text}
use nex_talk_relay.Transports.Ntx.Manifest.{
  File, written, validate_manifest, is_module, package_files, write_ntx, ends_with,
}
use nex_talk_relay.Transports.Ntx.Manifest.Safe.{IsSafe, validate_manifest-IsSafe}
use nex_talk_relay.Transports.Ntx.Zip.{text_ltb, insert_file, zip, sort_files}
use nex_talk_relay.Transports.Ntx.Zip.Reading.{View, unzip}
use nex_talk_relay.Transports.Ntx.Zip.RoundTrip.{content_of, unzip-zip}
use nex_talk_relay.Transports.Ntx.Zip.Order.{AllDistinct}

manifest_name-ne :
    (t : Text) → ends_with (to_lower t) (codes ".wasm") ≡ true → codes "manifest.json" ≢ t
unfolding ends_with to_lower codes
manifest_name-ne t h e =
    let same_end : ends_with (to_lower (codes "manifest.json")) (codes ".wasm") ≡ true =
      ap (λ s. ends_with (to_lower s) (codes ".wasm")) e ∙ h in
    cc (same_end)

package_files-distinct :
    (stringify : Json → Text) (m : Json) (bytes : Bytes)
    → IsSafe m
    → AllDistinct (package_files stringify m bytes)
unfolding package_files to_text
package_files-distinct stringify m bytes safe =
    let name : to_text (get (codes "entry") m) ≡ safe.entry = rw safe.entry_text refl in
    (((λ e. manifest_name-ne safe.entry safe.extension (e ∙ name)), tt), (tt, tt))

-- What a zip reader is to find: the name and the bytes of the manifest, which is printed with a line
-- feed at its end, and those of the module.
abbrev pub manifest_view : (Json → Text) → Json → View
manifest_view stringify m = (utf8 (codes "manifest.json"), utf8 (stringify m ++ 10 ∷ []))

abbrev pub entry_view : Json → Bytes → View
entry_view m bytes = (utf8 (to_text (get (codes "entry") m)), bytes)

-- A reader finds two members and no other, in one order or the other.
unfoldable pub Holds : Option (List View) → View → View → Type 0
Holds o a b = (o ≡ some (a ∷ b ∷ [])) ⊎ (o ≡ some (b ∷ a ∷ []))

sort_files-two :
    (f g : File)
    → Holds (some (map content_of (sort_files (f ∷ g ∷ [])))) (content_of f) (content_of g)
unfolding sort_files insert_file Holds
sort_files-two f g = elim (Bool-cases (text_ltb g.name f.name)) [
  | inl swapped ↦ inr (rw swapped refl)
  | inr kept ↦ inl (rw kept refl)
]

whole_package :
    (stringify : Json → Text) (m : Json) (bytes : Bytes) (o : Option (List View))
    → o ≡ some (map content_of (sort_files (package_files stringify m bytes)))
    → Holds o (manifest_view stringify m) (entry_view m bytes)
unfolding package_files
whole_package stringify m bytes o e = rw e (sort_files-two _ _)

module _ (inflate : Bytes → Option Bytes) (deflate : Bytes → Bytes)
    (law : (d : Bytes) → inflate (deflate d) ≡ some d) where
  -- Every package that is written for a browser extension holds a module and its manifest, and nothing
  -- else: the manifest is safe, the entry is a WebAssembly module by its first bytes, the two files have
  -- different names, a zip reader finds exactly these two with their bytes, and the hash that is
  -- reported is that of the package. The hypothesis is that inflating undoes deflating.
  pub write_ntx-contents :
      (stringify : Json → Text) (sha256 : Bytes → Text) (m : Json) (bytes pkg : Bytes)
      (suffix file hash : Text)
      → write_ntx deflate stringify sha256 m bytes true suffix ≡ written file pkg hash
      → IsSafe m
        × (is_module bytes ≡ true)
        × (codes "manifest.json" ≢ to_text (get (codes "entry") m))
        × Holds (unzip inflate pkg) (manifest_view stringify m) (entry_view m bytes)
        × (hash ≡ sha256 pkg)
  unfolding write_ntx
  write_ntx-contents stringify sha256 m bytes pkg suffix file hash h =
      elim (Option-cases (validate_manifest true m)) [
        | inr (r, bad) ↦ (let wrong = rw (bad, write_ntx) at h in cc)
        | inl good ↦ elim (Bool-cases (is_module bytes)) [
          | inr no_module ↦ (let wrong = rw (good, no_module, write_ntx) at h in cc)
          | inl magic ↦ elim (Option-cases (zip deflate (package_files stringify m bytes))) [
            | inl over ↦ (let wrong = rw (good, magic, over, write_ntx) at h in cc)
            | inr (z, made) ↦
                (let done = rw (good, magic, made, write_ntx) at h in
                  let same : z ≡ pkg = cc in
                  let safe = validate_manifest-IsSafe m good in
                  (
                    safe,
                    magic,
                    (package_files-distinct stringify m bytes safe).0.0,
                    whole_package stringify m bytes (unzip inflate pkg) (
                        unzip-zip inflate deflate (package_files stringify m bytes) pkg law
                          (cc (made, same))),
                    cc (done, same),
                  ))
          ]
        ]
      ]
