-- ===== src/Transports/Build/Packaged.antt =====
-- What a package of the build is worth (transports/build-wasm.mjs): every package has passed the rules for
-- manifests and the conformance check, and a build that exits with 0 has packaged every extension.
use mathlib.Core.List.{map, Memᴰ}
use nex_talk_relay.Base.{
  Text, codes, ℕ, zero, suc, ◌+◌, ◌≡◌, refl, Option-cases, ◌⊎◌, inl, inr, true, Bool, Option, none,
  some, List, [], ◌∷◌, length, arith,
}
use nex_talk_relay.Encoding.{Bytes}
use nex_talk_relay.Js.{elements, Json, get, to_text}
use nex_talk_relay.Transports.Ntx.Manifest.{
  is_module, Ntx, refused, not_a_module, range_error, written, validate_manifest, write_ntx,
}
use nex_talk_relay.Transports.Ntx.Manifest.Safe.{IsSafe}
use nex_talk_relay.Transports.Ntx.Manifest.Package.{
  Holds, manifest_view, entry_view, write_ntx-contents,
}
use nex_talk_relay.Transports.Ntx.Zip.Reading.{unzip}
use nex_talk_relay.Transports.Verify.{Engine, verify_wasm}
use nex_talk_relay.Transports.Verify.Sandbox.{IsConformant, verify_wasm-IsConformant}
use nex_talk_relay.Transports.Build.{
  Extension, Failure, Package, Report, manifest_caps, entry_file, packed, exit_code, add_result,
  raw_manifest, loopback_option, check_and_pack, build_entry, build_extension, build_all,
}

packed-written : (n : Ntx) (p : Package) → packed n ≡ inr p → n ≡ written p.file p.content p.hash
packed-written (refused r) p h = cc
packed-written not_a_module p h = cc
packed-written range_error p h = cc
packed-written (written file pkg hash) p h = cc

exit_code-failed : (r : Report) → exit_code r ≡ 0 → r.failed ≡ 0
exit_code-failed r h = elim (ℕ-cases r.failed) [
  | inl clean ↦ clean
  | inr (n, some_failed) ↦ (let wrong = rw (some_failed) at h in absurd (omega arith))
]
  where
    ℕ-cases : (n : ℕ) → (n ≡ 0) ⊎ ((m : ℕ) × (n ≡ suc m))
    ℕ-cases zero = inl refl
    ℕ-cases (suc m) = inr (m, refl)

add_result-counts :
    (o : Failure ⊎ Package) (r : Report)
    → length (add_result o r).packages + (add_result o r).failed
      ≡ suc (length r.packages + r.failed)
add_result-counts (inl f) r = omega arith
add_result-counts (inr p) r = omega arith

add_result-clean :
    (o : Failure ⊎ Package) (r : Report)
    → (add_result o r).failed ≡ 0
    → (p : Package) × (o ≡ inr p) × (r.failed ≡ 0) × ((add_result o r).packages ≡ p ∷ r.packages)
add_result-clean (inl f) r h = absurd (omega arith)
add_result-clean (inr p) r h = (p, refl, h, refl)

-- A result of the build is a failure or a value.
result-cases :
    {A : Type 0} (r : Failure ⊎ A) → ((f : Failure) × (r ≡ inl f)) ⊎ ((a : A) × (r ≡ inr a))
result-cases (inl f) = inl (f, refl)
result-cases (inr a) = inr (a, refl)

module _ (e : Engine) (parse : Bytes → Option Json) (inflate : Bytes → Option Bytes)
    (deflate : Bytes → Bytes) (stringify : Json → Text) (sha256 : Bytes → Text)
    (law : (d : Bytes) → inflate (deflate d) ≡ some d) where
  -- What a package `p` of an extension holds.
  pub record IsPackaged (version : Option Text) (x : Extension) (p : Package) : Type 0 where
    pub manifest : Json
    pub bytes : Bytes
    pub read : raw_manifest parse version x ≡ some manifest
    pub entry : entry_file x (to_text (get (codes "entry") manifest)) ≡ inr bytes
    pub safe : IsSafe manifest
    pub module_bytes : is_module bytes ≡ true
    pub conformant :
        IsConformant e bytes (some (map to_text (elements (get (codes "capabilities") manifest))))
    pub contents :
        Holds
          (unzip inflate p.content)
          (manifest_view stringify manifest)
          (entry_view manifest bytes)
    pub hashed : p.hash ≡ sha256 p.content

  checked :
      (m : Json) (bytes : Bytes) (loopback : Bool) (p : Package)
      → check_and_pack e parse deflate stringify sha256 m bytes loopback ≡ inr p
      → (verify_wasm e bytes (some (manifest_caps m)) loopback ≡ some [])
        × (write_ntx deflate stringify sha256 m bytes true [] ≡ written p.file p.content p.hash)
  unfolding check_and_pack
  checked m bytes loopback p h =
      elim (Option-cases (verify_wasm e bytes (some (manifest_caps m)) loopback)) [
        | inl crash ↦ (let wrong = rw (crash, check_and_pack) at h in cc)
        | inr ([], clean) ↦
            (let done = rw (clean, check_and_pack) at h in (clean, packed-written _ p done))
        | inr (f ∷ fs, bad) ↦ (let wrong = rw (bad, check_and_pack) at h in cc)
      ]

  entered :
      (m : Json) (x : Extension) (p : Package)
      → build_entry e parse deflate stringify sha256 m x ≡ inr p
      → (bytes : Bytes) × (loopback : Bool) × (entry_file x (to_text (get (codes "entry") m))
          ≡ inr bytes)
        × (check_and_pack e parse deflate stringify sha256 m bytes loopback ≡ inr p)
  unfolding build_entry
  entered m x p h = elim (result-cases (entry_file x (to_text (get (codes "entry") m)))) [
    | inl (f, bad) ↦ (let wrong = rw (bad, build_entry) at h in cc)
    | inr (bytes, there) ↦ elim (Option-cases (loopback_option parse x)) [
      | inl bad ↦ (let wrong = rw (there, bad, build_entry) at h in cc)
      | inr (loopback, asked) ↦
          (let done = rw (there, asked, build_entry) at h in (bytes, loopback, there, done))
    ]
  ]

  -- The converse: what passes every test is packaged.
  pub build_extension-passes :
      (version : Option Text) (x : Extension) (m : Json) (bytes : Bytes) (loopback : Bool)
      (p : Package)
      → raw_manifest parse version x ≡ some m
      → validate_manifest true m ≡ none
      → entry_file x (to_text (get (codes "entry") m)) ≡ inr bytes
      → loopback_option parse x ≡ some loopback
      → verify_wasm e bytes (some (manifest_caps m)) loopback ≡ some []
      → write_ntx deflate stringify sha256 m bytes true [] ≡ written p.file p.content p.hash
      → build_extension e parse deflate stringify sha256 version x ≡ inr p
  unfolding build_extension build_entry check_and_pack
  build_extension-passes version x m bytes loopback p read good there asked clean made =
      rw (build_extension, read, good, build_entry, there, asked, check_and_pack, clean, made) refl

  -- A package is written only for an extension whose manifest and module pass.
  pub build_extension-IsPackaged :
      (version : Option Text) (x : Extension) (p : Package)
      → build_extension e parse deflate stringify sha256 version x ≡ inr p
      → IsPackaged version x p
  unfolding build_extension manifest_caps
  build_extension-IsPackaged version x p h = elim (Option-cases (raw_manifest parse version x)) [
    | inl bad ↦ (let wrong = rw (bad, build_extension) at h in cc)
    | inr (m, read) ↦ elim (Option-cases (validate_manifest true m)) [
      | inr (r, bad) ↦ (let wrong = rw (read, bad, build_extension) at h in cc)
      | inl good ↦
          (let built = rw (read, good, build_extension) at h in
            let (bytes, loopback, there, packing) = entered m x p built in
            let (clean, made) = checked m bytes loopback p packing in
            let (safe, magic, _, contents, hashed) =
              write_ntx-contents inflate deflate law stringify sha256 m bytes p.content [] p.file
                p.hash made in
            record {
              manifest = m;
              bytes = bytes;
              read = read;
              entry = there;
              safe = safe;
              module_bytes = magic;
              conformant = verify_wasm-IsConformant e bytes (some (manifest_caps m)) loopback clean;
              contents = contents;
              hashed = hashed;
            })
    ]
  ]

  -- Each extension is packaged or counted as failed.
  build_all-counts :
      (version : Option Text) (xs : List Extension)
      → let r = build_all e parse deflate stringify sha256 version xs in
        length r.packages + r.failed ≡ length xs
  unfolding build_all
  build_all-counts version [] = refl
  build_all-counts version (x ∷ xs) =
      let here =
        add_result-counts (build_extension e parse deflate stringify sha256 version x)
          (build_all e parse deflate stringify sha256 version xs) in
      let rest = build_all-counts version xs in omega (arith, here, rest)

  -- With no failure, an extension of the build has its package among the packages.
  listed_package :
      (version : Option Text) (xs : List Extension) (x : Extension)
      → (build_all e parse deflate stringify sha256 version xs).failed ≡ 0
      → Memᴰ x xs
      → (p : Package) × Memᴰ p (build_all e parse deflate stringify sha256 version xs).packages
        × IsPackaged version x p
  unfolding build_all
  listed_package version [] x clean mem = elim mem [ ]
  listed_package version (y ∷ ys) x clean mem =
      let (p, built, rest_clean, whole) =
        add_result-clean (build_extension e parse deflate stringify sha256 version y)
          (build_all e parse deflate stringify sha256 version ys) clean in
      rw whole (elim mem [
        | Memᴰ.head same ↦
            (p, Memᴰ.head refl, build_extension-IsPackaged version x p (rw same built))
        | Memᴰ.tail later ↦
            (let (q, among, good) = listed_package version ys x rest_clean later in
              (q, Memᴰ.tail among, good))
      ])

  -- A build that exits with 0 writes a package for each extension of its list: as many packages as
  -- extensions, and for an extension `x` one of them with a safe manifest and a conformant module whose
  -- capabilities the manifest declares, in which a zip reader finds the manifest and the module, and
  -- whose hash is that of its bytes. The hypothesis on the compression is that inflating undoes
  -- deflating.
  pub build_all_complete :
      (version : Option Text) (xs : List Extension) (x : Extension)
      → exit_code (build_all e parse deflate stringify sha256 version xs) ≡ 0
      → Memᴰ x xs
      → (length (build_all e parse deflate stringify sha256 version xs).packages ≡ length xs)
        × ((p : Package) × Memᴰ p (build_all e parse deflate stringify sha256 version xs).packages
            × IsPackaged version x p)
  build_all_complete version xs x h mem =
      let clean = exit_code-failed (build_all e parse deflate stringify sha256 version xs) h in
      let counts = build_all-counts version xs in
      (omega (arith, clean, counts), listed_package version xs x clean mem)
