-- ===== src/Transports/Ntx/Manifest/Safe.antt =====
-- What is known of a manifest that `validateManifest` accepts, and of the package that is written for
-- it (transports/tools/ntx.mjs).
use nex_talk_relay.Base.{
  Text, codes, ne_of_same, to_lower, ◌≡◌, ◌≢◌, refl, true, false, not, ◌||◌, ◌≤◌, Bool, Bool-cases,
  inl, inr, Option, none, some, [], ◌∷◌, length, all, any, ◌==◌, arith,
}
use nex_talk_relay.Js.{
  Json, undefined, null, bool, num, str, arr, obj, get, to_text, elements, truthy,
}
use nex_talk_relay.Transports.Ntx.Manifest.{
  Refusal, validate_manifest, is_id, is_file_char, is_file_name, text_or_empty, includes_text,
  is_text, known_capabilities, refuse_if, wasm_problem, ends_with, or_problem,
}

refuse_if-none :
    (b : Bool) (r : Refusal) (next : Option Refusal)
    → refuse_if b r next ≡ none
    → (b ≡ false) × (next ≡ none)
unfolding refuse_if
refuse_if-none true r next h = cc
refuse_if-none false r next h = (refl, h)

or_problem-none :
    (one next : Option Refusal) → or_problem one next ≡ none → (one ≡ none) × (next ≡ none)
unfolding or_problem
or_problem-none none next h = (refl, h)
or_problem-none (some r) next h = cc

-- A file name that can be joined to a directory: of the permitted characters, and no way up.
pub record IsPlain (t : Text) : Type 0 where
  pub characters : all is_file_char t ≡ true
  pub not_empty : t ≢ []
  pub no_slash : any (λ c. c == b'/') t ≡ false
  pub not_here : t ≢ codes "."
  pub not_up : t ≢ codes ".."

-- What `validateManifest` promises of a browser package.
pub record IsSafe (m : Json) : Type 0 where
  pub id : is_id (text_or_empty (get (codes "id") m)) ≡ true
  pub entry : Text
  pub entry_text : get (codes "entry") m ≡ str entry
  pub plain : IsPlain entry
  pub extension : ends_with (to_lower entry) (codes ".wasm") ≡ true
  pub known :
      all (includes_text known_capabilities) (elements (get (codes "capabilities") m)) ≡ true
  pub some_capability : 1 ≤ length (elements (get (codes "capabilities") m))

no_slash : (t : Text) → all is_file_char t ≡ true → any (λ c. c == b'/') t ≡ false
no_slash [] h = refl
no_slash (c ∷ t) h = ground (arith, no_slash t)

wasm_entry :
    (v : Json)
    → wasm_problem true v ≡ none
    → (t : Text) × (v ≡ str t) × (ends_with (to_lower t) (codes ".wasm") ≡ true)
unfolding wasm_problem
wasm_entry undefined h = cc
wasm_entry null h = cc
wasm_entry (bool b) h = cc
wasm_entry (num n) h = cc
wasm_entry (arr xs) h = cc
wasm_entry (obj fs) h = cc
wasm_entry (str t) h = elim (Bool-cases (ends_with (to_lower t) (codes ".wasm"))) [
  | inl good ↦ (t, refl, good)
  | inr bad ↦ (let none_is_some = rw bad at h in cc)
]

IsPlain-entry :
    (t : Text)
    → (not (truthy (str t))
        || (not (is_file_name (to_text (str t)))
            || (is_text (codes ".") (str t) || is_text (codes "..") (str t))))
      ≡ false
    → IsPlain t
unfolding is_file_name to_text
IsPlain-entry [] h = cc
IsPlain-entry (c ∷ t) h =
    let good : all is_file_char (c ∷ t) ≡ true = ground arith in
    record {
      characters = good;
      not_empty = λ e. cc;
      no_slash = no_slash (c ∷ t) good;
      not_here = ne_of_same (c ∷ t) (codes ".") (ground arith);
      not_up = ne_of_same (c ∷ t) (codes "..") (ground arith);
    }

-- Every manifest that is accepted for a browser package is safe: its id is a lower-case name of at
-- most 64 characters, its entry is a text that names a `.wasm` file in the package's own directory (no
-- slash, not `.` or `..`), and it has a capability and only known ones.
pub validate_manifest-IsSafe : (m : Json) → validate_manifest true m ≡ none → IsSafe m
unfolding validate_manifest
validate_manifest-IsSafe m h =
    let v = get (codes "entry") m in
    let capabilities = elements (get (codes "capabilities") m) in
    let (_, h1) = refuse_if-none _ _ _ h in
    let (id, h2) = refuse_if-none _ _ _ h1 in
    let (_, h3) = refuse_if-none _ _ _ h2 in
    let (_, h4) = refuse_if-none _ _ _ h3 in
    let (_, h5) = refuse_if-none _ _ _ h4 in
    let (entry, h6) = refuse_if-none _ _ _ h5 in
    let (some_cap, h7) = refuse_if-none _ _ _ h6 in
    let (known, h8) = refuse_if-none _ _ _ h7 in
    let (_, last) = or_problem-none _ _ h8 in
    let (t, same_text, extension) = wasm_entry v last in
    record {
      id = ground (arith, id);
      entry = t;
      entry_text = same_text;
      plain = IsPlain-entry t (rw same_text at entry);
      extension = extension;
      known = ground (arith, known);
      some_capability = ground (arith, some_cap);
    }
