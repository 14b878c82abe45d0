-- ===== src/Transports/Build/Command/Valid.antt =====
-- What is known of a build that begins (transports/build-wasm.mjs).
use nex_talk_relay.Base.{
  Text, codes, ◌≡◌, ◌≢◌, refl, sym, Bool, true, ◌&&◌, ◌||◌, Bool-cases, inl, inr, ◌≤◌, Option, none,
  some, List, [], ◌∷◌, map, length, all, keep, ◌==◌, arith,
}
use nex_talk_relay.Transports.Ntx.Zip.{text_ltb}
use nex_talk_relay.Transports.Verify.{includes}
use nex_talk_relay.Transports.Build.{insert_line, sort_lines}
use nex_talk_relay.Transports.Build.Command.{
  Found, absent, no_value, value, opt, named, is_version, Entry, is_source, discover, begin,
  begin_with, begin_found, begin_build, version_refused,
}

all-cons :
    (p : Text → Bool) (t : Text) (ts : List Text)
    → all p (t ∷ ts) ≡ true
    → (p t ≡ true) × (all p ts ≡ true)
all-cons p t ts h = (ground (arith, h), ground (arith, h))

insert_line-all :
    (p : Text → Bool) (t : Text) (ts : List Text)
    → p t ≡ true
    → all p ts ≡ true
    → all p (insert_line t ts) ≡ true
insert_line-all p t [] h hs = rw h refl
insert_line-all p t (s ∷ ss) h hs =
    let (first, others) = all-cons p s ss hs in
    let rest = insert_line-all p t ss h others in
    elim (Bool-cases (text_ltb s t)) [
      | inl before ↦ rw (before, first, rest) refl
      | inr behind ↦ rw (behind, h, first, others) refl
    ]

sort_lines-all : (p : Text → Bool) (ts : List Text) → all p ts ≡ true → all p (sort_lines ts) ≡ true
sort_lines-all p [] h = refl
sort_lines-all p (t ∷ ts) h =
    let (first, others) = all-cons p t ts h in
    insert_line-all p t (sort_lines ts) first (sort_lines-all p ts others)

keep-all :
    (p q : Text → Bool) (ts : List Text)
    → all q ts ≡ true
    → all (λ n. p n && q n) (keep p ts) ≡ true
keep-all p q [] h = refl
keep-all p q (t ∷ ts) h =
    let (first, others) = all-cons q t ts h in
    let rest = keep-all p q ts others in
    elim (Bool-cases (p t)) [
      | inl good ↦ rw (good, good, first, rest) refl
      | inr bad ↦ rw (bad, rest) refl
    ]

all-true : (ts : List Text) → all (λ n. true) ts ≡ true
all-true [] = refl
all-true (t ∷ ts) = all-true ts

discover-all :
    (has_manifest : Text → Bool) (only : List Text) (ds : List Entry)
    → all
        (λ n. (length only == 0 || includes only n) && (has_manifest n && true))
        (discover has_manifest only ds)
      ≡ true
unfolding discover
discover-all has_manifest only ds =
    let dirs = map (λ d. d.name) (keep is_source ds) in
    let with_manifest = keep has_manifest dirs in
    sort_lines-all (λ n. (length only == 0 || includes only n) && (has_manifest n && true))
      (keep (λ n. length only == 0 || includes only n) with_manifest)
      (keep-all (λ n. length only == 0 || includes only n) (λ n. has_manifest n && true)
        with_manifest (keep-all has_manifest (λ n. true) dirs (all-true dirs)))

begin_with-names :
    (v : Text) (o : Option Text) (exts : List Text) (version : Text) (out : Option Text)
    (names : List Text)
    → begin_with (some v) o exts ≡ begin (some version) out names
    → (v ≡ version) × (exts ≡ names) × (1 ≤ length names)
begin_with-names v o [] version out names h = cc
begin_with-names v o (n ∷ ns) version out names h =
    let whole : n ∷ ns ≡ names = cc in
    let same_version : v ≡ version = cc in (same_version, whole, rw (sym whole) (omega arith))

begin_found-absent :
    {version : Text} {out : Option Text} {names : List Text} (o : Found) (exts : List Text)
    → begin_found absent o exts ≢ begin (some version) out names
unfolding begin_found version_refused
begin_found-absent absent [] h = cc
begin_found-absent absent (n ∷ ns) h = cc
begin_found-absent no_value exts h = cc
begin_found-absent (value w) [] h = cc
begin_found-absent (value w) (n ∷ ns) h = cc

begin_found-valid :
    (v o : Found) (exts : List Text) (version : Text) (out : Option Text) (names : List Text)
    → begin_found v o exts ≡ begin (some version) out names
    → (is_version version ≡ true) × (exts ≡ names) × (1 ≤ length names)
unfolding begin_found version_refused
begin_found-valid absent o exts version out names h = absurd (begin_found-absent o exts h)
begin_found-valid no_value o exts version out names h = cc
begin_found-valid (value v) no_value exts version out names h = cc
begin_found-valid (value v) absent exts version out names h = elim (Bool-cases (is_version v)) [
  | inr bad ↦ (let wrong = rw (bad, begin_found) at h in cc)
  | inl good ↦
      (let done = rw (good, begin_found) at h in
        let (same_version, whole, filled) = begin_with-names v none exts version out names done in
        (rw (sym same_version) good, whole, filled))
]
begin_found-valid (value v) (value w) exts version out names h = elim (Bool-cases (is_version v)) [
  | inr bad ↦ (let wrong = rw (bad, begin_found) at h in cc)
  | inl good ↦
      (let done = rw (good, begin_found) at h in
        let (same_version, whole, filled) =
          begin_with-names v (some w) exts version out names done in
        (rw (sym same_version) good, whole, filled))
]

-- A build that begins with a version has one of the accepted form, and an extension at least; each of its
-- extensions has a manifest, and is one of the named ones where some are named.
begin_build-valid :
    (has_manifest : Text → Bool) (args : List Text) (ds : List Entry) (version : Text)
    (out : Option Text) (names : List Text)
    → begin_build has_manifest args ds ≡ begin (some version) out names
    → (is_version version ≡ true)
      × (1 ≤ length names)
      × (all
            (λ n. (length (named args) == 0 || includes (named args) n) && (has_manifest n && true))
            names
          ≡ true)
unfolding begin_build
begin_build-valid has_manifest args ds version out names h =
    let (good, whole, filled) =
      begin_found-valid (opt (codes "--version") args) (opt (codes "--out") args)
        (discover has_manifest (named args) ds) version out names h in
    (good, filled, rw (sym whole) (discover-all has_manifest (named args) ds))
