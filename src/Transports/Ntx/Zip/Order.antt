-- ===== src/Transports/Ntx/Zip/Order.antt =====
-- The order of the files that are packed does not matter (transports/tools/ntx.mjs, the sort of `zip`).
use mathlib.Core.List.{Permᴰ}
use mathlib.Core.Path.{subst}
use nex_talk_relay.Base.{
  Text, ◌≡◌, ◌≢◌, ◌⊎◌, refl, ap, sym, ◌∙◌, Bool-cases, inl, inr, true, false, List, [], ◌∷◌, map,
  ltb, arith,
}
use nex_talk_relay.Encoding.{Bytes}
use nex_talk_relay.Transports.Ntx.Zip.{
  File, text_ltb, insert_file, sort_files, member, archive, zip,
}

text_ltb_asym : (s t : Text) → text_ltb s t ≡ true → text_ltb t s ≡ false
text_ltb_asym [] [] h = cc
text_ltb_asym [] (d ∷ t) h = refl
text_ltb_asym (c ∷ s) [] h = cc
text_ltb_asym (c ∷ s) (d ∷ t) h = ground (arith, text_ltb_asym s t)

text_ltb_trans : (s t u : Text) → text_ltb s t ≡ true → text_ltb t u ≡ true → text_ltb s u ≡ true
text_ltb_trans s [] [] h k = cc
text_ltb_trans s (d ∷ t) [] h k = cc
text_ltb_trans [] t (e ∷ u) h k = refl
text_ltb_trans (c ∷ s) [] (e ∷ u) h k = cc
text_ltb_trans (c ∷ s) (d ∷ t) (e ∷ u) h k = ground (arith, text_ltb_trans s t u)

text_ltb_total : (s t : Text) → s ≢ t → (text_ltb s t ≡ true) ⊎ (text_ltb t s ≡ true)
text_ltb_total [] [] h = absurd (h refl)
text_ltb_total [] (d ∷ t) h = inl refl
text_ltb_total (c ∷ s) [] h = inr refl
text_ltb_total (c ∷ s) (d ∷ t) h = elim (Bool-cases (ltb c d)) [
  | inl lt ↦ inl (ground arith)
  | inr ge ↦ elim (Bool-cases (ltb d c)) [
    | inl gt ↦ inr (ground arith)
    | inr le ↦
        (let e : c ≡ d = ground arith in
          elim (text_ltb_total s t (λ same. h (cc (e, same)))) [
            | inl lt ↦ inl (ground arith)
            | inr gt ↦ inr (ground arith)
          ])
  ]
]

insert_file_comm_lt :
    (f g : File) (fs : List File)
    → text_ltb f.name g.name ≡ true
    → insert_file f (insert_file g fs) ≡ insert_file g (insert_file f fs)
unfolding insert_file
insert_file_comm_lt f g [] h = rw (h, text_ltb_asym f.name g.name h) refl
insert_file_comm_lt f g (x ∷ fs) h = ground (
  arith,
  text_ltb_asym f.name g.name,
  text_ltb_trans x.name f.name g.name,
  insert_file_comm_lt f g fs h,
)

insert_file_comm :
    (f g : File) (fs : List File)
    → f.name ≢ g.name
    → insert_file f (insert_file g fs) ≡ insert_file g (insert_file f fs)
insert_file_comm f g fs h = elim (text_ltb_total f.name g.name h) [
  | inl lt ↦ insert_file_comm_lt f g fs lt
  | inr gt ↦ sym (insert_file_comm_lt g f fs gt)
]

-- No other file has the name.
abbrev Away : Text → List File → Type 0
Away t [] = Unit
Away t (f ∷ fs) = (t ≢ f.name) × Away t fs

-- The names are pairwise different.
abbrev pub AllDistinct : List File → Type 0
AllDistinct [] = Unit
AllDistinct (f ∷ fs) = Away f.name fs × AllDistinct fs

Away-perm : {fs gs : List File} (t : Text) → Permᴰ fs gs → Away t fs → Away t gs
Away-perm t Permᴰ.nil h = tt
Away-perm t (Permᴰ.cons e p) h = (rw e at h.0, Away-perm t p h.1)
Away-perm t (Permᴰ.swap e d) h = (rw d at h.1.0, (rw e at h.0, h.1.1))
Away-perm t (Permᴰ.trans p q) h = Away-perm t q (Away-perm t p h)

AllDistinct-perm : {fs gs : List File} → Permᴰ fs gs → AllDistinct fs → AllDistinct gs
AllDistinct-perm Permᴰ.nil h = tt
AllDistinct-perm (Permᴰ.cons {l₁} {l₂} e p) h =
    (Away-perm _ p (rw e at h.0), AllDistinct-perm p h.1)
AllDistinct-perm (Permᴰ.swap {l} e d) h = (
  ((λ same. h.0.0 (cc (same, e, d))), subst (λ f. Away f.name l) d h.1.0),
  (subst (λ f. Away f.name l) e h.0.1, h.1.1),
)
AllDistinct-perm (Permᴰ.trans p q) h = AllDistinct-perm q (AllDistinct-perm p h)

sort_files-perm : {fs gs : List File} → Permᴰ fs gs → AllDistinct fs → sort_files fs ≡ sort_files gs
unfolding sort_files
sort_files-perm Permᴰ.nil h = refl
sort_files-perm (Permᴰ.cons e p) h = cc (e, sort_files-perm p h.1)
sort_files-perm (Permᴰ.swap {a} {b} {a'} {b'} {l} e d) h =
    insert_file_comm a b (sort_files l) h.0.0 ∙ cc (e, d)
sort_files-perm (Permᴰ.trans p q) h = sort_files-perm p h ∙ sort_files-perm q (AllDistinct-perm p h)

-- Packages are reproducible: files of different names give the same archive, byte for byte, in
-- whatever order they are handed over.
pub zip-perm :
    (deflate : Bytes → Bytes) {fs gs : List File}
    → Permᴰ fs gs
    → AllDistinct fs
    → zip deflate fs ≡ zip deflate gs
unfolding zip
zip-perm deflate p h = ap (λ l. archive (map (member deflate) l)) (sort_files-perm p h)
