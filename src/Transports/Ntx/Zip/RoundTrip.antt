-- ===== src/Transports/Ntx/Zip/RoundTrip.antt =====
-- What a reader finds in the archives that `zip` writes (transports/tools/ntx.mjs).
use nex_talk_relay.Base.{
  ℕ, ◌+◌, ◌-◌, ◌^◌, ◌<◌, ◌≡◌, refl, ap, ◌∙◌, Bool-cases, inl, inr, true, Option, some, List, [],
  ◌∷◌, ◌++◌, map, length, length-append, ltb, ◌&&◌, arith,
}
use nex_talk_relay.Encoding.{Bytes, utf8}
use nex_talk_relay.Transports.Host.{byte_at, bytes_at}
use nex_talk_relay.Transports.Queue.Polled.{bytes_at-eq}
use nex_talk_relay.Transports.Ntx.Zip.{
  File, Member, member, local_header, central_header, Written, zip_loop, end_record, member_fits,
  members_fit, archive, zip, sort_files,
}
use nex_talk_relay.Transports.Ntx.Zip.Reading.{
  View, At, At-left, At-right, At-whole, u16_at, u32_at, u16_at-At, u32_at-At, unpack, read_entry,
  read_entries, unzip,
}

-- The fields that a reader looks up in the headers of a member.
local_fields :
    (buf : Bytes) (p : ℕ) (m : Member)
    → At buf p (local_header m)
    → length m.n < 2 ^ 16
    → (u16_at buf (p + 26) ≡ length m.n) × (u16_at buf (p + 28) ≡ 0)
unfolding local_header u16_at
local_fields buf p m h n = (
  u16_at-At buf p (local_header m) 26 h (omega arith) ∙ omega arith,
  u16_at-At buf p (local_header m) 28 h (omega arith),
)

central_fields :
    (buf : Bytes) (p off : ℕ) (m : Member)
    → At buf p (central_header off m)
    → member_fits off m ≡ true
    → m.method < 2 ^ 16
    → (u32_at buf p ≡ 0x02014b50)
      × (u16_at buf (p + 10) ≡ m.method)
      × (u32_at buf (p + 20) ≡ length m.body)
      × (u16_at buf (p + 28) ≡ length m.n)
      × (u16_at buf (p + 30) ≡ 0)
      × (u16_at buf (p + 32) ≡ 0)
      × (u32_at buf (p + 42) ≡ off)
unfolding central_header u32_at u16_at
central_fields buf p off m h fits small =
    let xs : Bytes = central_header off m in
    let n : length m.n < 2 ^ 16 = ground arith in
    let b : length m.body < 2 ^ 32 = ground arith in
    let o : off < 2 ^ 32 = ground arith in
    (
      ap (λ x. u32_at buf x) (omega arith) ∙ u32_at-At buf p xs 0 h (omega arith),
      u16_at-At buf p xs 10 h (omega arith) ∙ omega arith,
      u32_at-At buf p xs 20 h (omega arith) ∙ omega arith,
      u16_at-At buf p xs 28 h (omega arith) ∙ omega arith,
      u16_at-At buf p xs 30 h (omega arith),
      u16_at-At buf p xs 32 h (omega arith),
      u32_at-At buf p xs 42 h (omega arith) ∙ omega arith,
    )

length-local_header : (m : Member) → length (local_header m) ≡ 30
unfolding local_header
length-local_header m = refl

length-central_header : (off : ℕ) (m : Member) → length (central_header off m) ≡ 46
unfolding central_header
length-central_header off m = refl

-- The bytes that stand at a place are the slice from there.
slice-At :
    (buf : Bytes) (p n : ℕ) (xs : Bytes)
    → At buf p xs
    → n ≡ length xs
    → bytes_at (byte_at buf) p n ≡ xs
slice-At buf p n xs h e = rw e (bytes_at-eq xs (byte_at buf) p h)

abbrev view : Member → View
view m = (m.n, m.content)

-- What is expected in the archive of a file.
abbrev pub content_of : File → View
content_of f = (utf8 f.name, f.content)

module _ (inflate : Bytes → Option Bytes) where
  -- A member whose packed bytes give its content.
  abbrev pub IsPacked : Member → Type 0
  IsPacked m = (m.method < 2 ^ 16) × (unpack inflate m.method m.body ≡ some m.content)

  abbrev pub AllPacked : List Member → Type 0
  AllPacked [] = Unit
  AllPacked (m ∷ ms) = IsPacked m × AllPacked ms

  read_entry-member :
      (buf : Bytes) (p off : ℕ) (m : Member) (parts central : Bytes)
      → At buf off (local_header m ++ (m.n ++ (m.body ++ parts)))
      → At buf p (central_header off m ++ (m.n ++ central))
      → member_fits off m ≡ true
      → m.method < 2 ^ 16
      → read_entry inflate buf p ≡ (m.n, (m.method, (m.body, p + (46 + length m.n))))
  unfolding read_entry
  read_entry-member buf p off m parts central here there fits small =
      let head = At-left buf off (local_header m) (m.n ++ (m.body ++ parts)) here in
      let behind = At-right buf off (local_header m) (m.n ++ (m.body ++ parts)) here in
      let body = At-left buf _ m.body parts (At-right buf _ m.n (m.body ++ parts) behind) in
      let entry = At-left buf p (central_header off m) (m.n ++ central) there in
      let name =
        At-left buf _ m.n central (At-right buf p (central_header off m) (m.n ++ central) there) in
      let (l_n, l_x) = local_fields buf off m head (ground arith) in
      let (c_sig, c_method, c_size, c_n, c_x, c_c, c_off) =
        central_fields buf p off m entry fits small in
      let name' : At buf (p + 46) m.n = rw (length-central_header off m) at name in
      let body' : At buf (off + 30 + length m.n) m.body = rw (length-local_header m) at body in
      let start : off + 30 + length m.n + 0 ≡ off + 30 + length m.n = omega arith in
      let next : p + 46 + length m.n + 0 + 0 ≡ p + (46 + length m.n) = omega arith in
      rw
        (
          c_off,
          l_n,
          l_x,
          c_size,
          c_n,
          c_x,
          c_c,
          c_method,
          start,
          next,
          slice-At buf (p + 46) (length m.n) m.n name' refl,
          slice-At buf (off + 30 + length m.n) (length m.body) m.body body' refl,
        )
        refl

  -- What stands behind the first member.
  parts-behind :
      (buf : Bytes) (off : ℕ) (m : Member) (parts : Bytes)
      → At buf off (local_header m ++ (m.n ++ (m.body ++ parts)))
      → At buf (off + (30 + length m.n + length m.body)) parts
  parts-behind buf off m parts h =
      let one = At-right buf off (local_header m) (m.n ++ (m.body ++ parts)) h in
      let two = At-right buf _ m.n (m.body ++ parts) one in
      let three = At-right buf _ m.body parts two in
      let place : off + length (local_header m) + length m.n + length m.body
          ≡ off + (30 + length m.n + length m.body) =
        omega (arith, length-local_header m) in
      rw place at three

  central-behind :
      (buf : Bytes) (p off : ℕ) (m : Member) (central : Bytes)
      → At buf p (central_header off m ++ (m.n ++ central))
      → At buf (p + (46 + length m.n)) central
  central-behind buf p off m central h =
      let one = At-right buf p (central_header off m) (m.n ++ central) h in
      let two = At-right buf _ m.n central one in
      let place : p + length (central_header off m) + length m.n ≡ p + (46 + length m.n) =
        omega (arith, length-central_header off m) in
      rw place at two

  read_entries-loop :
      (buf : Bytes) (p off : ℕ) (ms : List Member)
      → At buf off (zip_loop off ms).parts
      → At buf p (zip_loop off ms).central
      → members_fit off ms ≡ true
      → AllPacked ms
      → read_entries inflate buf (length ms) p ≡ some (map view ms)
  unfolding read_entries zip_loop
  read_entries-loop buf p off [] here there fits packed = refl
  read_entries-loop buf p off (m ∷ ms) here there fits packed =
      let rest : Written = zip_loop (off + (30 + length m.n + length m.body)) ms in
      let fit : member_fits off m ≡ true = ground arith in
      let entry = read_entry-member buf p off m rest.parts rest.central here there fit packed.0.0 in
      let (sig, _, _, _, _, _, _) =
        central_fields buf p off m
          (At-left buf p (central_header off m) (m.n ++ rest.central) there) fit packed.0.0 in
      let again =
        read_entries-loop buf (p + (46 + length m.n)) (off + (30 + length m.n + length m.body)) ms
          (parts-behind buf off m rest.parts here) (central-behind buf p off m rest.central there)
          (ground arith) packed.1 in
      rw (sig, entry, packed.0.1, entry, again, entry, read_entries) refl

zip_loop-off :
    (off : ℕ) (ms : List Member) → (zip_loop off ms).off ≡ off + length (zip_loop off ms).parts
unfolding zip_loop
zip_loop-off off [] = omega arith
zip_loop-off off (m ∷ ms) =
    let rest : Written = zip_loop (off + (30 + length m.n + length m.body)) ms in
    omega (
      arith,
      zip_loop-off (off + (30 + length m.n + length m.body)) ms,
      length-local_header m,
      length-append {0} (local_header m) (m.n ++ (m.body ++ rest.parts)),
      length-append {0} m.n (m.body ++ rest.parts),
      length-append {0} m.body rest.parts,
    )

members_fit-off :
    (off : ℕ) (ms : List Member) → members_fit off ms ≡ true → (zip_loop off ms).off < 2 ^ 32
unfolding zip_loop
members_fit-off off [] h = ground arith
members_fit-off off (m ∷ ms) h =
    members_fit-off (off + (30 + length m.n + length m.body)) ms (ground arith)

length-end_record : (count : ℕ) (w : Written) → length (end_record count w) ≡ 22
unfolding end_record
length-end_record count w = refl

end_fields :
    (buf : Bytes) (p count : ℕ) (w : Written)
    → At buf p (end_record count w)
    → count < 2 ^ 16
    → w.off < 2 ^ 32
    → (u32_at buf p ≡ 0x06054b50) × (u16_at buf (p + 10) ≡ count) × (u32_at buf (p + 16) ≡ w.off)
unfolding end_record u32_at u16_at
end_fields buf p count w h c o = (
  ap (λ x. u32_at buf x) (omega arith) ∙ u32_at-At buf p (end_record count w) 0 h (omega arith),
  u16_at-At buf p (end_record count w) 10 h (omega arith) ∙ omega arith,
  u32_at-At buf p (end_record count w) 16 h (omega arith) ∙ omega arith,
)

module _ (inflate : Bytes → Option Bytes) where
  unzip-written :
      (ms : List Member)
      → members_fit 0 ms ≡ true
      → length ms < 2 ^ 16
      → AllPacked inflate ms
      → unzip inflate (
          (zip_loop 0 ms).parts
          ++ ((zip_loop 0 ms).central ++ end_record (length ms) (zip_loop 0 ms)))
        ≡ some (map view ms)
  unfolding unzip
  unzip-written ms fits count packed =
      let w : Written = zip_loop 0 ms in
      let last : Bytes = end_record (length ms) w in
      let buf : Bytes = w.parts ++ (w.central ++ last) in
      let off : w.off ≡ length w.parts = zip_loop-off 0 ms ∙ omega arith in
      let small : w.off < 2 ^ 32 = members_fit-off 0 ms fits in
      let parts = At-left buf 0 w.parts (w.central ++ last) (At-whole buf) in
      let behind = At-right buf 0 w.parts (w.central ++ last) (At-whole buf) in
      let central = At-left buf _ w.central last behind in
      let tail = At-right buf _ w.central last behind in
      let place : length buf - 22 ≡ 0 + length w.parts + length w.central = omega (
        arith,
        length-append {0} w.parts (w.central ++ last),
        length-append {0} w.central last,
        length-end_record (length ms) w,
      ) in
      let (sig, n, o) = end_fields buf _ (length ms) w tail count small in
      let directory : u32_at buf (0 + length w.parts + length w.central + 16) ≡ 0 + length w.parts =
        o ∙ off ∙ omega arith in
      let entries =
        read_entries-loop inflate buf (0 + length w.parts) 0 ms parts central fits packed in
      rw (place, sig, n, directory, entries) refl

  -- A reader finds the members of an archive in their order.
  unzip-archive :
      (ms : List Member) (buf : Bytes)
      → archive ms ≡ some buf
      → AllPacked inflate ms
      → unzip inflate buf ≡ some (map view ms)
  unfolding archive
  unzip-archive ms buf made packed =
      let w : Written = zip_loop 0 ms in
      let last : Bytes = end_record (length ms) w in
      let fits : (members_fit 0 ms && (ltb (length ms) (2 ^ 16) && ltb (length w.central) (2 ^ 32)))
          ≡ true =
        ground arith in
      let same : w.parts ++ (w.central ++ last) ≡ buf = ground arith in
      rw same at (unzip-written ms (ground arith) (ground arith) packed)

  member-IsPacked :
      (deflate : Bytes → Bytes) (f : File)
      → inflate (deflate f.content) ≡ some f.content
      → IsPacked inflate (member deflate f)
  unfolding member unpack
  member-IsPacked deflate f h =
      elim (Bool-cases (ltb (length (deflate f.content)) (length f.content))) [
        | inl smaller ↦ rw smaller (omega arith, h)
        | inr larger ↦ rw larger (omega arith, refl)
      ]

  all_members :
      (deflate : Bytes → Bytes) (fs : List File)
      → ((d : Bytes) → inflate (deflate d) ≡ some d)
      → AllPacked inflate (map (member deflate) fs)
        × (map view (map (member deflate) fs) ≡ map content_of fs)
  unfolding member
  all_members deflate [] law = (tt, refl)
  all_members deflate (f ∷ fs) law =
      let (packed, same) = all_members deflate fs law in
      ((member-IsPacked deflate f (law f.content), packed), ap (λ vs. content_of f ∷ vs) same)

  -- The archive that `zip` writes holds the files: a reader that goes by the record at the end and the
  -- central directory finds each of them once, with its name and its bytes, in the order of the names.
  -- The hypothesis on the compression is that inflating undoes deflating.
  pub unzip-zip :
      (deflate : Bytes → Bytes) (files : List File) (buf : Bytes)
      → ((d : Bytes) → inflate (deflate d) ≡ some d)
      → zip deflate files ≡ some buf
      → unzip inflate buf ≡ some (map content_of (sort_files files))
  unfolding zip
  unzip-zip deflate files buf law made =
      let (packed, same) = all_members deflate (sort_files files) law in
      unzip-archive (map (member deflate) (sort_files files)) buf made packed ∙ ap some same
