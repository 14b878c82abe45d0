-- ===== src/Transports/Ntx/Zip.antt =====
-- The zip writer (transports/tools/ntx.mjs, `zip`). `deflateRawSync` is the parameter `deflate`.
pub mod Reading
pub mod RoundTrip
pub mod Order
use nex_talk_relay.Base.{
  Text, ℕ, ◌+◌, ◌*◌, ◌/◌, ◌%◌, ◌^◌, Bool, true, false, ◌&&◌, ◌||◌, Option, none, some, List, [],
  ◌∷◌, ◌++◌, map, length, ltb, ◌==◌, if◌then◌else◌,
}
use nex_talk_relay.Encoding.{Bytes, utf8}
use nex_talk_relay.Transports.Ntx.{crc32}

-- `[name, data]`
pub record File : Type 0 where
  pub name : Text
  pub content : Bytes

-- `<` on strings
abbrev pub text_ltb : Text → Text → Bool
text_ltb [] [] = false
text_ltb [] (d ∷ t) = true
text_ltb (c ∷ s) [] = false
text_ltb (c ∷ s) (d ∷ t) = ltb c d || (c == d && text_ltb s t)

-- The sort by names. Two files of one name are compared inconsistently by the code; here they keep
-- their order.
unfoldable pub insert_file : File → List File → List File
insert_file f [] = f ∷ []
insert_file f (g ∷ fs) =
    let behind = g ∷ insert_file f fs in if text_ltb g.name f.name then behind else f ∷ g ∷ fs

unfoldable pub sort_files : List File → List File
unfolding insert_file
sort_files [] = []
sort_files (f ∷ fs) = insert_file f (sort_files fs)

-- `writeUInt16LE` and `writeUInt32LE`
abbrev pub le16 : ℕ → Bytes
le16 v = v % 256 ∷ v / 256 % 256 ∷ []

abbrev pub le32 : ℕ → Bytes
le32 v = v % 256 ∷ v / 256 % 256 ∷ v / 65536 % 256 ∷ v / 16777216 % 256 ∷ []

-- What the loop computes of a file.
pub record Member : Type 0 where
  pub n : Bytes
  pub content : Bytes
  pub crc : ℕ
  pub method : ℕ
  pub body : Bytes

unfoldable pub member : (Bytes → Bytes) → File → Member
member deflate f =
    let def = deflate f.content in
    let smaller = ltb (length def) (length f.content) in
    record {
      n = utf8 f.name;
      content = f.content;
      crc = crc32 f.content;
      method = if smaller then 8 else 0;
      body = if smaller then def else f.content;
    }

abbrev pub dos_time : ℕ
dos_time = 0

-- `(0 << 9) | (1 << 5) | 1`, the first of January 1980
abbrev pub dos_date : ℕ
dos_date = 33

unfoldable pub local_header : Member → Bytes
local_header m =
    le32 0x04034b50
    ++ (le16 20
        ++ (le16 0x0800
            ++ (le16 m.method
                ++ (le16 dos_time
                    ++ (le16 dos_date
                        ++ (le32 m.crc
                            ++ (le32 (length m.body)
                                ++ (le32 (length m.content)
                                    ++ (le16 (length m.n) ++ 0 ∷ 0 ∷ [])))))))))

unfoldable pub central_header : ℕ → Member → Bytes
central_header off m =
    le32 0x02014b50
    ++ (le16 0x031e
        ++ (le16 20
            ++ (le16 0x0800
                ++ (le16 m.method
                    ++ (le16 dos_time
                        ++ (le16 dos_date
                            ++ (le32 m.crc
                                ++ (le32 (length m.body)
                                    ++ (le32 (length m.content)
                                        ++ (le16 (length m.n)
                                            ++ (0 ∷ 0 ∷ 0 ∷ 0 ∷ 0 ∷ 0 ∷ 0 ∷ 0 ∷ []
                                                ++ (le32 (0x81a4 * 65536) ++ le32 off))))))))))))

-- The variables of the loop: the concatenated `parts` and `central`, and `off`.
pub record Written : Type 0 where
  pub parts : Bytes
  pub central : Bytes
  pub off : ℕ

unfoldable pub zip_loop : ℕ → List Member → Written
zip_loop off [] = record { parts = []; central = []; off = off }
zip_loop off (m ∷ ms) =
    let rest = zip_loop (off + (30 + length m.n + length m.body)) ms in
    record {
      parts = local_header m ++ (m.n ++ (m.body ++ rest.parts));
      central = central_header off m ++ (m.n ++ rest.central);
      off = rest.off;
    }

unfoldable pub end_record : ℕ → Written → Bytes
end_record count w =
    le32 0x06054b50
    ++ (0 ∷ 0 ∷ 0 ∷ 0 ∷ []
        ++ (le16 count ++ (le16 count ++ (le32 (length w.central) ++ (le32 w.off ++ 0 ∷ 0 ∷ [])))))

-- The values that are written fit their fields; the code throws a RangeError otherwise.
abbrev pub member_fits : ℕ → Member → Bool
member_fits off m =
    (ltb (length m.n) (2 ^ 16) && ltb (length m.content) (2 ^ 32))
    && (ltb (length m.body) (2 ^ 32) && ltb off (2 ^ 32))

abbrev pub members_fit : ℕ → List Member → Bool
members_fit off [] = ltb off (2 ^ 32)
members_fit off (m ∷ ms) =
    member_fits off m && members_fit (off + (30 + length m.n + length m.body)) ms

unfoldable pub archive : List Member → Option Bytes
unfolding zip_loop end_record local_header central_header
archive ms =
    let w = zip_loop 0 ms in
    if members_fit 0 ms && (ltb (length ms) (2 ^ 16) && ltb (length w.central) (2 ^ 32))
    then some (w.parts ++ (w.central ++ end_record (length ms) w))
    else none

-- `zip`; `none` is the RangeError.
unfoldable pub zip : (Bytes → Bytes) → List File → Option Bytes
unfolding archive sort_files member
zip deflate files = archive (map (member deflate) (sort_files files))
