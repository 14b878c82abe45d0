-- ===== src/Transports/Ntx/Zip/Reading.antt =====
-- Reading an archive by its central directory, as a zip reader does, and the archives of `zip`
-- (transports/tools/ntx.mjs).
use nex_talk_relay.Base.{
  ℕ, zero, suc, ◌+◌, ◌-◌, ◌*◌, ◌<◌, ◌≡◌, ap, ◌∙◌, Option, none, some, List, [], ◌∷◌, ◌++◌, length,
  length-append, ◌==◌, if◌then◌else◌, arith,
}
use nex_talk_relay.Encoding.{Bytes}
use nex_talk_relay.Transports.Host.{byte_at, bytes_at}
use nex_talk_relay.Transports.Queue.Contents.{byte_at-append_left, byte_at-append_right}

unfoldable pub u16_at : Bytes → ℕ → ℕ
u16_at buf p = byte_at buf p + 256 * byte_at buf (p + 1)

unfoldable pub u32_at : Bytes → ℕ → ℕ
unfolding u16_at
u32_at buf p = u16_at buf p + 65536 * u16_at buf (p + 2)

-- The bytes `xs` stand at `p`.
abbrev pub At : Bytes → ℕ → Bytes → Type 0
At buf p xs = (i : ℕ) → i < length xs → byte_at buf (p + i) ≡ byte_at xs i

pub At-left : (buf : Bytes) (p : ℕ) (xs ys : Bytes) → At buf p (xs ++ ys) → At buf p xs
At-left buf p xs ys h i k =
    h i (omega (arith, length-append {0} xs ys)) ∙ byte_at-append_left xs ys i k

pub At-right :
    (buf : Bytes) (p : ℕ) (xs ys : Bytes) → At buf p (xs ++ ys) → At buf (p + length xs) ys
At-right buf p xs ys h i k =
    ap (byte_at buf) (omega arith)
    ∙ h (length xs + i) (omega (arith, length-append {0} xs ys))
    ∙ byte_at-append_right xs ys i

pub At-whole : (buf : Bytes) → At buf 0 buf
At-whole buf i k = ap (byte_at buf) (omega arith)

-- A field of two or four bytes of what stands at `p`.
pub u16_at-At :
    (buf : Bytes) (p : ℕ) (xs : Bytes) (k : ℕ)
    → At buf p xs
    → k + 1 < length xs
    → u16_at buf (p + k) ≡ u16_at xs k
unfolding u16_at
u16_at-At buf p xs k h le =
    let place : byte_at buf (p + k + 1) ≡ byte_at buf (p + (k + 1)) =
      ap (byte_at buf) (omega arith) in
    omega (arith, place, h k (omega arith), h (k + 1) (omega arith))

pub u32_at-At :
    (buf : Bytes) (p : ℕ) (xs : Bytes) (k : ℕ)
    → At buf p xs
    → k + 3 < length xs
    → u32_at buf (p + k) ≡ u32_at xs k
unfolding u32_at
u32_at-At buf p xs k h le =
    let place : u16_at buf (p + k + 2) ≡ u16_at buf (p + (k + 2)) =
      ap (λ x. u16_at buf x) (omega arith) in
    omega (
      arith,
      place,
      u16_at-At buf p xs k h (omega arith),
      u16_at-At buf p xs (k + 2) h (omega arith),
    )

-- A member of an archive: its name and its bytes.
abbrev pub View : Type 0
View = Bytes × Bytes

module _ (inflate : Bytes → Option Bytes) where
  -- The bytes of a member, as its method says.
  unfoldable pub unpack : ℕ → Bytes → Option Bytes
  unpack method raw = if method == 8 then inflate raw else some raw

  -- The entry of the directory at `p`: the name, the method and the packed bytes, and the next entry.
  unfoldable pub read_entry : Bytes → ℕ → Bytes × (ℕ × (Bytes × ℕ))
  read_entry buf p =
      let csize = u32_at buf (p + 20) in
      let nl = u16_at buf (p + 28) in
      let lo = u32_at buf (p + 42) in
      let start = lo + 30 + u16_at buf (lo + 26) + u16_at buf (lo + 28) in
      (
        bytes_at (byte_at buf) (p + 46) nl,
        (
          u16_at buf (p + 10),
          (
            bytes_at (byte_at buf) start csize,
            p + 46 + nl + u16_at buf (p + 30) + u16_at buf (p + 32),
          ),
        ),
      )

  unfoldable pub read_entries : Bytes → ℕ → ℕ → Option (List View)
  read_entries buf zero p = some []
  read_entries buf (suc k) p =
      let (name, (method, (raw, next))) = read_entry buf p in
      let here = unpack method raw in
      let rest = read_entries buf k next in
      if u32_at buf p == 0x02014b50
      then elim here [
        | none ↦ none
        | some d ↦ elim rest [ none ↦ none | some vs ↦ some ((name, d) ∷ vs) ]
      ]
      else none

  -- A reader: the record at the end, then the directory.
  unfoldable pub unzip : Bytes → Option (List View)
  unzip buf =
      let e = length buf - 22 in
      if u32_at buf e == 0x06054b50
      then read_entries buf (u16_at buf (e + 10)) (u32_at buf (e + 16))
      else none
