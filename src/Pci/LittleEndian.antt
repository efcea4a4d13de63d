-- ===== src/Pci/LittleEndian.antt =====
-- In which order the registers' bytes are read and written.
use Prim.Native.Nat.{bit_or}
use libeos.Prelude.{ℕ, ◌+◌, ◌*◌, ◌^◌, ◌<◌, ◌≡◌, ap, ◌∙◌, bit_or-add, arith}
use libeos.Pci.{
  ByteOrder, big, little, Bytes4, byte, word4, number4, high_first_or, low_first_or, eos_rd_le32,
  eos_wr_le32, eos_wr_le16,
}

-- The four bytes are bytes.
abbrev pub AreBytes : Bytes4 → Type 0
AreBytes (a, b, c, d) = (a < 256) × (b < 256) × (c < 256) × (d < 256)

-- What little-endian bytes stand for.
abbrev pub low_first_number : Bytes4 → ℕ
low_first_number bytes = number4 little bytes

high_first_or_lem : (bytes : Bytes4) → AreBytes bytes → high_first_or bytes ≡ low_first_number bytes
high_first_or_lem (a, b, c, d) (p, q, r, s) =
    let e3 : bit_or (d * 2 ^ 24) (c * 2 ^ 16) ≡ (d * 256 + c) * 2 ^ 16 =
      (bit_or-add 24 d (c * 2 ^ 16) (omega arith)).0 ∙ omega arith in
    let e2 : bit_or ((d * 256 + c) * 2 ^ 16) (b * 2 ^ 8) ≡ ((d * 256 + c) * 256 + b) * 2 ^ 8 =
      (bit_or-add 16 (d * 256 + c) (b * 2 ^ 8) (omega arith)).0 ∙ omega arith in
    let e1 = (bit_or-add 8 ((d * 256 + c) * 256 + b) a (omega arith)).0 in
    rw (e3, e2, e1) (omega arith)

low_first_or_lem : (bytes : Bytes4) → AreBytes bytes → low_first_or bytes ≡ low_first_number bytes
low_first_or_lem (a, b, c, d) (p, q, r, s) =
    let e1 = (bit_or-add 8 b a (omega arith)).1 in
    let e2 = (bit_or-add 16 c (b * 2 ^ 8 + a) (omega arith)).1 in
    let e3 = (bit_or-add 24 d (c * 2 ^ 16 + (b * 2 ^ 8 + a)) (omega arith)).1 in
    rw (e1, e2, e3) (omega arith)

-- The lowest byte of a number first.
abbrev pub low_first : ℕ → Bytes4
low_first v = word4 little v

word4-AreBytes : (order : ByteOrder) (v : ℕ) → AreBytes (word4 order v)
word4-AreBytes big v = (omega arith, omega arith, omega arith, omega arith)
word4-AreBytes little v = (omega arith, omega arith, omega arith, omega arith)

four :
    {a b c d a' b' c' d' : ℕ}
    → a ≡ a'
    → b ≡ b'
    → c ≡ c'
    → d ≡ d'
    → ◌≡◌ {A = Bytes4} (a, b, c, d) (a', b', c', d')
four p q r s i = (p i, q i, r i, s i)

word4-low_first_number :
    (order : ByteOrder) (v : ℕ) → word4 order (low_first_number (word4 order v)) ≡ low_first v
word4-low_first_number big v = four (omega arith) (omega arith) (omega arith) (omega arith)
word4-low_first_number little v = four (omega arith) (omega arith) (omega arith) (omega arith)

word4-number4 :
    (order : ByteOrder) (bytes : Bytes4)
    → AreBytes bytes
    → word4 order (number4 order bytes) ≡ bytes
word4-number4 big (a, b, c, d) (p, q, r, s) =
    four (omega arith) (omega arith) (omega arith) (omega arith)
word4-number4 little (a, b, c, d) (p, q, r, s) =
    four (omega arith) (omega arith) (omega arith) (omega arith)

writes : (order : ByteOrder) (v : ℕ) → eos_wr_le32 order v ≡ low_first v
unfolding eos_wr_le32
writes order v =
    ap (word4 order) (low_first_or_lem (word4 order v) (word4-AreBytes order v))
    ∙ word4-low_first_number order v

reads :
    (order : ByteOrder) (bytes : Bytes4)
    → AreBytes bytes
    → eos_rd_le32 order bytes ≡ low_first_number bytes
unfolding eos_rd_le32
reads order bytes are =
    ap high_first_or (word4-number4 order bytes are) ∙ high_first_or_lem bytes are

-- On both kinds of processors, for a number of 32 bits and any four bytes: eos_wr_le32 writes the
-- lowest byte of the number first, eos_rd_le32 reads the first byte as the lowest, and so it reads
-- back what eos_wr_le32 wrote.
pub eos_rd_le32-eos_wr_le32 :
    (order : ByteOrder) (v : ℕ) (bytes : Bytes4)
    → v < 2 ^ 32
    → AreBytes bytes
    → (eos_wr_le32 order v ≡ low_first v)
      × (eos_rd_le32 order bytes ≡ low_first_number bytes)
      × (eos_rd_le32 order (eos_wr_le32 order v) ≡ v)
eos_rd_le32-eos_wr_le32 order v bytes small are = (
  writes order v,
  reads order bytes are,
  ap (eos_rd_le32 order) (writes order v)
      ∙ reads order (low_first v) (word4-AreBytes little v)
      ∙ omega arith,
)

-- On a processor that has the highest byte first, eos_wr_le16 writes two zeros to its address, and
-- the value behind them; on the other, the value, and two zeros behind it.
pub eos_wr_le16_lem :
    (v : ℕ)
    → v < 2 ^ 16
    → (eos_wr_le16 big v ≡ (0, 0, byte 0 v, byte 1 v))
      × (eos_wr_le16 little v ≡ (byte 0 v, byte 1 v, 0, 0))
unfolding eos_wr_le16
eos_wr_le16_lem v small =
    let swapped = (bit_or-add 8 (byte 0 v) (byte 1 v) (omega arith)).1 in
    let same = (bit_or-add 8 (byte 1 v) (byte 0 v) (omega arith)).1 in
    (
      rw swapped (four (omega arith) (omega arith) (omega arith) (omega arith)),
      rw same (four (omega arith) (omega arith) (omega arith) (omega arith)),
    )
