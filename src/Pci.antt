-- ===== src/Pci.antt =====
-- The PCI Express controllers: eos_lib/eos_lib/eos_mpc8308_pci_reconfig.cpp in this file and in
-- Pci/Reset.antt, eos_p204x_pci_hot_reset.cpp in Pci/HotReset.antt and eos_scan_pcie.cpp in
-- Pci/Scan.antt.
pub mod LittleEndian
pub mod Reset
pub mod HotReset
pub mod Scan
mod Tests
use Prim.Native.Nat.{bit_or}
use libeos.Prelude.{ℕ, ◌+◌, ◌*◌, ◌/◌, ◌%◌, ◌^◌}

-- The processor's order of the bytes of a number: the highest first, as on the MPC8308, or the
-- lowest.
pub data ByteOrder : Type 0 where
  big little : ByteOrder

-- Four bytes, in the order in which they stand in memory.
abbrev pub Bytes4 : Type 0
Bytes4 = ℕ × ℕ × ℕ × ℕ

-- Byte `k` of a number.
abbrev pub byte : ℕ → ℕ → ℕ
byte k v = v / 256 ^ k % 256

-- An `unsigned int` in memory, and back; and an `unsigned short`.
abbrev pub word4 : ByteOrder → ℕ → Bytes4
word4 big v = (byte 3 v, byte 2 v, byte 1 v, byte 0 v)
word4 little v = (byte 0 v, byte 1 v, byte 2 v, byte 3 v)

abbrev pub number4 : ByteOrder → Bytes4 → ℕ
number4 big (a, b, c, d) = a * 256 ^ 3 + b * 256 ^ 2 + c * 256 + d
number4 little (a, b, c, d) = d * 256 ^ 3 + c * 256 ^ 2 + b * 256 + a

abbrev pub number2 : ByteOrder → ℕ × ℕ → ℕ
number2 big (a, b) = a * 256 + b
number2 little (a, b) = b * 256 + a

abbrev pub word2 : ByteOrder → ℕ → ℕ × ℕ
word2 big v = (byte 1 v, byte 0 v)
word2 little v = (byte 0 v, byte 1 v)

-- (data[3] << 24) | (data[2] << 16) | (data[1] << 8) | (data[0])
abbrev pub high_first_or : Bytes4 → ℕ
high_first_or (d0, d1, d2, d3) =
    bit_or (bit_or (bit_or (d3 * 2 ^ 24) (d2 * 2 ^ 16)) (d1 * 2 ^ 8)) d0 % 2 ^ 32

-- (data[0]) | (data[1] << 8) | (data[2] << 16) | (data[3] << 24)
abbrev pub low_first_or : Bytes4 → ℕ
low_first_or (d0, d1, d2, d3) =
    bit_or (bit_or (bit_or d0 (d1 * 2 ^ 8)) (d2 * 2 ^ 16)) (d3 * 2 ^ 24) % 2 ^ 32

module _ (order : ByteOrder) where
  -- From the bytes at the address.
  unfoldable pub eos_rd_le32 : Bytes4 → ℕ
  eos_rd_le32 bytes = high_first_or (word4 order (number4 order bytes))

  -- To the bytes at the address.
  unfoldable pub eos_wr_le32 : ℕ → Bytes4
  eos_wr_le32 reg32 = word4 order (low_first_or (word4 order reg32))

  -- The value goes through a pointer to `unsigned int`, so that four bytes are written.
  unfoldable pub eos_wr_le16 : ℕ → Bytes4
  eos_wr_le16 reg16 =
      let (d0, d1) = word2 order reg16 in word4 order (bit_or d0 (d1 * 2 ^ 8) % 2 ^ 16)

  unfoldable pub eos_rd_le16 : ℕ × ℕ → ℕ
  eos_rd_le16 (a, b) =
      let (d0, d1) = word2 order (number2 order (a, b)) in bit_or (d1 * 2 ^ 8) d0 % 2 ^ 16
