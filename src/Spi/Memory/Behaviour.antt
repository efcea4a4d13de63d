-- ===== src/Spi/Memory/Behaviour.antt =====
-- What the round trips take for granted of a memory without pages (the FM25V02's FRAM, the
-- MR25H10's MRAM) behind the driver, as its data sheet states it: a parameter of the theorems.
use Prim.Native.Nat.{bit_and}
use libeos.Prelude.{
  ℕ, zero, suc, ◌+◌, ◌-◌, ◌*◌, ◌≤◌, ◌<◌, ◌≡◌, ℤ, pos, Bool, true, Option, none, some, List, [], ◌∷◌,
  ◌++◌, length, arith, refl, ◌^◌, Buf, slice, store,
}
use libeos.Spi.Machine.{Bus}
use libeos.Spi.Memory.{addr_bytes2, addr_bytes3}

-- Address bytes, the highest first, behind a number read so far.
abbrev pub decode_from : ℕ → List ℕ → ℕ
decode_from acc [] = acc
decode_from acc (b ∷ bytes) = decode_from (acc * 256 + b) bytes

abbrev pub decode : List ℕ → ℕ
decode = decode_from 0

abbrev pub is_positive : ℕ → ℕ
is_positive zero = 0
is_positive (suc n) = 1

-- A chip with `addr_len` address bytes and `capacity` cells: its content, its write enable latch,
-- and how often a look at the status will still find it busy, at most `slack` times after a write.
pub record MemoryChip {W : Type 0} (bus : Bus W) (addr_len capacity slack : ℕ) : Type 0 where
  pub mem : W → Buf
  pub write_enabled : W → Bool
  pub busy : W → ℕ
  -- The read command 0x03.
  pub read_data :
      (fd : ℤ) (b : Buf) (bytes : List ℕ) (n : ℕ) (w : W)
      → slice b 0 (addr_len + 2) ≡ (addr_len + 1) ∷ 0x03 ∷ bytes
      → decode bytes + n ≤ capacity
      → busy w ≡ 0
      → let r = bus.sys_read fd b n w in
        (r.ret ≡ pos n)
        × ((j : ℕ) → j < n → r.buf j ≡ mem w (decode bytes + j))
        × (mem r.world ≡ mem w)
        × (busy r.world ≡ 0)
  -- The read status command 0x05.
  pub read_busy :
      (fd : ℤ) (b : Buf) (w : W)
      → slice b 0 2 ≡ 1 ∷ 0x05 ∷ []
      → let r = bus.sys_read fd b 1 w in
        (r.ret ≡ pos 1)
        × (bit_and (r.buf 0) 0x01 ≡ is_positive (busy w))
        × (mem r.world ≡ mem w)
        × (busy r.world ≡ busy w - 1)
  -- The write enable command 0x06.
  pub enable_write :
      (fd : ℤ) (w : W)
      → let r = bus.sys_write fd (0x06 ∷ []) w in
        (r.0 ≡ pos 1) × (write_enabled r.1 ≡ true) × (mem r.1 ≡ mem w) × (busy r.1 ≡ busy w)
  -- The write command 0x02, which wants the latch set and clears it.
  pub write_data :
      (fd : ℤ) (bytes items : List ℕ) (w : W)
      → length bytes ≡ addr_len
      → decode bytes + length items ≤ capacity
      → write_enabled w ≡ true
      → busy w ≡ 0
      → let r = bus.sys_write fd (0x02 ∷ (bytes ++ items)) w in
        (r.0 ≡ pos (suc (length (bytes ++ items))))
        × (mem r.1 ≡ store (mem w) (decode bytes) items)
        × (busy r.1 ≤ slack)
  -- Time passes.
  pub sleep_keeps :
      (us : ℕ) (w : W) → (mem (bus.usleep us w) ≡ mem w) × (busy (bus.usleep us w) ≤ busy w)

-- A callback that drives the chip select line does nothing to what the chip holds.
module _ {W : Type 0} {bus : Bus W} {addr_len capacity slack : ℕ}
    (c : MemoryChip bus addr_len capacity slack) where
  abbrev pub Quiet : Option (W → W) → Type 0
  Quiet none = Unit
  Quiet (some f) =
      (w : W)
      → (c.mem (f w) ≡ c.mem w)
        × (c.write_enabled (f w) ≡ c.write_enabled w)
        × (c.busy (f w) ≡ c.busy w)

-- The address bytes of a class stand for the address, below its capacity.
pub record Encodes (addr_bytes : ℕ → List ℕ) (addr_len capacity : ℕ) : Type 0 where
  pub width : (addr : ℕ) → length (addr_bytes addr) ≡ addr_len
  pub value : (addr : ℕ) → addr < capacity → decode (addr_bytes addr) ≡ addr

-- The bytes of the address stand for it, for both widths.
pub Encodes-addr_bytes3 : (capacity : ℕ) → capacity ≤ 2 ^ 24 → Encodes addr_bytes3 3 capacity
Encodes-addr_bytes3 capacity h = record { width = λ a. refl; value = λ a p. omega arith }

pub Encodes-addr_bytes2 : (capacity : ℕ) → capacity ≤ 2 ^ 16 → Encodes addr_bytes2 2 capacity
Encodes-addr_bytes2 capacity h = record { width = λ a. refl; value = λ a p. omega arith }
