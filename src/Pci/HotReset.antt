-- ===== src/Pci/HotReset.antt =====
-- eos_lib/eos_lib/eos_p204x_pci_hot_reset.cpp, over the processor's registers as words.
pub mod Pulse
use Prim.Native.Nat.{bit_and, bit_or}
use libeos.Prelude.{ℕ, ◌+◌, ◌-◌, ◌%◌, ◌^◌, ℤ, pos, minus_one, ltb, ◌==◌, if◌then◌else◌}
use libeos.Prelude.Method.{Ending, Method, pure, return_int, modify, ◌>>=◌, ◌>>◌}
use libeos.Prelude.Words.{Words, reg_read, reg_write}

-- HOT_RESET_OFFSET behind the base of controller `num`
abbrev pub pcie_reset_addr : (num : ℕ) → ℕ
pcie_reset_addr num =
    if num == 0
    then 0x20_0000 + 0xf00
    else if num == 1
    then 0x20_1000 + 0xf00
    else 0x20_2000 + 0xf00

-- `usleep` is what a pause does to the state.
module _ {S : Type 0} (w : Words S) (usleep : ℕ → S → S) where
  -- `num` is unsigned. What the accesses return is not looked at.
  unfoldable pub eos_p204x_pcie_hot_reset : (num : ℕ) → Method S ℤ
  eos_p204x_pcie_hot_reset num = if ltb 2 num then return_int minus_one else (do
    r ← reg_read w (pcie_reset_addr num) 0
    reg_write w (pcie_reset_addr num) (bit_or r.1 (2 ^ 27))
    modify (usleep 50)
    reg_write w (pcie_reset_addr num) (bit_and (bit_or r.1 (2 ^ 27)) (2 ^ 32 - 1 - 2 ^ 27))
    pure (pos 0))

  -- The number of a controller counts from 1; it is the `int` modulo 2^32.
  unfoldable pub reset_pcie_controller : (contrnum : ℕ) → Method S ℤ
  unfolding eos_p204x_pcie_hot_reset
  reset_pcie_controller contrnum = eos_p204x_pcie_hot_reset ((contrnum + 2 ^ 32 - 1) % 2 ^ 32)
