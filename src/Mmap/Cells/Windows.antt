-- ===== src/Mmap/Cells/Windows.antt =====
-- The three windows of the library: the processor's registers, the CPLD and the pins.
use libeos.Prelude.{ℕ, ◌*◌, ◌^◌, ◌≤◌, ◌<◌, ◌≡◌, ◌≢◌, ap, ◌∙◌, false, Option, some, Buf, arith}
use libeos.Mmap.{MmapUnit, Process, Os, Board, too_long, eos_mmap_read, eos_mmap_write}
use libeos.Mmap.Registers.{
  read_at, write_at, with_core_cpld_mmap, eos_cpu_reg_read, eos_cpu_reg_write, eos_core_cpld_read,
  eos_core_cpld_write,
}
use libeos.Mmap.Registers.Access.{OnRegisters, short_addr, read_there, write_there}
use libeos.Mmap.Cells.Implement.{Reaches}

-- A window that is not on the processor's registers, of cells of `bits` bits.
pub record OnDevice (board : Board) (u : MmapUnit) (base bits : ℕ) : Type 0 where
  pub is_mapped : u.virt_mmapbase ≡ some base
  pub of_device : u.phy_mmapbase ≢ board.cpu_ccsr_base_addr
  pub of_bits : u.bits_len ≡ bits
  pub small : u.lenth < 2 ^ 32

module _ {W : Type 0} (os : Os W) (board : Board) (u : MmapUnit) (base : ℕ) where
  abbrev pub cpu_reaches :
      OnRegisters board u base
      → Reaches os board u base (eos_cpu_reg_read os board) (eos_cpu_reg_write os board)
  cpu_reaches o = record {
    Ready = λ p. p.cpu_mmap ≡ some u;
    Valid = λ a. a ≤ u.lenth;
    mapped = o.is_mapped;
    short = λ a valid. short_addr os board u base a o valid;
    read_there = λ a items p. read_there os board u a 1 items p;
    write_there = λ a items p. write_there os board u a 1 items p;
    still = λ f p ready. ready;
  }

  pub short_cpld : (a : ℕ) → OnDevice board u base 8 → a ≤ u.lenth → too_long board u a ≡ false
  unfolding too_long
  short_cpld a o valid = let e = o.of_bits in let f = o.of_device in let g = o.small in ground arith

  pub short_gpio : (a : ℕ) → OnDevice board u base 32 → 4 * a ≤ u.lenth → too_long board u a ≡ false
  unfolding too_long
  short_gpio a o valid = let e = o.of_bits in let f = o.of_device in let g = o.small in ground arith

  pub cpld_read_there :
      (a : ℕ) (items : Option Buf) (p : Process W)
      → p.core_cpld_mmap ≡ some u
      → eos_core_cpld_read os board a items 1 p ≡ some (eos_mmap_read os board u a items 1 p)
  unfolding eos_core_cpld_read with_core_cpld_mmap
  cpld_read_there a items p there =
      ap (λ q. read_at os board q.core_cpld_mmap a items 1 q)
        (ap (λ o. with_core_cpld_mmap os board o p) there)
      ∙ ap (λ o. read_at os board o a items 1 p) there

  pub cpld_write_there :
      (a : ℕ) (items : Option Buf) (p : Process W)
      → p.core_cpld_mmap ≡ some u
      → eos_core_cpld_write os board a items 1 p ≡ some (eos_mmap_write os board u a items 1 p)
  unfolding eos_core_cpld_write with_core_cpld_mmap
  cpld_write_there a items p there =
      ap (λ q. write_at os board q.core_cpld_mmap a items 1 q)
        (ap (λ o. with_core_cpld_mmap os board o p) there)
      ∙ ap (λ o. write_at os board o a items 1 p) there

  abbrev pub cpld_reaches :
      OnDevice board u base 8
      → Reaches os board u base (eos_core_cpld_read os board) (eos_core_cpld_write os board)
  cpld_reaches o = record {
    Ready = λ p. p.core_cpld_mmap ≡ some u;
    Valid = λ a. a ≤ u.lenth;
    mapped = o.is_mapped;
    short = λ a valid. short_cpld a o valid;
    read_there = cpld_read_there;
    write_there = cpld_write_there;
    still = λ f p ready. ready;
  }

  abbrev pub gpio_reaches :
      OnDevice board u base 32
      → Reaches os board u base
          (λ addr items len p. read_at os board p.gpio_mmap addr items len p)
          (λ addr items len p. write_at os board p.gpio_mmap addr items len p)
  gpio_reaches o = record {
    Ready = λ p. p.gpio_mmap ≡ some u;
    Valid = λ a. 4 * a ≤ u.lenth;
    mapped = o.is_mapped;
    short = λ a valid. short_gpio a o valid;
    read_there = λ a items p there. ap (λ o'. read_at os board o' a items 1 p) there;
    write_there = λ a items p there. ap (λ o'. write_at os board o' a items 1 p) there;
    still = λ f p ready. ready;
  }
