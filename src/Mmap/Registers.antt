-- ===== src/Mmap/Registers.antt =====
-- The two windows of the library itself, in eos_lib/eos_lib/eos_mmap.cpp: the processor's registers
-- and the board's CPLD. A read or a write makes the window first if there is none.
--
-- The result of a function is `none` where it follows a NULL pointer.
pub mod Access
use libeos.Prelude.{ℕ, zero, suc, ℤ, pos, negsuc, minus_one, Option, none, some, Buf}
use libeos.Mmap.{
  MmapUnit, Process, Os, Board, eos_mmap_init, eos_mmap_exit, eos_mmap_read, eos_mmap_write,
}

-- 0 for a unit, -1 for NULL
abbrev pub made : Option MmapUnit → ℤ
made none = minus_one
made (some u) = pos 0

-- `0 != ret`
abbrev pub zero_or_minus_one : ℤ → ℤ
zero_or_minus_one (pos zero) = pos 0
zero_or_minus_one (pos (suc n)) = minus_one
zero_or_minus_one (negsuc n) = minus_one

module _ {W : Type 0} (os : Os W) (board : Board) where
  -- eos_mmap_read and eos_mmap_write at a pointer that may be NULL
  abbrev pub read_at :
      Option MmapUnit
      → (offset : ℕ) → Option Buf
      → (len : ℕ) → Process W
      → Option (ℤ × Option Buf × Process W)
  read_at none offset items len p = none
  read_at (some u) offset items len p = some (eos_mmap_read os board u offset items len p)

  abbrev pub write_at :
      Option MmapUnit → (offset : ℕ) → Option Buf → (len : ℕ) → Process W → Option (ℤ × Process W)
  write_at none offset items len p = none
  write_at (some u) offset items len p = some (eos_mmap_write os board u offset items len p)

  unfoldable pub eos_cpu_mmap_init : Process W → ℤ × Process W
  eos_cpu_mmap_init p =
      let (u, q) =
        eos_mmap_init os board.cpu_ccsr_mem_len board.cpu_ccsr_base_addr board.cpu_ccsr_bits_len
          none p in
      (made u, record q { cpu_mmap = u })

  unfoldable pub eos_cpu_mmap_exit : Process W → ℤ × Process W
  eos_cpu_mmap_exit p =
      let (ret, u, q) = eos_mmap_exit os p.cpu_mmap p in
      (zero_or_minus_one ret, record q { cpu_mmap = u })

  -- if(cpu_mmap == NULL) { eos_cpu_mmap_init(); }
  unfoldable pub with_cpu_mmap : Option MmapUnit → Process W → Process W
  unfolding eos_cpu_mmap_init
  with_cpu_mmap none p = (eos_cpu_mmap_init p).1
  with_cpu_mmap (some u) p = p

  unfoldable pub eos_cpu_reg_read :
      (addr : ℕ) → Option Buf → (len : ℕ) → Process W → Option (ℤ × Option Buf × Process W)
  unfolding with_cpu_mmap
  eos_cpu_reg_read addr items len p =
      let q = with_cpu_mmap p.cpu_mmap p in read_at q.cpu_mmap addr items len q

  unfoldable pub eos_cpu_reg_write :
      (addr : ℕ) → Option Buf → (len : ℕ) → Process W → Option (ℤ × Process W)
  unfolding with_cpu_mmap
  eos_cpu_reg_write addr items len p =
      let q = with_cpu_mmap p.cpu_mmap p in write_at q.cpu_mmap addr items len q

  unfoldable pub eos_core_cpld_mmap_init : Process W → ℤ × Process W
  eos_core_cpld_mmap_init p =
      let (u, q) =
        eos_mmap_init os board.core_cpld_addr_len board.core_cpld_base_addr board.core_cpld_bits_len
          none p in
      (made u, record q { core_cpld_mmap = u })

  unfoldable pub eos_core_cpld_mmap_exit : Process W → ℤ × Process W
  eos_core_cpld_mmap_exit p =
      let (ret, u, q) = eos_mmap_exit os p.core_cpld_mmap p in
      (zero_or_minus_one ret, record q { core_cpld_mmap = u })

  unfoldable pub with_core_cpld_mmap : Option MmapUnit → Process W → Process W
  unfolding eos_core_cpld_mmap_init
  with_core_cpld_mmap none p = (eos_core_cpld_mmap_init p).1
  with_core_cpld_mmap (some u) p = p

  unfoldable pub eos_core_cpld_read :
      (regaddr : ℕ) → Option Buf → (len : ℕ) → Process W → Option (ℤ × Option Buf × Process W)
  unfolding with_core_cpld_mmap
  eos_core_cpld_read regaddr items len p =
      let q = with_core_cpld_mmap p.core_cpld_mmap p in read_at q.core_cpld_mmap regaddr items len q

  unfoldable pub eos_core_cpld_write :
      (regaddr : ℕ) → Option Buf → (len : ℕ) → Process W → Option (ℤ × Process W)
  unfolding with_core_cpld_mmap
  eos_core_cpld_write regaddr items len p =
      let q = with_core_cpld_mmap p.core_cpld_mmap p in
      write_at q.core_cpld_mmap regaddr items len q
