-- ===== src/Entry.antt =====
-- eos_lib/eos_lib/eos_lib.cpp, which maps the windows that a processor has, and
-- eos_lib/eos_lib/eos_get_gid.cpp, which reads the number of the slot on the MPC8308.
pub mod Windows
pub mod Gid
mod Tests
use libeos.Prelude.{ℕ, ◌%◌, ◌^◌, ℤ, pos, minus_one, is_minus_one, Option, none, some, if◌then◌else◌}
use libeos.Mmap.{MmapUnit, Process, Os, Board, eos_mmap_init, eos_mmap_exit}
use libeos.Mmap.Registers.{eos_cpu_mmap_init, eos_core_cpld_mmap_init}
use libeos.Gpio.Banks.Window.{GpioBoard, eos_gpio_mmap_init}

-- if(ret == -1) { return ret; }, with what is called behind it.
abbrev pub unless_failed :
    {W : Type 0} → (Process W → ℤ × Process W) → ℤ × Process W → ℤ × Process W
unless_failed next (ret, p) = if is_minus_one ret then (ret, p) else next p

module _ {W : Type 0} (os : Os W) where
  module _ (board : Board) where
    -- The P204X, the P2020 and the P1020.
    unfoldable pub eos_lib_init_p : Process W → ℤ × Process W
    eos_lib_init_p p =
        unless_failed (eos_core_cpld_mmap_init os board) (eos_cpu_mmap_init os board p)

    -- Both kinds of the MPC8308. The text stands for the MPC8548 too, where eos_mmap.cpp does not
    -- compile eos_cpu_mmap_init.
    unfoldable pub eos_lib_init_mpc : Process W → ℤ × Process W
    eos_lib_init_mpc p = eos_cpu_mmap_init os board p

    module _ (pins : GpioBoard) where
      unfoldable pub eos_lib_init_ls1021 : Process W → ℤ × Process W
      eos_lib_init_ls1021 p =
          unless_failed (eos_core_cpld_mmap_init os board) (eos_gpio_mmap_init os pins p)

      unfoldable pub eos_lib_init_t104x : Process W → ℤ × Process W
      eos_lib_init_t104x p =
          unless_failed (eos_core_cpld_mmap_init os board)
            (unless_failed (eos_cpu_mmap_init os board) (eos_gpio_mmap_init os pins p))

  -- id = *(unsigned char *)(cs2_mmap->virt_mmapbase), or nothing where the pointer is NULL.
  abbrev pub id_at : Option ℕ → Process W → Option ℕ
  id_at none p = none
  id_at (some base) p = some (p.mem base % 2 ^ 8)

  -- From the byte at the base on.
  abbrev pub with_id : Option ℕ → MmapUnit → Process W → Option (ℤ × ℕ × Process W)
  with_id none u p = none
  with_id (some id) u p = let (ret, left, q) = eos_mmap_exit os (some u) p in some (pos 0, id, q)

  abbrev pub with_cs2 : (value : ℕ) → Option MmapUnit → Process W → Option (ℤ × ℕ × Process W)
  with_cs2 value none p = some (minus_one, value, p)
  with_cs2 value (some u) p = with_id (id_at u.virt_mmapbase p) u p

  -- `value` is what *value holds before; `none` stands for a NULL pointer that is followed.
  unfoldable pub eos_get_gid : (localbus_cs2 value : ℕ) → Process W → Option (ℤ × ℕ × Process W)
  eos_get_gid localbus_cs2 value p =
      let (cs2_mmap, q) = eos_mmap_init os 0x10_0000 localbus_cs2 8 none p in
      with_cs2 value cs2_mmap q
