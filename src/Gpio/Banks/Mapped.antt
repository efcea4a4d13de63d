-- ===== src/Gpio/Banks/Mapped.antt =====
-- The window on the pins, once it is mapped, has the laws that the pins' functions rely on.
use libeos.Prelude.{
  ℕ, ◌+◌, ◌*◌, ◌^◌, ◌≤◌, ◌<◌, ◌≢◌, inl, inr, refl, ap, ℤ, Bool-cases, ltb, some, arith,
}
use libeos.Prelude.Words.{IsRegisters}
use libeos.Mmap.{MmapUnit, Os, Board}
use libeos.Mmap.Cells.{gpio_words, StoresNumbers}
use libeos.Mmap.Cells.Implement.{registers}
use libeos.Mmap.Cells.Windows.{OnDevice, gpio_reaches}
use libeos.Gpio.Banks.{Variant}
use libeos.Gpio.Banks.Setting.{IsWindow}
use libeos.Gpio.Banks.Window.{GpioBoard, with_gpio_mmap, prepare}

-- What eos_gpio_mmap_init leaves in `gpio_mmap`, where GPIO_BITLEN is 32.
abbrev pub window : GpioBoard → (fd : ℤ) (base : ℕ) → MmapUnit
window gpio fd base = record {
  fd = fd;
  lenth = gpio.gpio_memlen;
  bits_len = 32;
  phy_mmapbase = gpio.gpio_baseaddr;
  virt_mmapbase = some base;
}

module _ {W : Type 0} (os : Os W) (numbers : StoresNumbers os) (board : Board) (gpio : GpioBoard)
    (fd : ℤ) (base : ℕ) (own : gpio.gpio_baseaddr ≢ board.cpu_ccsr_base_addr)
    (short : gpio.gpio_memlen < 2 ^ 32) where
  abbrev pub window-OnDevice : OnDevice board (window gpio fd base) base 32
  window-OnDevice = record { is_mapped = refl; of_device = own; of_bits = refl; small = short }

  abbrev pub gpio_registers : IsRegisters (gpio_words os board) (2 ^ 32)
  gpio_registers =
      registers os numbers board (window gpio fd base) base
        (gpio_reaches os board (window gpio fd base) base window-OnDevice)

  -- A window that has the four banks.
  pub gpio-IsWindow :
      (variant : Variant)
      → 3 * variant.bank_step + 0x18 ≤ gpio.gpio_memlen
      → IsWindow variant gpio_registers (prepare os gpio)
  unfolding registers with_gpio_mmap
  gpio-IsWindow variant holds = record {
    valid = λ a p. omega arith;
    distinct = λ a b p. elim (Bool-cases (ltb a b)) [
      | inl below ↦ inl (ground arith)
      | inr above ↦ inr (ground arith)
    ];
    prepared = λ s ready. ap (λ u. with_gpio_mmap os gpio u s) ready;
  }
