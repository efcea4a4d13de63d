-- ===== src/Gpio/T104x.antt =====
-- The pins of the T104X, eos_lib/eos_lib/eos_cpu_gpio.cpp from line 649 on: the code of
-- Gpio/Banks.antt over its window, in banks that are 0x1000 bytes apart, and no byte is swapped.
use libeos.Prelude.{ℕ, ◌+◌, refl, inl, ℤ}
use libeos.Prelude.Method.{Method}
use libeos.Mmap.{Process, Os, Board}
use libeos.Mmap.Cells.{gpio_words}
use libeos.Gpio.{Shifter}
use libeos.Gpio.Banks
use libeos.Gpio.Banks.Window
use libeos.Gpio.Banks.Setting.{IsVariant}

-- `fallen` is what a caller of eos_set_gpio_direction finds, which ends without a `return`.
abbrev pub variant : (fallen : ℤ) → Banks.Variant
variant fallen = record {
  bank_step = 0x1000;
  from_device = λ v. v;
  to_device = λ v. v;
  fallen = fallen;
}

-- GPIO_BASEADDR is CPU_CCSR_BASE_ADDR + 0x130000.
abbrev pub gpio_board : Board → Window.GpioBoard
gpio_board board = record {
  gpio_memlen = 0x4000;
  gpio_baseaddr = board.cpu_ccsr_base_addr + 0x13_0000;
  gpio_bitlen = 32;
}

module _ (shifter : Shifter) (fallen : ℤ) {W : Type 0} (os : Os W) (board : Board) where
  unfoldable pub eos_gpio_mmap_init : Process W → ℤ × Process W
  eos_gpio_mmap_init p = Window.eos_gpio_mmap_init os (gpio_board board) p

  unfoldable pub eos_gpio_mmap_exit : Process W → ℤ × Process W
  eos_gpio_mmap_exit p = Window.eos_gpio_mmap_exit os (gpio_board board) p

  abbrev pub prepare : Process W → Process W
  prepare = Window.prepare os (gpio_board board)

  unfoldable pub eos_set_gpio_direction : (gpio_num direction : ℕ) → Method (Process W) ℤ
  eos_set_gpio_direction =
      Banks.eos_set_gpio_direction shifter (variant fallen) (gpio_words os board) prepare

  unfoldable pub eos_get_gpio_direction : (gpio_num : ℕ) → Method (Process W) ℕ
  eos_get_gpio_direction =
      Banks.eos_get_gpio_direction shifter (variant fallen) (gpio_words os board) prepare

  unfoldable pub eos_set_gpio_status : (gpio_num status : ℕ) → Method (Process W) ℤ
  eos_set_gpio_status =
      Banks.eos_set_gpio_status shifter (variant fallen) (gpio_words os board) prepare

  unfoldable pub eos_get_gpio_status : (gpio_num : ℕ) → Method (Process W) ℕ
  eos_get_gpio_status =
      Banks.eos_get_gpio_status shifter (variant fallen) (gpio_words os board) prepare

pub variant-IsVariant : (fallen : ℤ) → IsVariant (variant fallen)
variant-IsVariant fallen = record {
  steps = inl refl;
  from-to = λ v p. refl;
  to-lt = λ v p. p;
  from-lt = λ v p. p;
}
