-- ===== src/Gpio/Ls1021.antt =====
-- The pins of the LS1021, eos_lib/eos_lib/eos_cpu_gpio.cpp from line 350 on: the code of
-- Gpio/Banks.antt over its window, in banks that are 0x10000 bytes apart. htonl() and ntohl() are
-- parameters.
use libeos.Prelude.{ℕ, ◌^◌, ◌<◌, ◌≡◌, refl, inr, ℤ}
use libeos.Prelude.Method.{Method}
use libeos.Mmap.{Process, Os, Board}
use libeos.Mmap.Cells.{gpio_words}
use libeos.Gpio.{Shifter}
use libeos.Gpio.Banks
use libeos.Gpio.Banks.Window
use libeos.Gpio.Banks.Setting.{IsVariant}

-- `fallen` is what a caller of eos_set_gpio_direction finds, which ends without a `return`.
abbrev pub variant : (htonl ntohl : ℕ → ℕ) (fallen : ℤ) → Banks.Variant
variant htonl ntohl fallen = record {
  bank_step = 0x1_0000;
  from_device = htonl;
  to_device = ntohl;
  fallen = fallen;
}

abbrev pub gpio_board : Window.GpioBoard
gpio_board = record { gpio_memlen = 0x4_0000; gpio_baseaddr = 0x230_0000; gpio_bitlen = 32 }

module _ (shifter : Shifter) (htonl ntohl : ℕ → ℕ) (fallen : ℤ) {W : Type 0} (os : Os W)
    (board : Board) where
  unfoldable pub eos_gpio_mmap_init : Process W → ℤ × Process W
  eos_gpio_mmap_init p = Window.eos_gpio_mmap_init os gpio_board p

  unfoldable pub eos_gpio_mmap_exit : Process W → ℤ × Process W
  eos_gpio_mmap_exit p = Window.eos_gpio_mmap_exit os gpio_board p

  abbrev pub prepare : Process W → Process W
  prepare = Window.prepare os gpio_board

  unfoldable pub eos_set_gpio_direction : (gpio_num direction : ℕ) → Method (Process W) ℤ
  eos_set_gpio_direction =
      Banks.eos_set_gpio_direction shifter (variant htonl ntohl fallen) (gpio_words os board)
        prepare

  unfoldable pub eos_get_gpio_direction : (gpio_num : ℕ) → Method (Process W) ℕ
  eos_get_gpio_direction =
      Banks.eos_get_gpio_direction shifter (variant htonl ntohl fallen) (gpio_words os board)
        prepare

  unfoldable pub eos_set_gpio_status : (gpio_num status : ℕ) → Method (Process W) ℤ
  eos_set_gpio_status =
      Banks.eos_set_gpio_status shifter (variant htonl ntohl fallen) (gpio_words os board) prepare

  unfoldable pub eos_get_gpio_status : (gpio_num : ℕ) → Method (Process W) ℕ
  eos_get_gpio_status =
      Banks.eos_get_gpio_status shifter (variant htonl ntohl fallen) (gpio_words os board) prepare

-- The two conversions swap the bytes of a word, so that they undo each other.
pub variant-IsVariant :
    (htonl ntohl : ℕ → ℕ) (fallen : ℤ)
    → ((v : ℕ) → v < 2 ^ 32 → htonl (ntohl v) ≡ v)
    → ((v : ℕ) → v < 2 ^ 32 → ntohl v < 2 ^ 32)
    → ((v : ℕ) → v < 2 ^ 32 → htonl v < 2 ^ 32)
    → IsVariant (variant htonl ntohl fallen)
variant-IsVariant htonl ntohl fallen back to from = record {
  steps = inr refl;
  from-to = back;
  to-lt = to;
  from-lt = from;
}
