-- ===== src/Gpio/Banks/Sample.antt =====
-- The window on the pins of the T104X, for the tests.
use libeos.Prelude.{
  ltb, if◌then◌else◌, ◌%◌, ◌/◌, bit-ones, pos, minus_one, ◌-◌, ◌∙◌, bit, bit-zero, slice, ℕ, ◌≤◌,
  ◌≡◌, refl, ◌^◌, ap, arith,
}
use libeos.Prelude.Words.{IsRegisters}
use libeos.Mmap.{Process}
use libeos.Mmap.Cells.{gpio_words}
use libeos.Mmap.Cells.Implement.{registers}
use libeos.Mmap.Cells.Digits.{to_number, stores_low_first}
use libeos.Gpio.Sample.{all_off, shifter, system, t104x, start}
use libeos.Gpio.Banks.Refinement.{Shows}
use libeos.Gpio.Banks.Places.{place}
use libeos.Gpio.Banks.{Variant, pin_addr}
use libeos.Gpio.Banks.Setting.{IsVariant, IsWindow}
use libeos.Gpio.Banks.Window.{prepare}
use libeos.Gpio.Banks.Mapped
use libeos.Gpio.T104x

-- Its functions, where the result of a function without a `return` is -1.
abbrev pub variant : Variant
variant = T104x.variant minus_one

pub variant-IsVariant : IsVariant variant
variant-IsVariant = T104x.variant-IsVariant minus_one

abbrev pub gpio_registers : IsRegisters (gpio_words system t104x) (2 ^ 32)
gpio_registers =
    Mapped.gpio_registers system (stores_low_first system) t104x (T104x.gpio_board t104x) (pos 3)
      0x1000 (λ e. omega (arith, e)) (omega arith)

abbrev pub ready_window : Process ℕ → Process ℕ
ready_window = prepare system (T104x.gpio_board t104x)

pub gpio-IsWindow : IsWindow variant gpio_registers ready_window
gpio-IsWindow =
    Mapped.gpio-IsWindow system (stores_low_first system) t104x (T104x.gpio_board t104x) (pos 3)
      0x1000 (λ e. omega (arith, e)) (omega arith) variant (omega arith)

-- Every input register at 0x18 has all its bits, the others before it have none.
abbrev pub started : Process ℕ
started = record start { mem = λ j. if ltb (j % 0x1000) 0x18 then 0 else 255 }

pub gpio-Ready : gpio_registers.Ready started
unfolding registers
gpio-Ready = refl

pub gpio-none : (a : ℕ) → a % 0x400 ≤ 5 → gpio_registers.cell a started ≡ 0
unfolding registers to_number slice
gpio-none a p = ground arith

pub gpio-all : (a : ℕ) → a % 0x400 ≡ 6 → gpio_registers.cell a started ≡ 2 ^ 32 - 1
unfolding registers to_number slice
gpio-all a p = ground arith

pub place-offset : (o m : ℕ) → o ≤ 0x18 → place shifter variant o m % 0x400 ≡ o / 4
unfolding pin_addr
place-offset o m p = ground arith

pub started-Shows :
    Shows shifter variant variant-IsVariant gpio_registers ready_window gpio-IsWindow all_off
      started
started-Shows = record {
  ready = gpio-Ready;
  directions = λ m p.
      ap (bit (31 - m % 32))
        (gpio-none (place shifter variant 0 m) (omega (arith, place-offset 0 m (omega arith))))
      ∙ bit-zero (31 - m % 32);
  opposites = λ m p.
      ap (bit (31 - m % 32))
        (gpio-all (place shifter variant 0x18 m) (place-offset 0x18 m (omega arith)))
      ∙ bit-ones 32 (31 - m % 32) (omega arith);
  statuses = λ m p.
      ap (bit (31 - m % 32))
        (gpio-none (place shifter variant 0x8 m) (omega (arith, place-offset 0x8 m (omega arith))))
      ∙ bit-zero (31 - m % 32);
}
