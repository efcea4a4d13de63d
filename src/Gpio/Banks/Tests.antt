-- ===== src/Gpio/Banks/Tests.antt =====
-- The theorems on the pins of the T104X at concrete inputs.
use libeos.Prelude.{◌<◌, ◌+◌, ◌*◌, ◌^◌, minus_one, ◌%◌, ◌/◌, ℕ, List, ◌≡◌, [], ◌∷◌, arith}
use libeos.Gpio.Ls1021
use libeos.Gpio.Banks.Setting.{IsVariant}
use libeos.Prelude.Method.{ok}
use libeos.Mmap.Cells.{gpio_words}
use libeos.Gpio.Refinement.{Command, set_direction, set_status, replay}
use libeos.Gpio.Sample.{all_off, shifter, system, t104x}
use libeos.Gpio.Banks.Refinement.{run, pin_at, run_implements_pins}
use libeos.Gpio.Banks.{eos_get_gpio_direction, eos_get_gpio_status}
use libeos.Gpio.Banks.Sample.{
  gpio_registers, variant, variant-IsVariant, ready_window, gpio-IsWindow, started, started-Shows,
}

abbrev commands : List Command
commands = set_direction 40 1 ∷ set_status 40 1 ∷ set_status 127 1 ∷ set_status 40 0 ∷ []

run_implements_pins_example :
    let t = run shifter variant (gpio_words system t104x) ready_window commands started in
    ((eos_get_gpio_direction shifter variant (gpio_words system t104x) ready_window 40 t).0 ≡ ok 1)
    × ((eos_get_gpio_status shifter variant (gpio_words system t104x) ready_window 40 t).0 ≡ ok 0)
    × (pin_at shifter variant variant-IsVariant gpio_registers ready_window gpio-IsWindow 0x18 40 t
        ≡ 0)
unfolding replay
run_implements_pins_example =
    run_implements_pins shifter variant variant-IsVariant gpio_registers ready_window gpio-IsWindow
      commands all_off started 40 ground arith started-Shows (omega arith)

-- The bytes of a word, the other way round.
swap_bytes : ℕ → ℕ
swap_bytes v =
    v % 0x100 * 0x100_0000
    + v / 0x100 % 0x100 * 0x1_0000
    + v / 0x1_0000 % 0x100 * 0x100
    + v / 0x100_0000

swap_bytes-swap_bytes : (v : ℕ) → v < 2 ^ 32 → swap_bytes (swap_bytes v) ≡ v
unfolding swap_bytes
swap_bytes-swap_bytes v p = omega arith

swap_bytes-lt : (v : ℕ) → v < 2 ^ 32 → swap_bytes v < 2 ^ 32
unfolding swap_bytes
swap_bytes-lt v p = omega arith

swapping-IsVariant : IsVariant (Ls1021.variant swap_bytes swap_bytes minus_one)
swapping-IsVariant =
    Ls1021.variant-IsVariant swap_bytes swap_bytes minus_one swap_bytes-swap_bytes swap_bytes-lt
      swap_bytes-lt
