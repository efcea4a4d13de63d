-- ===== src/Gpio.antt =====
-- The general purpose pins, eos_lib/eos_lib/eos_cpu_gpio.cpp. This module has the text for the
-- P204X, P2020, P1020 and MPC8308; Mpc8548 that for the MPC8548, and Banks the one that the LS1021
-- and the T104X share.
pub mod Pins
pub mod Settings
pub mod Refinement
pub mod Mpc8548
pub mod Sample
mod Tests
pub mod Banks
pub mod Drivers
pub mod Ls1021
pub mod T104x
use Prim.Native.Nat.{bit_and, bit_or}
use libeos.Prelude.{
  ℕ, ◌+◌, ◌-◌, ◌*◌, ◌/◌, ◌%◌, ◌^◌, ℤ, pos, minus_one, Bool, not, ◌&&◌, ltb, ◌==◌, if◌then◌else◌,
}
use libeos.Prelude.Method.{Method, pure, return_int, check, ◌>>=◌, ◌>>◌}
use libeos.Prelude.Words.{Words, reg_read, reg_write}

-- What the compiled code gives for a shift whose count is not below 32, which C leaves undefined.
pub record Shifter : Type 0 where
  pub wide_shl : (value count : ℕ) → ℕ
  pub wide_shr : (value count : ℕ) → ℕ

-- (1 != direction) && (0 != direction)
abbrev pub is_no_bit : ℕ → Bool
is_no_bit n = not (n == 1) && not (n == 0)

module _ (shifter : Shifter) where
  -- value << count and value >> count, of 32 bits
  abbrev pub shl : (value count : ℕ) → ℕ
  shl value count =
      if ltb count 32 then value * 2 ^ count % 2 ^ 32 else shifter.wide_shl value count

  abbrev pub shr : (value count : ℕ) → ℕ
  shr value count = if ltb count 32 then value / 2 ^ count else shifter.wide_shr value count

  -- 31 - gpio_num, in `unsigned int`
  abbrev pub pin_count : ℕ → ℕ
  pin_count gpio_num = (31 + 2 ^ 32 - gpio_num) % 2 ^ 32

  -- cpu_reg_value |= (1 << (31 - gpio_num)) or cpu_reg_value &= ~(1 << (31 - gpio_num))
  unfoldable pub put_pin : (gpio_num value cpu_reg_value : ℕ) → ℕ
  put_pin gpio_num value cpu_reg_value =
      if value == 1
      then bit_or cpu_reg_value (shl 1 (pin_count gpio_num))
      else bit_and cpu_reg_value (2 ^ 32 - 1 - shl 1 (pin_count gpio_num))

  -- (cpu_reg_value >> (31 - gpio_num)) & 0x1, as 1 or 0
  unfoldable pub get_pin : (gpio_num cpu_reg_value : ℕ) → ℕ
  get_pin gpio_num cpu_reg_value =
      if bit_and (shr cpu_reg_value (pin_count gpio_num)) 0x1 == 0 then 0 else 1

  module _ {S : Type 0} (w : Words S) where
    -- eos_cpu_reg_read(offset, &cpu_reg_value, 1), with cpu_reg_value = 0, and the test for -1
    unfoldable pub load : ℕ → Method S ℕ
    load offset = do r ← reg_read w offset 0; check r.0; pure r.1

    unfoldable pub save : ℕ → ℕ → Method S (Unit {0})
    save offset cpu_reg_value = do check (← reg_write w offset cpu_reg_value)

    -- The text of both set functions.
    unfoldable pub change_pin : (offset gpio_num value : ℕ) → Method S ℤ
    unfolding load save put_pin
    change_pin offset gpio_num value = if is_no_bit value then return_int minus_one else do
      cpu_reg_value ← load offset
      save offset (put_pin gpio_num value cpu_reg_value)
      pure (pos 0)

    -- CPU_CCSR_GPIODIR_OFFSET and CPU_CCSR_GPIODAT_OFFSET are macros of the processor.
    module _ (gpiodir_offset gpiodat_offset : ℕ) where
      unfoldable pub eos_set_gpio_direction : (gpio_num direction : ℕ) → Method S ℤ
      unfolding change_pin
      eos_set_gpio_direction gpio_num direction = change_pin gpiodir_offset gpio_num direction

      -- The value is what `*direction` is set to where 0 is returned.
      unfoldable pub eos_get_gpio_direction : (gpio_num : ℕ) → Method S ℕ
      unfolding load get_pin
      eos_get_gpio_direction gpio_num = do
        cpu_reg_value ← load gpiodir_offset
        let direction = get_pin gpio_num cpu_reg_value
        if is_no_bit direction then return_int minus_one else pure direction

      unfoldable pub eos_set_gpio_status : (gpio_num status : ℕ) → Method S ℤ
      unfolding change_pin
      eos_set_gpio_status gpio_num status = change_pin gpiodat_offset gpio_num status

      unfoldable pub eos_get_gpio_status : (gpio_num : ℕ) → Method S ℕ
      unfolding load get_pin
      eos_get_gpio_status gpio_num = do
        cpu_reg_value ← load gpiodat_offset
        pure (get_pin gpio_num cpu_reg_value)
