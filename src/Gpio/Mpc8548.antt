-- ===== src/Gpio/Mpc8548.antt =====
-- The pins of the MPC8548 (0 to 15 and 24 to 31), eos_lib/eos_lib/eos_cpu_gpio.cpp. Directions are
-- those of groups of pins, by the bits of the register CPU_CCSR_GPIOCR_OFFSET; outputs and inputs
-- have a register each.
pub mod Output
pub mod Direction
use Prim.Native.Nat.{bit_and, bit_or}
use libeos.Prelude.{
  ℕ, ◌+◌, ◌-◌, ◌*◌, ◌/◌, ◌%◌, ◌^◌, ℤ, pos, minus_one, Bool, not, ◌&&◌, ◌||◌, ltb, ◌==◌,
  if◌then◌else◌,
}
use libeos.Prelude.Method.{Method, pure, return_int, crash, ◌>>=◌, ◌>>◌}
use libeos.Prelude.Words.{Words}
use libeos.Gpio.{Shifter, is_no_bit, shl, load, save}

-- ((gpio_num > 15) && (gpio_num < 24)) || (gpio_num > 31)
abbrev pub is_no_pin : ℕ → Bool
is_no_pin gpio_num = (ltb 15 gpio_num && ltb gpio_num 24) || ltb 31 gpio_num

-- `read_temp_value`, where `is_zero` is the test 0 == direction.
unfoldable pub group_bit : (is_zero : Bool) (gpio_num : ℕ) → ℕ
group_bit is_zero gpio_num =
    if is_zero
    then if ltb gpio_num 8
      then 0x0100_0000
      else if ltb gpio_num 16
      then 0x0001_0000
      else 0x0000_0400
    else if ltb gpio_num 8
    then 0x0400_0000
    else if ltb gpio_num 16
    then 0x0004_0000
    else 0x0000_0400

-- 32 - gpio_num - 1
abbrev pub pin_shift : ℕ → ℕ
pin_shift gpio_num = 32 - gpio_num - 1

module _ (shifter : Shifter) {S : Type 0} (w : Words S)
    (gpiocr_offset gpoutdr_offset gpindr_offset : ℕ) where
  unfoldable pub eos_set_gpio_direction : (gpio_num direction : ℕ) → Method S ℤ
  unfolding load save group_bit
  eos_set_gpio_direction gpio_num direction =
      if is_no_bit direction
      then return_int minus_one
      else if is_no_pin gpio_num
      then return_int minus_one
      else do
        cpu_reg_value ← load shifter w gpiocr_offset
        save shifter w gpiocr_offset (bit_or cpu_reg_value (group_bit (direction == 0) gpio_num))
        pure (pos 0)

  -- The value is what `*direction` is set to where 0 is returned; `is_null` says that the pointer
  -- `direction` is NULL, which is what the code tests in place of the value.
  unfoldable pub eos_get_gpio_direction : (gpio_num : ℕ) (is_null : Bool) → Method S ℕ
  unfolding load group_bit
  eos_get_gpio_direction gpio_num is_null = if is_no_pin gpio_num then return_int minus_one else do
    cpu_reg_value ← load shifter w gpiocr_offset
    let found = bit_and cpu_reg_value (group_bit is_null gpio_num)
    if found == 0 then return_int minus_one else if is_null then crash else pure 0x1

  unfoldable pub eos_set_gpio_status : (gpio_num status : ℕ) → Method S ℤ
  unfolding load save
  eos_set_gpio_status gpio_num status =
      if is_no_bit status
      then return_int minus_one
      else if is_no_pin gpio_num
      then return_int minus_one
      else do
        cpu_reg_value ← load shifter w gpoutdr_offset
        save shifter w gpoutdr_offset
            (bit_or cpu_reg_value (shl shifter status (pin_shift gpio_num)))
        pure (pos 0)

  unfoldable pub eos_get_gpio_status : (gpio_num : ℕ) → Method S ℕ
  unfolding load
  eos_get_gpio_status gpio_num = if is_no_pin gpio_num then return_int minus_one else do
    cpu_reg_value ← load shifter w gpindr_offset
    pure (if bit_and cpu_reg_value (shl shifter 1 (pin_shift gpio_num)) == 0 then 0 else 1)
