-- ===== src/Gpio/Banks.antt =====
-- The 128 pins of the LS1021 and the T104X, eos_lib/eos_lib/eos_cpu_gpio.cpp, in four banks of 32:
-- one text, where the two differ in where the banks stand, and in that the LS1021 swaps the bytes of
-- a register.
pub mod Window
pub mod Places
pub mod Setting
pub mod Runs
pub mod Mapped
pub mod Refinement
pub mod Sample
mod Tests
use Prim.Native.Nat.{bit_and, bit_or}
use libeos.Prelude.{
  ℕ, ◌+◌, ◌-◌, ◌*◌, ◌/◌, ◌%◌, ◌^◌, ℤ, pos, minus_one, Bool, not, ◌&&◌, ltb, ◌==◌, if◌then◌else◌,
}
use libeos.Prelude.Method.{Method, pure, return_int, modify, check_neg, ◌>>=◌, ◌>>◌}
use libeos.Prelude.Words.{Words, reg_read, reg_write}
use libeos.Gpio.{Shifter, is_no_bit, shl}

-- A bank begins `bank_step` bytes behind the one before it, 0x10000 or 0x1000. `from_device` and
-- `to_device` are htonl() and ntohl() for the LS1021, and do nothing for the T104X. `fallen` is what
-- a caller finds as the result of a function that ends without a `return`.
pub record Variant : Type 0 where
  pub bank_step : ℕ
  pub from_device : ℕ → ℕ
  pub to_device : ℕ → ℕ
  pub fallen : ℤ

module _ (shifter : Shifter) (variant : Variant) where
  -- The values of `data` and `addr`; the guard leaves no pin above 127.
  unfoldable pub pin_data : ℕ → ℕ
  pin_data gpio_num =
      if ltb gpio_num 32
      then shl shifter 1 (31 - gpio_num)
      else if ltb gpio_num 64
      then shl shifter 1 (63 - gpio_num)
      else if ltb gpio_num 96
      then shl shifter 1 (95 - gpio_num)
      else shl shifter 1 (127 - gpio_num)

  unfoldable pub pin_addr : ℕ → ℕ
  pin_addr gpio_num =
      if ltb gpio_num 32
      then 0
      else if ltb gpio_num 64
      then variant.bank_step
      else if ltb gpio_num 96
      then 2 * variant.bank_step
      else 3 * variant.bank_step

  -- cpu_reg_value &= ~data, or cpu_reg_value |= data
  unfoldable pub put_data : (clear : Bool) (cpu_reg_value data' : ℕ) → ℕ
  put_data clear cpu_reg_value data' =
      if clear then bit_and cpu_reg_value (2 ^ 32 - 1 - data') else bit_or cpu_reg_value data'

  -- `prepare` is if(gpio_mmap == NULL) { eos_gpio_mmap_init(); }
  module _ {S : Type 0} (w : Words S) (prepare : S → S) where
    -- eos_mmap_read(gpio_mmap, offset, &value, 1), the test for an error, and htonl()
    unfoldable pub fetch : ℕ → Method S ℕ
    fetch offset = do r ← reg_read w offset 0; check_neg r.0; pure (variant.from_device r.1)

    -- ntohl(), eos_mmap_write(gpio_mmap, offset, &value, 1), and the test for an error
    unfoldable pub flush : ℕ → ℕ → Method S (Unit {0})
    flush offset value = do check_neg (← reg_write w offset (variant.to_device value))

    unfoldable pub eos_set_gpio_direction : (gpio_num direction : ℕ) → Method S ℤ
    unfolding fetch flush pin_data pin_addr put_data
    eos_set_gpio_direction gpio_num direction =
        if is_no_bit direction
        then return_int minus_one
        else if ltb 127 gpio_num
        then return_int minus_one
        else do
          modify prepare
          cpu_reg_value ← fetch (pin_addr gpio_num / 4)
          cpu_reg_value1 ← fetch ((pin_addr gpio_num + 0x18) / 4)
          let clear = direction == 0
          flush (pin_addr gpio_num / 4) (put_data clear cpu_reg_value (pin_data gpio_num))
          flush ((pin_addr gpio_num + 0x18) / 4)
              (put_data (not clear) cpu_reg_value1 (pin_data gpio_num))
          pure variant.fallen

    -- The text of both get functions, at the offset of the register in its bank. The value is what
    -- is stored through the pointer where 0 is returned.
    unfoldable pub get_at : (offset gpio_num : ℕ) → Method S ℕ
    unfolding fetch pin_data pin_addr
    get_at offset gpio_num = if ltb 127 gpio_num then return_int minus_one else do
      modify prepare
      cpu_reg_value ← fetch ((pin_addr gpio_num + offset) / 4)
      pure (if bit_and (pin_data gpio_num) cpu_reg_value == 0 then 0 else 1)

    unfoldable pub eos_get_gpio_direction : (gpio_num : ℕ) → Method S ℕ
    unfolding get_at
    eos_get_gpio_direction gpio_num = get_at 0 gpio_num

    -- The status is not tested: every one but 0 counts as 1.
    unfoldable pub eos_set_gpio_status : (gpio_num status : ℕ) → Method S ℤ
    unfolding fetch flush pin_data pin_addr put_data
    eos_set_gpio_status gpio_num status = if ltb 127 gpio_num then return_int minus_one else do
      modify prepare
      cpu_reg_value ← fetch ((pin_addr gpio_num + 0x8) / 4)
      flush ((pin_addr gpio_num + 0x8) / 4)
          (put_data (status == 0) cpu_reg_value (pin_data gpio_num))
      pure (pos 0)

    unfoldable pub eos_get_gpio_status : (gpio_num : ℕ) → Method S ℕ
    unfolding get_at
    eos_get_gpio_status gpio_num = get_at 0x8 gpio_num
