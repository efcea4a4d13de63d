-- ===== src/Watchdog.antt =====
-- The watchdog, eos_lib/eos_lib/eos_watchdog.cpp: the functions that set its mode and its time in
-- the CPLD, and the ones that feed it, by a pin (Gpio.antt) or by a register of the processor.
pub mod Feeding
pub mod Blocked
pub mod Pulse
pub mod Mode
pub mod Hardware
pub mod Processors
mod Tests
use libeos.Prelude.{
  ℕ, ◌+◌, ◌%◌, ◌^◌, ℤ, pos, minus_one, is_zero, Bool, not, ◌&&◌, ltb, ◌==◌, if◌then◌else◌, Option,
  some, Buf, store,
}
use libeos.Prelude.Method.{
  Ending, Method, pure, return_int, modify, answered, call, check_neg, ◌>>=◌, ◌>>◌,
}
use libeos.Prelude.Words.{Words, reg_read, reg_write}
use libeos.Gpio.Drivers.{PinDriver}
use libeos.Mmap.{Os, Board, Process}
use libeos.Mmap.Registers.{eos_cpu_reg_write}

-- The static variables eos_feed_dog_count and setSignal, with what the pins' functions work on. The
-- count is kept below 2^32: where it wraps, its last bit is that of the `int`.
pub record Dog (S : Type 0) : Type 0 where
  pub eos_feed_dog_count : ℕ
  pub set_signal : ℕ
  pub pins : S

module _ {S : Type 0} where
  abbrev pub with_pins : {A : Type 0} → Dog S → Ending A × S → Ending A × Dog S
  with_pins d (e, s) = (e, record d { pins = s })

  -- ret = f(...), for a function on pins
  unfoldable pub calls : Method S ℤ → Method (Dog S) ℤ
  calls m d = with_pins d (answered (call m d.pins) d.pins)

  module _ (driver : PinDriver S) (feed_gpio : ℕ) where
    -- if (setSignal == 0) { ... }
    unfoldable pub set_output_once : Method (Dog S) (Unit {0})
    unfolding calls
    set_output_once d =
        if d.set_signal == 0
        then (do
          ret ← calls (driver.eos_set_gpio_direction feed_gpio 1)
          if not (is_zero ret)
              then return_int minus_one
              else modify (λ d'. record d' { set_signal = 1 }))
            d
        else pure tt d

    -- `feed_gpio` is 28 for the P204X, and CPLD_FEED_DOG_GPIO for the others.
    unfoldable pub eos_soft_feed_dog : Method (Dog S) ℤ
    unfolding calls set_output_once
    eos_soft_feed_dog = do
      set_output_once
      modify (λ d. record d { eos_feed_dog_count = (d.eos_feed_dog_count + 1) % 2 ^ 32 })
      count ← λ d. pure d.eos_feed_dog_count d
      calls (driver.eos_set_gpio_status feed_gpio (if count % 2 == 0 then 1 else 0))

-- `w` is eos_core_cpld_read and eos_core_cpld_write of one byte.
module _ {S : Type 0} (w : Words S) (cpld_feed_dog cpld_feed_dog_time : ℕ) where
  -- eos_core_cpld_write(addr, &value, 1), and the test for an error
  unfoldable pub write_byte : (addr value : ℕ) → Method S ℤ
  write_byte addr value = do check_neg (← reg_write w addr value); pure (pos 0)

  -- For the P204X and the P2020. `flag` is the `int` modulo 2^32.
  unfoldable pub eos_set_dog_mode : (flag : ℕ) → Method S ℤ
  unfolding write_byte
  eos_set_dog_mode flag = write_byte cpld_feed_dog (flag % 2 ^ 8)

  -- For the LS1021 and the T104X.
  unfoldable pub eos_set_dog_mode_on : (flag : ℕ) → Method S ℤ
  unfolding write_byte
  eos_set_dog_mode_on flag = write_byte cpld_feed_dog (if flag == 0 then 0 else 0xff)

  -- The value is what `*val` is set to where 0 is returned; `value` is what the variable holds
  -- before.
  unfoldable pub eos_get_dog_mode : (value : ℕ) → Method S ℕ
  eos_get_dog_mode value = do r ← reg_read w cpld_feed_dog value; check_neg r.0; pure r.1

  unfoldable pub eos_set_feed_dog_time : (count : ℕ) → Method S ℤ
  unfolding write_byte
  eos_set_feed_dog_time count =
      if ltb 255 count then return_int minus_one else write_byte cpld_feed_dog_time (count % 2 ^ 8)

module _ {W : Type 0} (os : Os W) (board : Board) (hard_watchdog_addr : ℕ) where
  -- HARD_STOP_WATCHDOG and HARD_START_WATCHDOG
  abbrev pub hard_value : (flag : ℕ) → ℕ
  hard_value flag = if flag == 0 then 0x0000_0003 else 0x8000_0003

  -- `behind` is the memory that the variable cpu_reg_value is put into: what follows its four bytes
  -- is not the function's. The length is sizeof(unsigned int).
  unfoldable pub eos_hard_feed_dog : (behind : Buf) (flag : ℕ) → Method (Process W) ℤ
  eos_hard_feed_dog behind flag =
      if not (flag == 0) && not (flag == 1) then return_int minus_one else do
        ret ← λ p.
            answered
              (eos_cpu_reg_write os board hard_watchdog_addr
                (some (store behind 0 (os.word 4 (hard_value flag)))) 4 p)
              p
        check_neg ret
        pure (pos 0)
