-- ===== src/Gpio/Settings.antt =====
-- The functions for the P204X, P2020, P1020 and MPC8308 on registers that keep what is written:
-- one pin is set, the others stay, and a get brings what was set.
use libeos.Prelude.{
  ℕ, ◌-◌, ◌^◌, ◌≤◌, ◌≡◌, refl, ap, ◌∙◌, pos, false, ◌==◌, if◌then◌else◌, bit, bit-le, arith,
}
use libeos.Prelude.Method.{ok, >>=-ok}
use libeos.Prelude.Words.{Words, IsRegisters, reg_read, reg_write, reg_read_lem, reg_write_lem}
use libeos.Gpio.{
  Shifter, is_no_bit, put_pin, load, save, change_pin, eos_get_gpio_direction, eos_get_gpio_status,
}
use libeos.Gpio.Pins.{put_pin-bit, put_pin-lt, get_pin-bit}

module _ (shifter : Shifter) {S : Type 0} {w : Words S} (regs : IsRegisters w (2 ^ 32)) where
  open regs use {Ready, Valid, Apart, cell, seen, stored}

  pub load_lem : (a : ℕ) (s : S) → Valid a → Ready s → load shifter w a s ≡ (ok (cell a s), seen s)
  unfolding load
  load_lem a s v r = >>=-ok (reg_read w a 0) _ (reg_read_lem regs a 0 s v r)

  pub save_lem :
      (a value : ℕ) (s : S)
      → Valid a
      → Ready s
      → save shifter w a value s ≡ (ok tt, stored a value s)
  unfolding save
  save_lem a value s v r = >>=-ok (reg_write w a value) _ (reg_write_lem regs a value s v r)

  -- The state after pin `n` of the register at `a` is set to `d`.
  abbrev pub changed : (a n d : ℕ) → S → S
  changed a n d s = stored a (put_pin shifter n d (cell a s)) (seen s)

  pub change_pin_lem :
      (a n d : ℕ) (s : S)
      → d ≤ 1
      → Valid a
      → Ready s
      → change_pin shifter w a n d s ≡ (ok (pos 0), changed a n d s)
  unfolding change_pin
  change_pin_lem a n d s small v r =
      let bit : is_no_bit d ≡ false = ground arith in
      rw bit (
        >>=-ok (load shifter w a) _ (load_lem a s v r)
        ∙ >>=-ok (save shifter w a (put_pin shifter n d (cell a s))) _
            (save_lem a _ (seen s) v (regs.seen-Ready s r)))

  pub changed-bit :
      (a n m d : ℕ) (s : S)
      → n ≤ 31
      → m ≤ 31
      → d ≤ 1
      → bit (31 - m) (cell a (changed a n d s)) ≡ (if m == n then d else bit (31 - m) (cell a s))
  changed-bit a n m d s p q small =
      ap (bit (31 - m))
        (regs.cell-stored a _ (seen s) (put_pin-lt shifter n d (cell a s) p (regs.cell-lt a s)))
      ∙ put_pin-bit shifter n m d (cell a s) p q small

  pub changed-ne : (a b n d : ℕ) (s : S) → Apart a b → cell b (changed a n d s) ≡ cell b s
  changed-ne a b n d s apart = regs.cell-stored_ne a b _ (seen s) apart ∙ regs.cell-seen b s

  pub changed-Ready : (a n d : ℕ) (s : S) → Ready s → Ready (changed a n d s)
  changed-Ready a n d s r = regs.stored-Ready a _ (seen s) (regs.seen-Ready s r)

  module _ (dir dat : ℕ) (dir_valid : Valid dir) (dat_valid : Valid dat) where
    pub get_direction_lem :
        (m : ℕ) (s : S)
        → m ≤ 31
        → Ready s
        → eos_get_gpio_direction shifter w dir dat m s ≡ (ok (bit (31 - m) (cell dir s)), seen s)
    unfolding eos_get_gpio_direction
    get_direction_lem m s p r =
        >>=-ok (load shifter w dir) _ (load_lem dir s dir_valid r)
        ∙ (let small = bit-le (31 - m) (cell dir s) in
            let is_bit : is_no_bit (bit (31 - m) (cell dir s)) ≡ false = ground arith in
            rw (get_pin-bit shifter m (cell dir s) p, is_bit) refl)

    pub get_status_lem :
        (m : ℕ) (s : S)
        → m ≤ 31
        → Ready s
        → eos_get_gpio_status shifter w dir dat m s ≡ (ok (bit (31 - m) (cell dat s)), seen s)
    unfolding eos_get_gpio_status
    get_status_lem m s p r =
        >>=-ok (load shifter w dat) _ (load_lem dat s dat_valid r)
        ∙ rw (get_pin-bit shifter m (cell dat s) p) refl
