-- ===== src/Gpio/Banks/Runs.antt =====
-- The set functions of the LS1021 and the T104X: how they end, and the state they leave.
use libeos.Prelude.{ℕ, ◌/◌, ◌^◌, ◌≤◌, ◌≡◌, ◌∙◌, pos, Bool, false, not, ltb, ◌==◌, arith}
use libeos.Prelude.Method.{ok, Method, ◌>>=◌, >>=-ok}
use libeos.Prelude.Words.{Words, IsRegisters}
use libeos.Gpio.{Shifter, is_no_bit}
use libeos.Gpio.Banks.{Variant, pin_addr, fetch, flush, eos_set_gpio_direction, eos_set_gpio_status}
use libeos.Gpio.Banks.Places.{pin_data_lem}
use libeos.Gpio.Banks.Setting.{
  IsVariant, IsWindow, at, pin, new_value, at-valid, fetch_lem, flush_lem,
}

module _ (shifter : Shifter) (variant : Variant) (v : IsVariant variant) {S : Type 0} {w : Words S}
    (regs : IsRegisters w (2 ^ 32)) (prepare : S → S) (win : IsWindow variant regs prepare) where
  open regs use {Ready, cell, seen, stored}

  -- A new value of the register at `o` for pin `n`.
  abbrev value : (o n : ℕ) (clear : Bool) → S → ℕ
  value o n clear s = new_value shifter variant v regs prepare win o n clear s

  abbrev stands : (o n : ℕ) → ℕ
  stands o n = at shifter variant v regs prepare win o n

  abbrev pin_at : (o m : ℕ) → S → ℕ
  pin_at o m s = pin shifter variant v regs prepare win o m s

  -- The two steps of an access, as the code runs them.
  fetched :
      (o n : ℕ) (s : S) {B : Type 0} (f : ℕ → Method S B)
      → n ≤ 127
      → o ≤ 0x18
      → Ready s
      → (fetch shifter variant w prepare (stands o n) >>= f) s
        ≡ f (variant.from_device (cell (stands o n) s)) (seen s)
  fetched o n s f p q ready = >>=-ok (fetch shifter variant w prepare (stands o n)) f (
      fetch_lem shifter variant v regs prepare win (stands o n) s
        (at-valid shifter variant v regs prepare win o n p q) ready)

  flushed :
      (o n x : ℕ) (s : S) {B : Type 0} (f : Unit {0} → Method S B)
      → n ≤ 127
      → o ≤ 0x18
      → Ready s
      → (flush shifter variant w prepare (stands o n) x >>= f) s
        ≡ f tt (stored (stands o n) (variant.to_device x) s)
  flushed o n x s f p q ready = >>=-ok (flush shifter variant w prepare (stands o n) x) f (
      flush_lem shifter variant v regs prepare win (stands o n) x s
        (at-valid shifter variant v regs prepare win o n p q) ready)

  -- The state after a status.
  abbrev pub after_status : (n status : ℕ) → S → S
  after_status n status s =
      stored (stands 0x8 n) (variant.to_device (value 0x8 n (status == 0) s)) (seen s)

  pub set_status_lem :
      (n status : ℕ) (s : S)
      → n ≤ 127
      → Ready s
      → eos_set_gpio_status shifter variant w prepare n status s
        ≡ (ok (pos 0), after_status n status s)
  unfolding eos_set_gpio_status new_value
  set_status_lem n status s p ready =
      let inside : ltb 127 n ≡ false = ground arith in
      rw (inside, win.prepared s ready, pin_data_lem shifter variant n p)
        (fetched 0x8 n s _ p (omega arith) ready
          ∙ flushed 0x8 n (value 0x8 n (status == 0) s) (seen s) _ p (omega arith)
              (regs.seen-Ready s ready))

  -- The state after a direction: the register at 0, and the one at 0x18 that has the opposite.
  abbrev pub after_direction : (n direction : ℕ) → S → S
  after_direction n direction s =
      stored (stands 0x18 n) (variant.to_device (value 0x18 n (not (direction == 0)) (seen s)))
        (stored (stands 0 n) (variant.to_device (value 0 n (direction == 0) s)) (seen (seen s)))

  pub set_direction_lem :
      (n direction : ℕ) (s : S)
      → n ≤ 127
      → direction ≤ 1
      → Ready s
      → eos_set_gpio_direction shifter variant w prepare n direction s
        ≡ (ok variant.fallen, after_direction n direction s)
  unfolding eos_set_gpio_direction new_value
  set_direction_lem n direction s p d ready =
      let inside : ltb 127 n ≡ false = ground arith in
      let digit : is_no_bit direction ≡ false = ground arith in
      let once = regs.seen-Ready s ready in
      let twice = regs.seen-Ready (seen s) once in
      let low = value 0 n (direction == 0) s in
      let high = value 0x18 n (not (direction == 0)) (seen s) in
      let written = stored (stands 0 n) (variant.to_device low) (seen (seen s)) in
      let small : 0 ≤ 0x18 = omega arith in
      let large : 0x18 ≤ 0x18 = omega arith in
      let first : pin_addr shifter variant n / 4 ≡ stands 0 n = omega arith in
      rw (digit, inside, win.prepared s ready, pin_data_lem shifter variant n p, first)
        (fetched 0 n s _ p small ready
          ∙ fetched 0x18 n (seen s) _ p large once
          ∙ flushed 0 n low (seen (seen s)) _ p small twice
          ∙ flushed 0x18 n high written _ p large (regs.stored-Ready _ _ _ twice))
