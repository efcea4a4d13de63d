-- ===== src/Gpio/Mpc8548/Output.antt =====
-- What setting an output of the MPC8548 does to its register.
use Prim.Native.Nat.{bit_or, max}
use libeos.Prelude.{
  ℕ, zero, suc, ◌-◌, ◌^◌, ◌≤◌, ◌<◌, ◌≡◌, ap, ◌∙◌, pos, false, ◌==◌, if◌then◌else◌, bit, bit-le,
  bit-pow, bit-bit_or, bit-zero, bit_or-lt, pow-lt, arith,
}
use libeos.Prelude.Method.{ok, >>=-ok}
use libeos.Prelude.Words.{Words, IsRegisters}
use libeos.Gpio.{Shifter, is_no_bit, shl, load, save}
use libeos.Gpio.Pins.{shl-one}
use libeos.Gpio.Settings.{load_lem, save_lem}
use libeos.Gpio.Mpc8548.{is_no_pin, pin_shift, eos_set_gpio_status}

module _ (shifter : Shifter) {S : Type 0} {w : Words S} (regs : IsRegisters w (2 ^ 32))
    (gpiocr gpoutdr gpindr : ℕ) (valid : regs.Valid gpoutdr) where
  open regs use {Ready, cell, seen, stored}

  shl-bit : (d j k : ℕ) → d ≤ 1 → k < 32 → bit j (shl shifter d k) ≡ (if j == k then d else 0)
  shl-bit zero j k p q =
      let e : shl shifter 0 k ≡ 0 = ground arith in rw e (ground (arith, bit-zero j))
  shl-bit (suc zero) j k p q = rw (shl-one shifter k q) (bit-pow j k)
  shl-bit (suc (suc d)) j k p q = absurd (omega arith)

  shl-lt : (d k : ℕ) → d ≤ 1 → k < 32 → shl shifter d k < 2 ^ 32
  shl-lt d k p q = let small = pow-lt 32 k q in ground arith

  -- For a pin that the processor has, and a status 0 or 1: the call returns 0, and the output
  -- register then has a 1 at every pin where it had one, and at this pin if the status is 1. A
  -- status 0 thus changes no output.
  pub eos_set_gpio_status-bit :
      (n m d : ℕ) (s : S)
      → is_no_pin n ≡ false
      → m ≤ 31
      → d ≤ 1
      → Ready s
      → let (r, t) = eos_set_gpio_status shifter w gpiocr gpoutdr gpindr n d s in
        (r ≡ ok (pos 0))
        × (bit (31 - m) (cell gpoutdr t) ≡ (
            if m == n
            then max d (bit (31 - m) (cell gpoutdr s))
            else bit (31 - m) (cell gpoutdr s)))
  unfolding eos_set_gpio_status
  eos_set_gpio_status-bit n m d s pin p q ready =
      let digit : is_no_bit d ≡ false = ground arith in
      let shift : pin_shift n < 32 = omega arith in
      let here : n ≤ 31 = ground arith in
      let old = cell gpoutdr s in
      let new = bit_or old (shl shifter d (pin_shift n)) in
      let runs : eos_set_gpio_status shifter w gpiocr gpoutdr gpindr n d s
          ≡ (ok (pos 0), stored gpoutdr new (seen s)) =
        rw (digit, pin)
          (>>=-ok (load shifter w gpoutdr) _ (load_lem shifter regs gpoutdr s valid ready)
            ∙ >>=-ok (save shifter w gpoutdr new) _
                (save_lem shifter regs gpoutdr new (seen s) valid (regs.seen-Ready s ready))) in
      let fits : new < 2 ^ 32 =
        bit_or-lt 32 old _ (regs.cell-lt gpoutdr s) (shl-lt d (pin_shift n) q shift) in
      (
        ap (λ r. r.0) runs,
        ap (λ r. bit (31 - m) (cell gpoutdr r.1)) runs
            ∙ ap (bit (31 - m)) (regs.cell-stored gpoutdr new (seen s) fits)
            ∙ bit-bit_or (31 - m) old (shl shifter d (pin_shift n))
            ∙ ground (arith, shl-bit d (31 - m) (pin_shift n) q shift, bit-le (31 - m) old),
      )
