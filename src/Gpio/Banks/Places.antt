-- ===== src/Gpio/Banks/Places.antt =====
-- Where the banks' pins stand: the bit of a pin in its bank, and the registers' offsets.
use libeos.Prelude.{
  ℕ, ◌+◌, ◌-◌, ◌/◌, ◌%◌, ◌^◌, ◌≤◌, ◌<◌, ◌≡◌, ◌≢◌, ◌⊎◌, inl, inr, Bool, true, false, ◌==◌,
  if◌then◌else◌, bit, bit-le, bit-bit_or, bit-bit_and, bit-pow, bit-mask, bit_or-lt, bit_and-le,
  pow-lt, arith,
}
use libeos.Gpio.{Shifter, shl}
use libeos.Gpio.Pins.{shl-one}
use libeos.Gpio.Banks.{Variant, pin_data, pin_addr, put_data}

module _ (shifter : Shifter) (variant : Variant) where
  shl-at : (n k : ℕ) → k ≡ 31 - n % 32 → shl shifter 1 k ≡ 2 ^ (31 - n % 32)
  shl-at n k e = rw e (shl-one shifter (31 - n % 32) (omega arith))

  pub pin_data_lem : (n : ℕ) → n ≤ 127 → pin_data shifter variant n ≡ 2 ^ (31 - n % 32)
  unfolding pin_data
  pin_data_lem n p =
      ground (arith, shl-at n (31 - n), shl-at n (63 - n), shl-at n (95 - n), shl-at n (127 - n))

  pub put_data-bit :
      (n m : ℕ) (clear : Bool) (v : ℕ)
      → n ≤ 31
      → m ≤ 31
      → bit (31 - m) (put_data shifter variant clear v (2 ^ (31 - n)))
        ≡ (if m == n then (if clear then 0 else 1) else bit (31 - m) v)
  unfolding put_data
  put_data-bit n m clear v p q =
      let b = bit-le (31 - m) v in
      let one = bit-pow (31 - m) (31 - n) in
      let rest = bit-mask 32 (31 - m) (31 - n) (omega arith) (omega arith) in
      ground (
        arith,
        bit-bit_or (31 - m) v (2 ^ (31 - n)),
        bit-bit_and (31 - m) v (2 ^ 32 - 1 - 2 ^ (31 - n)),
      )

  pub put_data-lt :
      (n : ℕ) (clear : Bool) (v : ℕ)
      → v < 2 ^ 32
      → put_data shifter variant clear v (2 ^ (31 - n)) < 2 ^ 32
  unfolding put_data
  put_data-lt n true v q = omega (arith, bit_and-le v (2 ^ 32 - 1 - 2 ^ (31 - n)))
  put_data-lt n false v q = bit_or-lt 32 v (2 ^ (31 - n)) q (pow-lt 32 (31 - n) (omega arith))

  -- The offset of the register at `offset` in the bank of a pin, in cells.
  abbrev pub place : (offset n : ℕ) → ℕ
  place offset n = (pin_addr shifter variant n + offset) / 4

  module _ (steps : (variant.bank_step ≡ 0x1000) ⊎ (variant.bank_step ≡ 0x1_0000)) where
    pub place_bank :
        (offset n m : ℕ) → n ≤ 127 → m ≤ 127 → n / 32 ≡ m / 32 → place offset n ≡ place offset m
    unfolding pin_addr
    place_bank offset n m p q e = ground arith

    -- Registers of different offsets, or of different banks, stand apart.
    pub place-ne :
        (a b n m : ℕ)
        → n ≤ 127
        → m ≤ 127
        → a ≤ 0x18
        → b ≤ 0x18
        → ((a / 4 ≢ b / 4) ⊎ (n / 32 ≢ m / 32))
        → place a n ≢ place b m
    unfolding pin_addr
    place-ne a b n m p q r t (inl differ) e = ground arith
    place-ne a b n m p q r t (inr differ) e = ground arith
