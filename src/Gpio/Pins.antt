-- ===== src/Gpio/Pins.antt =====
-- What a pin's register holds after a write of one pin, and what a read of one pin brings.
use libeos.Prelude.{
  ℕ, ◌-◌, ◌/◌, ◌^◌, ◌≤◌, ◌<◌, ◌≡◌, ◌==◌, if◌then◌else◌, bit, bit-le, bit-shift, bit-bit_or,
  bit-bit_and, bit-pow, bit-mask, bit_or-lt, bit_and-le, bit_and-one, pow-lt, arith,
}
use libeos.Gpio.{Shifter, shl, shr, pin_count, put_pin, get_pin}

module _ (shifter : Shifter) where
  pub shl-one : (k : ℕ) → k < 32 → shl shifter 1 k ≡ 2 ^ k
  shl-one k p = let small = pow-lt 32 k p in ground arith

  pub shr-div : (v k : ℕ) → k < 32 → shr shifter v k ≡ v / 2 ^ k
  shr-div v k p = ground arith

  pub pin_count_lem : (n : ℕ) → n ≤ 31 → pin_count shifter n ≡ 31 - n
  pin_count_lem n p = omega arith

  pub put_pin-bit :
      (n m d v : ℕ)
      → n ≤ 31
      → m ≤ 31
      → d ≤ 1
      → bit (31 - m) (put_pin shifter n d v) ≡ (if m == n then d else bit (31 - m) v)
  unfolding put_pin
  put_pin-bit n m d v p q r =
      let b = bit-le (31 - m) v in
      let one = bit-pow (31 - m) (31 - n) in
      let rest = bit-mask 32 (31 - m) (31 - n) (omega arith) (omega arith) in
      rw (pin_count_lem n p, shl-one (31 - n) (omega arith))
        (ground (
          arith,
          bit-bit_or (31 - m) v (2 ^ (31 - n)),
          bit-bit_and (31 - m) v (2 ^ 32 - 1 - 2 ^ (31 - n)),
        ))

  pub put_pin-lt : (n d v : ℕ) → n ≤ 31 → v < 2 ^ 32 → put_pin shifter n d v < 2 ^ 32
  unfolding put_pin
  put_pin-lt n d v p q =
      rw (pin_count_lem n p, shl-one (31 - n) (omega arith))
        (ground (
          arith,
          bit_or-lt 32 v (2 ^ (31 - n)) q (pow-lt 32 (31 - n) (omega arith)),
          bit_and-le v (2 ^ 32 - 1 - 2 ^ (31 - n)),
        ))

  pub get_pin-bit : (n v : ℕ) → n ≤ 31 → get_pin shifter n v ≡ bit (31 - n) v
  unfolding get_pin
  get_pin-bit n v p =
      let within = bit-le (31 - n) v in
      rw (pin_count_lem n p, shr-div v (31 - n) (omega arith), bit_and-one, bit-shift)
        (ground arith)
