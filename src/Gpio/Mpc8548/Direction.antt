-- ===== src/Gpio/Mpc8548/Direction.antt =====
-- What the functions on the directions of the MPC8548 do with its register.
use Prim.Native.Nat.{bit_or, max}
use libeos.Prelude.{
  ℕ, zero, suc, ◌*◌, ◌^◌, ◌≤◌, ◌<◌, ◌≡◌, ◌⊎◌, inl, inr, refl, ap, ◌∙◌, pos, minus_one, Bool, true,
  false, ltb, ◌==◌, if◌then◌else◌, bit, bit-le, bit-pow, bit-bit_or, bit_or-lt, pow-lt,
  bit_and-pow_behind, arith, ◌||◌, pow_pos,
}
use libeos.Prelude.Method.{Ending, ok, returned, Method, return_int, pure, >>=-ok}
use libeos.Prelude.Words.{Words, IsRegisters}
use libeos.Gpio.{Shifter, is_no_bit, load, save}
use libeos.Gpio.Settings.{load_lem, save_lem}
use libeos.Gpio.Mpc8548.{is_no_pin, group_bit, eos_set_gpio_direction, eos_get_gpio_direction}

-- The number of the bit, from the low end.
group_place : (is_zero : Bool) (n : ℕ) → ℕ
group_place is_zero n =
    if is_zero
    then if ltb n 8 then 24 else if ltb n 16 then 16 else 10
    else if ltb n 8
    then 26
    else if ltb n 16
    then 18
    else 10

group_bit-pow : (is_zero : Bool) (n : ℕ) → group_bit is_zero n ≡ 2 ^ group_place is_zero n
unfolding group_bit group_place
group_bit-pow is_zero n = ground arith

group_place-lt : (is_zero : Bool) (n : ℕ) → group_place is_zero n < 32
unfolding group_place
group_place-lt is_zero n = ground arith

group_place-same :
    (n d : ℕ)
    → is_no_pin n ≡ false
    → d ≤ 1
    → (group_place false n == group_place (d == 0) n) ≡ ((d == 1) || ltb 23 n)
unfolding group_place
group_place-same n d p q = ground arith

told_more :
    (b : ℕ) (c : Bool)
    → b ≤ 1
    → Path
        (Ending ℕ)
        (if max b (if c then 1 else 0) == 0 then returned minus_one else ok 1)
        (if c then ok 1 else if b == 0 then returned minus_one else ok 1)
told_more b true p = ground arith
told_more b false p = ground arith

one_or_none :
    (b : ℕ)
    → Path (Ending ℕ) (if b == 0 then returned minus_one else ok 1) (ok 1)
      ⊎ Path (Ending ℕ) (if b == 0 then returned minus_one else ok 1) (returned minus_one)
one_or_none zero = inr refl
one_or_none (suc b) = inl (ground arith)

told :
    {S : Type 0} (b k : ℕ) (s : S)
    → b ≤ 1
    → (if◌then◌else◌ {A = Method S ℕ} (b * 2 ^ k == 0) (return_int minus_one) (pure 1) s).0
      ≡ (if b == 0 then returned minus_one else ok 1)
told zero k s p = ground arith
told (suc zero) k s p = let e : (1 * 2 ^ k == 0) ≡ false = ground (arith, pow_pos k) in rw e refl
told (suc (suc b)) k s p = absurd (omega arith)

module _ (shifter : Shifter) {S : Type 0} {w : Words S} (regs : IsRegisters w (2 ^ 32))
    (gpiocr gpoutdr gpindr : ℕ) (valid : regs.Valid gpiocr) where
  open regs use {Ready, cell, seen, stored}

  -- The register after a direction.
  abbrev new : (d n : ℕ) → S → ℕ
  new d n s = bit_or (cell gpiocr s) (group_bit (d == 0) n)

  set_direction_lem :
      (n d : ℕ) (s : S)
      → is_no_pin n ≡ false
      → d ≤ 1
      → Ready s
      → eos_set_gpio_direction shifter w gpiocr gpoutdr gpindr n d s
        ≡ (ok (pos 0), stored gpiocr (new d n s) (seen s))
  unfolding eos_set_gpio_direction
  set_direction_lem n d s pin q ready =
      let digit : is_no_bit d ≡ false = ground arith in
      rw (digit, pin)
        (>>=-ok (load shifter w gpiocr) _ (load_lem shifter regs gpiocr s valid ready)
          ∙ >>=-ok (save shifter w gpiocr (new d n s)) _
              (save_lem shifter regs gpiocr (new d n s) (seen s) valid (regs.seen-Ready s ready)))

  get_direction_lem :
      (n : ℕ) (s : S)
      → is_no_pin n ≡ false
      → Ready s
      → (eos_get_gpio_direction shifter w gpiocr gpoutdr gpindr n false s).0
        ≡ (if bit (group_place false n) (cell gpiocr s) == 0 then returned minus_one else ok 1)
  unfolding eos_get_gpio_direction
  get_direction_lem n s pin ready =
      let k = group_place false n in
      rw (pin, group_bit-pow false n)
        (ap (λ r. r.0)
            (>>=-ok (load shifter w gpiocr) _ (load_lem shifter regs gpiocr s valid ready))
          ∙ rw (bit_and-pow_behind k (cell gpiocr s))
              (told (bit k (cell gpiocr s)) k (seen s) (bit-le k (cell gpiocr s))))

  new-bit :
      (d n k : ℕ) (s : S)
      → bit k (new d n s)
        ≡ max (bit k (cell gpiocr s)) (if k == group_place (d == 0) n then 1 else 0)
  new-bit d n k s =
      bit-bit_or k (cell gpiocr s) (group_bit (d == 0) n)
      ∙ ap (λ b. max (bit k (cell gpiocr s)) (bit k b)) (group_bit-pow (d == 0) n)
      ∙ ap (max (bit k (cell gpiocr s))) (bit-pow k (group_place (d == 0) n))

  new-lt : (d n : ℕ) (s : S) → new d n s < 2 ^ 32
  new-lt d n s =
      bit_or-lt 32 (cell gpiocr s) (group_bit (d == 0) n) (regs.cell-lt gpiocr s)
        (rw (group_bit-pow (d == 0) n) (pow-lt 32 _ (group_place-lt (d == 0) n)))

  -- For a pin that the processor has: setting its direction to 0 or 1 returns 0. A get of its
  -- direction after it, through a pointer that is not NULL, brings 1 if 1 was set or the pin is 24
  -- or above, and else ends as a get before it does. A get never brings 0: it brings 1 or
  -- returns -1.
  pub eos_get_gpio_direction-eos_set_gpio_direction :
      (n d : ℕ) (s : S)
      → is_no_pin n ≡ false
      → d ≤ 1
      → Ready s
      → let (r, t) = eos_set_gpio_direction shifter w gpiocr gpoutdr gpindr n d s in
        let before = (eos_get_gpio_direction shifter w gpiocr gpoutdr gpindr n false s).0 in
        (r ≡ ok (pos 0))
        × ((eos_get_gpio_direction shifter w gpiocr gpoutdr gpindr n false t).0
            ≡ (if (d == 1) || ltb 23 n then ok 1 else before))
        × ((before ≡ ok 1) ⊎ (before ≡ returned minus_one))
  eos_get_gpio_direction-eos_set_gpio_direction n d s pin q ready =
      let runs = set_direction_lem n d s pin q ready in
      let t = stored gpiocr (new d n s) (seen s) in
      let k = group_place false n in
      let same : group_place false n == group_place (d == 0) n ≡ ((d == 1) || ltb 23 n) =
        group_place-same n d pin q in
      let content : cell gpiocr t ≡ new d n s =
        regs.cell-stored gpiocr (new d n s) (seen s) (new-lt d n s) in
      let after =
        get_direction_lem n t pin (regs.stored-Ready gpiocr _ _ (regs.seen-Ready s ready)) in
      let before = get_direction_lem n s pin ready in
      (
        ap (λ r. r.0) runs,
        ap (λ r. (eos_get_gpio_direction shifter w gpiocr gpoutdr gpindr n false r.1).0) runs
            ∙ after
            ∙ rw (content, new-bit d n k s, same, before)
                (told_more (bit k (cell gpiocr s)) ((d == 1) || ltb 23 n)
                  (bit-le k (cell gpiocr s))),
        rw before (one_or_none (bit k (cell gpiocr s))),
      )
