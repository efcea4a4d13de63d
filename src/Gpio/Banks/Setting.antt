-- ===== src/Gpio/Banks/Setting.antt =====
-- The registers of the LS1021 and the T104X: a get of a pin, and what a change of one pin in a
-- register does to the others.
use Prim.Native.Nat.{bit_and}
use libeos.Prelude.{
  ℕ, ◌+◌, ◌-◌, ◌*◌, ◌/◌, ◌%◌, ◌^◌, ◌≤◌, ◌<◌, ◌≡◌, ◌≢◌, ◌⊎◌, inl, inr, refl, ap, ◌∙◌, Bool,
  Bool-cases, false, ltb, ◌==◌, ==_iff, if◌then◌else◌, bit, bit-le, bit_and-pow, flag-bit, arith,
}
use libeos.Prelude.Method.{ok, >>=-ok}
use libeos.Prelude.Words.{Words, IsRegisters, reg_read, reg_write, reg_read_lem, reg_write_lem}
use libeos.Gpio.{Shifter}
use libeos.Gpio.Banks.{Variant, pin_data, pin_addr, put_data, fetch, flush, get_at}
use libeos.Gpio.Banks.Places.{pin_data_lem, put_data-bit, put_data-lt, place, place_bank, place-ne}

-- The banks stand at one of the two distances, and the two conversions of a register undo each
-- other on words.
pub record IsVariant (variant : Variant) : Type 0 where
  pub steps : (variant.bank_step ≡ 0x1000) ⊎ (variant.bank_step ≡ 0x1_0000)
  pub from-to : (v : ℕ) → v < 2 ^ 32 → variant.from_device (variant.to_device v) ≡ v
  pub to-lt : (v : ℕ) → v < 2 ^ 32 → variant.to_device v < 2 ^ 32
  pub from-lt : (v : ℕ) → v < 2 ^ 32 → variant.from_device v < 2 ^ 32

-- The registers of the window are reached at every offset in the four banks, and `prepare` does
-- nothing to a window that is there.
pub record IsWindow {S : Type 0} {w : Words S} (variant : Variant) (regs : IsRegisters w (2 ^ 32))
    (prepare : S → S) : Type 0 where
  pub valid : (a : ℕ) → a ≤ (3 * variant.bank_step + 0x18) / 4 → regs.Valid a
  pub distinct : (a b : ℕ) → a ≢ b → regs.Apart a b
  pub prepared : (s : S) → regs.Ready s → prepare s ≡ s

module _ (shifter : Shifter) (variant : Variant) (v : IsVariant variant) {S : Type 0} {w : Words S}
    (regs : IsRegisters w (2 ^ 32)) (prepare : S → S) (win : IsWindow variant regs prepare) where
  open regs use {Ready, cell, seen, stored}

  -- A register, as the code sees it.
  abbrev pub reg : ℕ → S → ℕ
  reg a s = variant.from_device (cell a s)

  abbrev pub at : (offset n : ℕ) → ℕ
  at offset n = place shifter variant offset n

  pub at-valid : (offset n : ℕ) → n ≤ 127 → offset ≤ 0x18 → regs.Valid (at offset n)
  unfolding pin_addr
  at-valid offset n p q = win.valid (at offset n) (ground arith)

  pub fetch_lem :
      (a : ℕ) (s : S)
      → regs.Valid a
      → Ready s
      → fetch shifter variant w prepare a s ≡ (ok (reg a s), seen s)
  unfolding fetch
  fetch_lem a s valid ready = >>=-ok (reg_read w a 0) _ (reg_read_lem regs a 0 s valid ready)

  pub flush_lem :
      (a x : ℕ) (s : S)
      → regs.Valid a
      → Ready s
      → flush shifter variant w prepare a x s ≡ (ok tt, stored a (variant.to_device x) s)
  unfolding flush
  flush_lem a x s valid ready =
      >>=-ok (reg_write w a (variant.to_device x)) _
        (reg_write_lem regs a (variant.to_device x) s valid ready)

  reg-stored :
      (a b x : ℕ) (s : S)
      → x < 2 ^ 32
      → reg b (stored a (variant.to_device x) s) ≡ (if b == a then x else reg b s)
  reg-stored a b x s small = elim (Bool-cases (b == a)) [
    | inl same ↦ rw same (
        rw ((==_iff b a).0 same) (
          ap variant.from_device (regs.cell-stored a (variant.to_device x) s (v.to-lt x small))
          ∙ v.from-to x small))
    | inr other ↦ rw other (
        ap variant.from_device
          (regs.cell-stored_ne a b (variant.to_device x) s (win.distinct a b (λ e. ground arith))))
  ]

  pub reg-seen : (a : ℕ) (s : S) → reg a (seen s) ≡ reg a s
  reg-seen a s = ap variant.from_device (regs.cell-seen a s)

  -- What a get brings: the pin's bit in the register of its bank.
  pub get_at_lem :
      (offset m : ℕ) (s : S)
      → m ≤ 127
      → offset ≤ 0x18
      → Ready s
      → get_at shifter variant w prepare offset m s
        ≡ (ok (bit (31 - m % 32) (reg (at offset m) s)), seen s)
  unfolding get_at
  get_at_lem offset m s p q ready =
      let inside : ltb 127 m ≡ false = ground arith in
      let small = bit-le (31 - m % 32) (reg (at offset m) s) in
      let value : (if bit_and (pin_data shifter variant m) (reg (at offset m) s) == 0 then 0 else 1)
          ≡ bit (31 - m % 32) (reg (at offset m) s) =
        rw (pin_data_lem shifter variant m p, bit_and-pow (31 - m % 32) (reg (at offset m) s))
          (flag-bit (31 - m % 32) (bit (31 - m % 32) (reg (at offset m) s)) small) in
      rw (inside, win.prepared s ready)
        (>>=-ok (fetch shifter variant w prepare (at offset m)) _
            (fetch_lem (at offset m) s (at-valid offset m p q) ready)
          ∙ rw value refl)

  same_bank : (o n m : ℕ) → n ≤ 127 → m ≤ 127 → o ≤ 0x18 → at o m ≡ at o n → m / 32 ≡ n / 32
  same_bank o n m p q r e = elim (Bool-cases (m / 32 == n / 32)) [
    | inl same ↦ (==_iff (m / 32) (n / 32)).0 same
    | inr other ↦
        absurd (place-ne shifter variant v.steps o o m n q p r r (inr (λ f. ground arith)) e)
  ]

  other_pin : (o n m : ℕ) → n ≤ 127 → m ≤ 127 → (at o m == at o n) ≡ false → (m == n) ≡ false
  other_pin o n m p q other = elim (Bool-cases (m == n)) [
    | inl same ↦
        let e =
          place_bank shifter variant v.steps o m n q p (ap (λ k. k / 32) ((==_iff m n).0 same)) in
        ground arith
    | inr differ ↦ differ
  ]

  -- The register of pin `m` after the one of pin `n`, at the same offset, is set to `x`.
  one_pin :
      (o n m : ℕ) (clear : Bool) (s : S)
      → n ≤ 127
      → m ≤ 127
      → o ≤ 0x18
      → bit (31 - m % 32) (
          if at o m == at o n
          then put_data shifter variant clear (reg (at o n) s) (2 ^ (31 - n % 32))
          else reg (at o m) s)
        ≡ (if m == n then (if clear then 0 else 1) else bit (31 - m % 32) (reg (at o m) s))
  one_pin o n m clear s p q r = elim (Bool-cases (at o m == at o n)) [
    | inl same ↦
        let e = (==_iff (at o m) (at o n)).0 same in
        let bank = same_bank o n m p q r e in
        let test : (m % 32 == n % 32) ≡ (m == n) = ground arith in
        rw same (
          rw e (
            put_data-bit shifter variant (n % 32) (m % 32) clear (reg (at o n) s) (omega arith)
              (omega arith)
            ∙ ap (λ t. if t then (if clear then 0 else 1) else bit (31 - m % 32) (reg (at o n) s))
                test))
    | inr other ↦ rw (other, other_pin o n m p q other) refl
  ]

  unfoldable pub new_value : (o n : ℕ) (clear : Bool) (s : S) → ℕ
  new_value o n clear s = put_data shifter variant clear (reg (at o n) s) (2 ^ (31 - n % 32))

  pub new_value-lt : (o n : ℕ) (clear : Bool) (s : S) → new_value o n clear s < 2 ^ 32
  unfolding new_value
  new_value-lt o n clear s =
      put_data-lt shifter variant (n % 32) clear (reg (at o n) s)
        (v.from-lt (cell (at o n) s) (regs.cell-lt (at o n) s))

  -- The bit of pin `m` in the register at `o` of its bank.
  abbrev pub pin : (o m : ℕ) → S → ℕ
  pin o m s = bit (31 - m % 32) (reg (at o m) s)

  pub pin-stored :
      (o n m : ℕ) (clear : Bool) (s t : S)
      → n ≤ 127
      → m ≤ 127
      → o ≤ 0x18
      → reg (at o m) t ≡ reg (at o m) s
      → pin o m (stored (at o n) (variant.to_device (new_value o n clear s)) t)
        ≡ (if m == n then (if clear then 0 else 1) else pin o m s)
  unfolding new_value
  pin-stored o n m clear s t p q r alike =
      ap (bit (31 - m % 32))
        (reg-stored (at o n) (at o m) (new_value o n clear s) t (new_value-lt o n clear s))
      ∙ ap (λ k. bit (31 - m % 32) (if at o m == at o n then new_value o n clear s else k)) alike
      ∙ one_pin o n m clear s p q r

  pub reg-stored_ne :
      (o o' n m x : ℕ) (t : S)
      → n ≤ 127
      → m ≤ 127
      → o ≤ 0x18
      → o' ≤ 0x18
      → o' / 4 ≢ o / 4
      → x < 2 ^ 32
      → reg (at o' m) (stored (at o n) (variant.to_device x) t) ≡ reg (at o' m) t
  reg-stored_ne o o' n m x t p q r r' differ small =
      let ne = place-ne shifter variant v.steps o' o m n q p r' r (inl differ) in
      let test : (at o' m == at o n) ≡ false = ground arith in
      reg-stored (at o n) (at o' m) x t small ∙ ap (λ b. if b then x else reg (at o' m) t) test
