-- ===== src/Resource/Memory/Shares.antt =====
-- What eos_get_mem_info shows on the LS1021.
use libeos.Prelude.{
  ℕ, suc, ◌+◌, ◌-◌, ◌*◌, ◌/◌, ◌%◌, ◌^◌, ◌≤◌, ◌<◌, ◌≡◌, refl, ap, ◌∙◌, length, ℤ, pos, false, true,
  some, List, [], ◌∷◌, ◌++◌, All, to_int-pos, ltb, ◌==◌, arith,
}
use native.Mathlib.Nat.{le_refl, zero-div, add-mod_right, mod-eq_of_lt, div-le_of_le-mul}
use libeos.Resource.Text.Numbers.{
  characters, IsDigit, value, unsigned_at-characters, digit-sign, skip_whitespace-characters,
}
use libeos.Resource.Stat.{lines}
use libeos.Resource.Stat.RoundTrip.{Number, digits_of, number_of}
use libeos.Resource.Stat.Files.{has_break, lines-line}
use libeos.Resource.Memory.{to_long, atol, last_of, per_mille, eos_get_mem_info_ls1021}

-- A number and a line feed, as awk prints it.
abbrev pub printed : Number → List ℕ
printed n = characters (digits_of n) ++ b'\n' ∷ []

characters-has_break : (ds : List ℕ) → has_break (characters ds) ≡ false
characters-has_break [] = refl
characters-has_break (d ∷ ds) = ground (arith, characters-has_break ds)

length-characters : (ds : List ℕ) → length (characters ds) ≡ length ds
length-characters [] = refl
length-characters (d ∷ ds) = ap suc (length-characters ds)

lines-printed : (n : Number) → length n.1 < 30 → lines 31 31 (printed n) ≡ printed n ∷ []
unfolding lines
lines-printed (d, ds) short =
    lines-line 31 31 (characters (d ∷ ds)) [] (characters-has_break (d ∷ ds))
      (omega (arith, length-characters ds))

-- Numbers of at most 30 digits that a `long` holds.
abbrev pub Fits : (bits : ℕ) → Number → Type 0
Fits bits n = All IsDigit (digits_of n) × (length n.1 < 30) × (number_of n < 2 ^ (bits - 1))

share-le : (t a : ℕ) → (t - a) * 1000 / t ≤ 1000
share-le t a = div-le_of_le-mul t (omega arith)

no_share : (t : ℕ) → (t - t) * 1000 / t ≡ 0
no_share t = let z : (t - t) * 1000 ≡ 0 = omega arith in ap (λ (n : ℕ). n / t) z ∙ zero-div t

module _ (bits : ℕ) where
  atol-printed : (n : Number) → Fits bits n → atol bits (printed n) ≡ number_of n
  unfolding atol
  atol-printed (d, ds) ((h, hs), short, small) =
      let at_digit = skip_whitespace-characters d ds (b'\n' ∷ []) h in
      let (no_minus, no_plus) = digit-sign d h in
      let read = unsigned_at-characters d ds (b'\n' ∷ []) (h, hs) refl in
      let fits : ltb (value 0 (d ∷ ds)) (2 ^ (bits - 1)) ≡ true = ground arith in
      rw (at_digit, no_minus, no_plus) (ap (to_long bits false) read ∙ rw fits refl)

  read_back :
      (var : List ℕ) (n : Number)
      → Fits bits n
      → atol bits (last_of bits var (lines 31 31 (printed n))) ≡ number_of n
  read_back var n h =
      ap (λ ls. atol bits (last_of bits var ls))
        (let (d, short, small) = h in lines-printed n short)
      ∙ atol-printed n h

  per_mille_lem :
      (t a : ℕ)
      → 0 < t
      → a ≤ t
      → t * 1000 < 2 ^ bits
      → per_mille bits t a ≡ some (pos 0, some (pos ((t - a) * 1000 / t)))
  per_mille_lem t a some_memory less fits =
      let not_zero : (t == 0) ≡ false = ground arith in
      let apart : t + 2 ^ bits - a ≡ t - a + 2 ^ bits = omega arith in
      let used : (t + 2 ^ bits - a) % 2 ^ bits ≡ t - a =
        ap (λ n. n % 2 ^ bits) apart
        ∙ add-mod_right (t - a) (2 ^ bits)
        ∙ mod-eq_of_lt (omega arith) in
      let product : (t - a) * 1000 % 2 ^ bits ≡ (t - a) * 1000 = mod-eq_of_lt (omega arith) in
      let small = share-le t a in
      rw (not_zero, used, product)
        (ap (λ (n : ℤ). some (pos 0, some n)) (to_int-pos ((t - a) * 1000 / t) (omega arith)))

  -- Where the two commands print the memory in all and the available memory, of which the first is
  -- not 0, the second not more, and a thousand times the first fits an `unsigned long`: the
  -- share in use in tenths of a percent, rounded down, which is at most 1000. And where the second
  -- command prints nothing: a share of 0.
  pub eos_get_mem_info_ls1021_lem :
      (total avail : Number) (mem_val : ℤ)
      → Fits bits total
      → Fits bits avail
      → 0 < number_of total
      → number_of avail ≤ number_of total
      → number_of total * 1000 < 2 ^ bits
      → let share = (number_of total - number_of avail) * 1000 / number_of total in
        (eos_get_mem_info_ls1021 bits (some (printed total)) (some (printed avail)) (some mem_val)
          ≡ some (pos 0, some (pos share)))
        × (share ≤ 1000)
        × (eos_get_mem_info_ls1021 bits (some (printed total)) (some []) (some mem_val)
            ≡ some (pos 0, some (pos 0)))
  unfolding eos_get_mem_info_ls1021 lines
  eos_get_mem_info_ls1021_lem total avail mem_val h g some_memory less fits =
      let of_total = read_back [] total h in
      let of_avail = read_back (last_of bits [] (lines 31 31 (printed total))) avail g in
      let none_used =
        per_mille_lem (number_of total) (number_of total) some_memory (le_refl _) fits in
      (
        (λ i. per_mille bits (of_total i) (of_avail i))
            ∙ per_mille_lem (number_of total) (number_of avail) some_memory less fits,
        share-le (number_of total) (number_of avail),
        (λ i. per_mille bits (of_total i) (of_total i))
            ∙ none_used
            ∙ ap (λ (n : ℕ). some (pos 0, some (pos n))) (no_share (number_of total)),
      )
