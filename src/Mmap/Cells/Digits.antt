-- ===== src/Mmap/Cells/Digits.antt =====
-- A way to store numbers in bytes, the low byte first, for the tests of what uses the windows.
use libeos.Prelude.{
  ℕ, zero, suc, ◌+◌, ◌*◌, ◌/◌, ◌%◌, ◌^◌, ◌<◌, ◌≡◌, refl, ap, length, List, [], ◌∷◌, Buf, slice,
  arith,
}
use libeos.Mmap.{Os}
use libeos.Mmap.Cells.{StoresNumbers}

unfoldable pub low_first : (n v : ℕ) → List ℕ
low_first zero v = []
low_first (suc n) v = v % 256 ∷ low_first n (v / 256)

unfoldable pub to_number : List ℕ → ℕ
to_number [] = 0
to_number (x ∷ xs) = x % 256 + 256 * to_number xs

length-low_first : (n v : ℕ) → length (low_first n v) ≡ n
unfolding low_first
length-low_first zero v = refl
length-low_first (suc n) v = ap suc (length-low_first n (v / 256))

to_number-low_first : (n v : ℕ) → v < 256 ^ n → to_number (low_first n v) ≡ v
unfolding low_first to_number
to_number-low_first zero v p = ground arith
to_number-low_first (suc n) v p =
    let rest = to_number-low_first n (v / 256) (omega arith) in ground arith

to_number-lt : (b : Buf) (i n : ℕ) → to_number (slice b i n) < 256 ^ n
unfolding to_number slice
to_number-lt b i zero = ground arith
to_number-lt b i (suc n) = let rest = to_number-lt b (i + 1) n in ground arith

module _ {W : Type 0} (os : Os W) where
  pub stores_low_first : StoresNumbers (record os { word = low_first; number = to_number })
  stores_low_first = record {
    width_word = length-low_first;
    number_word = to_number-low_first;
    number-lt = to_number-lt;
  }
