-- ===== src/Prelude/Bits.antt =====
-- The bits of a word: what `|`, `& ~` and a shift do to each of them.
use Prim.Native.Nat.{
  ℕ, zero, suc, ◌+◌, ◌-◌, ◌*◌, ◌/◌, ◌%◌, ◌^◌, ◌≤◌, ◌<◌, min, max, digits, bitwise, bit_and, bit_or,
  bit_and-bitwise, bit_or-bitwise,
}
use mathlib.Core.Path.{◌≡◌, refl, sym, ap, ◌∙◌}
use native.Mathlib.Nat.{le_refl, pow-succ', pow-le-pow_right, div-div-eq-div-mul}
use native.Mathlib.Omega.{arith}
use libeos.Prelude.Tests.{◌==◌, if◌then◌else◌}

module _ (z : ℕ → ℕ) (f : ℕ → ℕ → ℕ) where
  -- More fuel than digits changes nothing.
  digits-fuel : (n m a b : ℕ) → a ≤ n → a ≤ m → digits z f n a b ≡ digits z f m a b
  digits-fuel zero zero a b p q = refl
  digits-fuel zero (suc m) zero b p q = refl
  digits-fuel zero (suc m) (suc a) b p q = absurd (omega arith)
  digits-fuel (suc n) zero zero b p q = refl
  digits-fuel (suc n) zero (suc a) b p q = absurd (omega arith)
  digits-fuel (suc n) (suc m) zero b p q = refl
  digits-fuel (suc n) (suc m) (suc a) b p q =
      rw (digits-fuel n m (suc a / 2) (b / 2) (omega arith) (omega arith))

  lowest :
      (a b : ℕ)
      → bitwise z f (suc a) b ≡ bitwise z f (suc a / 2) (b / 2) * 2 + f (suc a % 2) (b % 2)
  lowest a b =
      omega (arith, digits-fuel a (suc a / 2) (suc a / 2) (b / 2) (omega arith) (le_refl _))

bit_or_low : (a b : ℕ) → bit_or a b ≡ bit_or (a / 2) (b / 2) * 2 + max (a % 2) (b % 2)
bit_or_low zero b = simp bit_or-bitwise (omega arith)
bit_or_low (suc a) b = simp bit_or-bitwise (lowest (λ y. y) max a b)

bit_and_low : (a b : ℕ) → bit_and a b ≡ bit_and (a / 2) (b / 2) * 2 + min (a % 2) (b % 2)
bit_and_low zero b = simp bit_and-bitwise (omega arith)
bit_and_low (suc a) b = simp bit_and-bitwise (lowest (λ y. 0) min a b)

-- Bit `k` of a word, 0 or 1.
pub bit : ℕ → ℕ → ℕ
bit zero a = a % 2
bit (suc k) a = bit k (a / 2)

pub bit-le : (k a : ℕ) → bit k a ≤ 1
unfolding bit
bit-le zero a = omega arith
bit-le (suc k) a = bit-le k (a / 2)

-- (a >> k) & 1
pub bit-shift : (k a : ℕ) → a / 2 ^ k % 2 ≡ bit k a
unfolding bit
bit-shift zero a = omega arith
bit-shift (suc k) a =
    ap (λ (n : ℕ). n % 2)
      (ap (λ (n : ℕ). a / n) (pow-succ' 2 k) ∙ sym (div-div-eq-div-mul a 2 (2 ^ k)))
    ∙ bit-shift k (a / 2)

pub bit-bit_or : (k a b : ℕ) → bit k (bit_or a b) ≡ max (bit k a) (bit k b)
unfolding bit
bit-bit_or zero a b = omega (arith, bit_or_low a b)
bit-bit_or (suc k) a b =
    let e : bit_or a b / 2 ≡ bit_or (a / 2) (b / 2) = omega (arith, bit_or_low a b) in
    rw e (bit-bit_or k (a / 2) (b / 2))

pub bit-bit_and : (k a b : ℕ) → bit k (bit_and a b) ≡ min (bit k a) (bit k b)
unfolding bit
bit-bit_and zero a b = omega (arith, bit_and_low a b)
bit-bit_and (suc k) a b =
    let e : bit_and a b / 2 ≡ bit_and (a / 2) (b / 2) = omega (arith, bit_and_low a b) in
    rw e (bit-bit_and k (a / 2) (b / 2))

pub bit-zero : (k : ℕ) → bit k 0 ≡ 0
unfolding bit
bit-zero zero = refl
bit-zero (suc k) = bit-zero k

-- The one bit of 1 << k.
pub bit-pow : (j k : ℕ) → bit j (2 ^ k) ≡ (if j == k then 1 else 0)
unfolding bit
bit-pow zero zero = refl
bit-pow zero (suc k) = ground (arith, pow-succ' 2 k)
bit-pow (suc j) zero = ground (arith, bit-zero j)
bit-pow (suc j) (suc k) =
    let e : 2 ^ suc k / 2 ≡ 2 ^ k = omega (arith, pow-succ' 2 k) in
    rw e (ground (arith, bit-pow j k))

pub bit_or-lt : (w a b : ℕ) → a < 2 ^ w → b < 2 ^ w → bit_or a b < 2 ^ w
bit_or-lt zero a b p q = ground (arith, bit_or_low a b)
bit_or-lt (suc w) a b p q = omega (
  arith,
  pow-succ' 2 w,
  bit_or_low a b,
  bit_or-lt w (a / 2) (b / 2) (omega (arith, pow-succ' 2 w)) (omega (arith, pow-succ' 2 w)),
)

bit_and-le_fuel : (n a b : ℕ) → a ≤ n → bit_and a b ≤ a
bit_and-le_fuel n zero b p = omega (arith, bit_and-bitwise 0 b)
bit_and-le_fuel zero (suc a) b p = absurd (omega arith)
bit_and-le_fuel (suc n) (suc a) b p =
    omega (arith, bit_and_low (suc a) b, bit_and-le_fuel n (suc a / 2) (b / 2) (omega arith))

pub bit_and-le : (a b : ℕ) → bit_and a b ≤ a
bit_and-le a b = bit_and-le_fuel a a b (le_refl _)

le-bit_or_fuel : (n a b : ℕ) → a ≤ n → b ≤ n → (a ≤ bit_or a b) × (b ≤ bit_or a b)
le-bit_or_fuel zero a b p q = (omega arith, omega (arith, bit_or-bitwise a b))
le-bit_or_fuel (suc n) a b p q =
    let (l, r) = le-bit_or_fuel n (a / 2) (b / 2) (omega arith) (omega arith) in
    (omega (arith, bit_or_low a b, l), omega (arith, bit_or_low a b, r))

-- `|` clears no bit of either side.
pub le-bit_or : (a b : ℕ) → (a ≤ bit_or a b) × (b ≤ bit_or a b)
le-bit_or a b = le-bit_or_fuel (a + b) a b (omega arith) (omega arith)

pub pow_pos : (k : ℕ) → 0 < 2 ^ k
pow_pos zero = omega arith
pow_pos (suc k) = omega (arith, pow-succ' 2 k, pow_pos k)

pub bit-ones : (w j : ℕ) → j < w → bit j (2 ^ w - 1) ≡ 1
unfolding bit
bit-ones zero j p = elim p [ ]
bit-ones (suc w) zero p = omega (arith, pow-succ' 2 w, pow_pos w)
bit-ones (suc w) (suc j) p =
    let e : (2 ^ suc w - 1) / 2 ≡ 2 ^ w - 1 = omega (arith, pow-succ' 2 w, pow_pos w) in
    rw e (bit-ones w j (omega arith))

pub pow-lt : (w k : ℕ) → k < w → 2 ^ k < 2 ^ w
pow-lt w k p =
    omega (
      arith,
      pow-le-pow_right {n = 2} (omega arith) {i = suc k} {j = w} p,
      pow-succ' 2 k,
      pow_pos k,
    )

-- Every bit below `w` of ~(1 << k), for words of `w` bits, but bit `k`.
pub bit-mask : (w j k : ℕ) → j < w → k < w → bit j (2 ^ w - 1 - 2 ^ k) ≡ (if j == k then 0 else 1)
unfolding bit
bit-mask zero j k p q = elim p [ ]
bit-mask (suc w) zero zero p q = ground (arith, pow-succ' 2 w)
bit-mask (suc w) zero (suc k) p q = ground (arith, pow-succ' 2 w, pow-succ' 2 k, pow-lt w k)
bit-mask (suc w) (suc j) zero p q =
    let e : (2 ^ suc w - 1 - 2 ^ 0) / 2 ≡ 2 ^ w - 1 = omega (arith, pow-succ' 2 w, pow_pos w) in
    rw e (ground (arith, bit-ones w j))
bit-mask (suc w) (suc j) (suc k) p q =
    let e : (2 ^ suc w - 1 - 2 ^ suc k) / 2 ≡ 2 ^ w - 1 - 2 ^ k =
      omega (arith, pow-succ' 2 w, pow-succ' 2 k, pow-lt w k) in
    rw e (ground (arith, bit-mask w j k))

-- The test of a bit by a mask.
pub bit_and-pow : (k a : ℕ) → bit_and (2 ^ k) a ≡ bit k a * 2 ^ k
unfolding bit
bit_and-pow zero a = omega (arith, bit_and_low 1 a, bit_and-bitwise 0 (a / 2))
bit_and-pow (suc k) a =
    let e : 2 ^ suc k / 2 ≡ 2 ^ k = omega (arith, pow-succ' 2 k) in
    let f : 2 ^ suc k % 2 ≡ 0 = omega (arith, pow-succ' 2 k) in
    bit_and_low (2 ^ suc k) a
    ∙ rw (e, f) (simp (bit_and-pow k (a / 2), pow-succ' 2 k) (grind arith))

bit_and-zero_fuel : (n a : ℕ) → a ≤ n → bit_and a 0 ≡ 0
bit_and-zero_fuel n zero p = refl
bit_and-zero_fuel zero (suc a) p = absurd (omega arith)
bit_and-zero_fuel (suc n) (suc a) p =
    omega (arith, bit_and_low (suc a) 0, bit_and-zero_fuel n (suc a / 2) (omega arith))

pub bit_and-one : (a : ℕ) → bit_and a 1 ≡ a % 2
bit_and-one a = omega (arith, bit_and_low a 1, bit_and-zero_fuel (a / 2) (a / 2) (le_refl _))

bit_or-zero_fuel : (n a : ℕ) → a ≤ n → (bit_or a 0 ≡ a) × (bit_or 0 a ≡ a)
bit_or-zero_fuel n zero p = (refl, refl)
bit_or-zero_fuel zero (suc a) p = absurd (omega arith)
bit_or-zero_fuel (suc n) (suc a) p =
    let (l, r) = bit_or-zero_fuel n (suc a / 2) (omega arith) in
    (omega (arith, bit_or_low (suc a) 0, l), omega (arith, bit_or_low 0 (suc a), r))

twice : (a p : ℕ) → a * (2 * p) ≡ a * p * 2
twice a p = grind arith

-- Words without a common bit: those of the one stand above those of the other.
pub bit_or-add :
    (k a b : ℕ)
    → b < 2 ^ k
    → (bit_or (a * 2 ^ k) b ≡ a * 2 ^ k + b) × (bit_or b (a * 2 ^ k) ≡ a * 2 ^ k + b)
bit_or-add zero a b p =
    let (l, r) = bit_or-zero_fuel a a (le_refl _) in
    let z : b ≡ 0 = omega arith in
    let o : a * 2 ^ 0 ≡ a = omega arith in rw (z, o) (l ∙ omega arith, r ∙ omega arith)
bit_or-add (suc k) a b p =
    let (l, r) = bit_or-add k a (b / 2) (omega (arith, pow-succ' 2 k)) in
    let e : a * 2 ^ suc k ≡ a * 2 ^ k * 2 = ap (λ n. a * n) (pow-succ' 2 k) ∙ twice a (2 ^ k) in
    let h : a * 2 ^ k * 2 / 2 ≡ a * 2 ^ k = omega arith in
    let up = bit_or_low (a * 2 ^ k * 2) b in
    let up' = bit_or_low b (a * 2 ^ k * 2) in
    rw e (up ∙ rw (h, l) (omega arith), up' ∙ rw (h, r) (omega arith))

pub bit_and-pow_behind : (k a : ℕ) → bit_and a (2 ^ k) ≡ bit k a * 2 ^ k
unfolding bit
bit_and-pow_behind zero a = omega (arith, bit_and-one a)
bit_and-pow_behind (suc k) a =
    let e : 2 ^ suc k / 2 ≡ 2 ^ k = omega (arith, pow-succ' 2 k) in
    let f : 2 ^ suc k % 2 ≡ 0 = omega (arith, pow-succ' 2 k) in
    bit_and_low a (2 ^ suc k)
    ∙ rw (e, f) (simp (bit_and-pow_behind k (a / 2), pow-succ' 2 k) (grind arith))

-- A bit tested in its place.
pub flag-bit : (k b : ℕ) → b ≤ 1 → (if b * 2 ^ k == 0 then 0 else 1) ≡ b
flag-bit k zero p = ground arith
flag-bit k (suc zero) p = ground (arith, pow_pos k)
flag-bit k (suc (suc b)) p = absurd (omega arith)
