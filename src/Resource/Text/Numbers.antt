-- ===== src/Resource/Text/Numbers.antt =====
-- The text of the names and the numbers that the code looks for, and what it reads of it.
use Prim.Native.Nat.{bit_or}
use libeos.Prelude.{
  ap, ◌∙◌, ℕ, ◌+◌, ◌-◌, ==_iff, ◌==◌, ltb, ◌*◌, ◌<◌, ◌^◌, ◌≡◌, ◌↔◌, refl, true, false, some, List,
  [], ◌∷◌, ◌++◌, All, arith, le-bit_or,
}
use libeos.Resource.Text.{
  starts_with_cpu, skip_whitespace, skip_non_whitespace, is_whitespace, is_digit, char_at,
  digits_from, unsigned_at, convert, scan_llu,
}

abbrev pub IsByte : ℕ → Type 0
IsByte c = c < 256

or-zero : (a b : ℕ) → bit_or a b ≡ 0 → (a ≡ 0) × (b ≡ 0)
or-zero a b h = let (l, r) = le-bit_or a b in (omega arith, omega arith)

char_at-lt : (str : List ℕ) (i : ℕ) → All IsByte str → char_at str i < 256
char_at-lt [] i h = omega arith
char_at-lt (c ∷ cs) i (h, hs) = ground (arith, char_at-lt cs (i - 1) hs)

-- The test on a line's first characters.
pub starts_with_cpu_iff :
    (str : List ℕ)
    → All IsByte str
    → (starts_with_cpu str ≡ true)
      ↔ ((char_at str 0 ≡ b'c') × (char_at str 1 ≡ b'p') × (char_at str 2 ≡ b'u'))
unfolding starts_with_cpu
starts_with_cpu_iff str bytes =
    let a = char_at-lt str 0 bytes in
    let b = char_at-lt str 1 bytes in
    let c = char_at-lt str 2 bytes in
    (
      λ h.
          let (ab, z) = or-zero _ _ ((==_iff _ 0).0 h) in
          let (x, y) = or-zero _ _ ab in (omega arith, omega arith, omega arith),
      λ (x, y, z). rw (x, y, z) refl,
    )

-- The characters of a number's digits.
abbrev pub characters : List ℕ → List ℕ
characters [] = []
characters (d ∷ ds) = (b'0' + d) ∷ characters ds

abbrev pub IsDigit : ℕ → Type 0
IsDigit d = d < 10

-- The number that digits stand for, the first the highest, behind those of `acc`.
unfoldable pub value : ℕ → List ℕ → ℕ
value acc [] = acc
value acc (d ∷ ds) = value (acc * 10 + d) ds

-- Text that no digit begins, and no other character but white space: nothing, or white space.
abbrev pub IsEnd : List ℕ → Type 0
IsEnd [] = Unit
IsEnd (c ∷ cs) = is_whitespace c ≡ true

pub digits_from-characters :
    (acc : ℕ) (ds rest : List ℕ)
    → All IsDigit ds
    → IsEnd rest
    → digits_from acc (characters ds ++ rest) ≡ value acc ds
unfolding digits_from value
digits_from-characters acc [] [] h e = refl
digits_from-characters acc [] (c ∷ cs) h e = ground arith
digits_from-characters acc (d ∷ ds) rest (h, hs) e =
    ground (arith, digits_from-characters (acc * 10 + d) ds rest hs e)

pub skip_non_whitespace-characters :
    (ds rest : List ℕ)
    → All IsDigit ds
    → IsEnd rest
    → skip_non_whitespace (characters ds ++ rest) ≡ rest
unfolding skip_non_whitespace
skip_non_whitespace-characters [] [] h e = refl
skip_non_whitespace-characters [] (c ∷ cs) h e = ground arith
skip_non_whitespace-characters (d ∷ ds) rest (h, hs) e =
    ground (arith, skip_non_whitespace-characters ds rest hs e)

pub skip_whitespace-characters :
    (d : ℕ) (ds rest : List ℕ)
    → IsDigit d
    → skip_whitespace (characters (d ∷ ds) ++ rest) ≡ characters (d ∷ ds) ++ rest
unfolding skip_whitespace
skip_whitespace-characters d ds rest h = ground arith

-- A digit is no sign.
pub digit-sign : (d : ℕ) → IsDigit d → ((b'0' + d == b'-') ≡ false) × ((b'0' + d == b'+') ≡ false)
digit-sign d h = (ground arith, ground arith)

pub unsigned_at-characters :
    (d : ℕ) (ds rest : List ℕ)
    → All IsDigit (d ∷ ds)
    → IsEnd rest
    → unsigned_at (characters (d ∷ ds) ++ rest) ≡ some (value 0 (d ∷ ds))
unfolding value
unsigned_at-characters d ds rest (h, hs) e =
    let first : 0 * 10 + d ≡ d = omega arith in
    let same : b'0' + d - b'0' ≡ d = omega arith in
    let digit : is_digit (b'0' + d) ≡ true = ground arith in
    rw (digit, same, first) (ap some (digits_from-characters d ds rest hs e))

-- sscanf brings back a number that 64 bits hold from its digits.
pub scan_llu-characters :
    (d : ℕ) (ds rest : List ℕ)
    → All IsDigit (d ∷ ds)
    → IsEnd rest
    → value 0 (d ∷ ds) < 2 ^ 64
    → scan_llu (characters (d ∷ ds) ++ rest) ≡ some (value 0 (d ∷ ds))
unfolding scan_llu
scan_llu-characters d ds rest (h, hs) e small =
    let at_digit = skip_whitespace-characters d ds rest h in
    let (no_minus, no_plus) = digit-sign d h in
    let read = unsigned_at-characters d ds rest (h, hs) e in
    let fits : ltb (value 0 (d ∷ ds)) (2 ^ 64) ≡ true = ground arith in
    rw (at_digit, no_minus, no_plus) (ap (convert 64 false) read ∙ rw fits refl)
