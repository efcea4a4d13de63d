-- ===== src/Resource/Text.antt =====
-- Reading numbers out of text, in eos_lib/eos_lib/eos_get_sys_resoure.cpp. A C string is the list of
-- its characters, as numbers; where the list ends, the code finds the character 0.
pub mod Numbers
use Prim.Native.Nat.{bit_or}
use libeos.Prelude.{
  ℕ, ◌+◌, ◌-◌, ◌*◌, ◌%◌, ◌^◌, Bool, true, false, not, ◌&&◌, ◌||◌, Option, none, some, List, [], ◌∷◌,
  ltb, leb, ◌==◌, if◌then◌else◌,
}

-- str[i]
abbrev pub char_at : List ℕ → ℕ → ℕ
char_at [] i = 0
char_at (c ∷ cs) i = if i == 0 then c else char_at cs (i - 1)

-- x - y, as the bits of an `int`
abbrev pub int_sub : ℕ → ℕ → ℕ
int_sub x y = (x + 2 ^ 32 - y) % 2 ^ 32

unfoldable pub starts_with_cpu : List ℕ → Bool
starts_with_cpu str =
    bit_or (bit_or (int_sub (char_at str 0) b'c') (int_sub (char_at str 1) b'p'))
      (int_sub (char_at str 2) b'u')
    == 0

-- *str == ' ' || (unsigned char)(*str - 9) <= (13 - 9)
abbrev pub is_whitespace : ℕ → Bool
is_whitespace c = (c == b' ') || leb ((c + 256 - 9) % 256) (13 - 9)

unfoldable pub skip_whitespace : List ℕ → List ℕ
skip_whitespace [] = []
skip_whitespace (c ∷ cs) = if is_whitespace c then skip_whitespace cs else c ∷ cs

-- *str != '\0' && *str != ' ' && (unsigned char)(*str - 9) > (13 - 9)
abbrev pub is_other : ℕ → Bool
is_other c = not (c == 0) && not (c == b' ') && ltb (13 - 9) ((c + 256 - 9) % 256)

unfoldable pub skip_non_whitespace : List ℕ → List ℕ
skip_non_whitespace [] = []
skip_non_whitespace (c ∷ cs) = if is_other c then skip_non_whitespace cs else c ∷ cs

abbrev pub is_digit : ℕ → Bool
is_digit c = leb b'0' c && leb c b'9'

-- The number that the digits at the front go on with.
unfoldable pub digits_from : ℕ → List ℕ → ℕ
digits_from acc [] = acc
digits_from acc (c ∷ cs) = if is_digit c then digits_from (acc * 10 + (c - b'0')) cs else acc

abbrev pub unsigned_at : List ℕ → Option ℕ
unsigned_at [] = none
unsigned_at (c ∷ cs) = if is_digit c then some (digits_from (c - b'0') cs) else none

-- A number that the conversion cannot hold becomes the largest that it can, which a minus sign
-- leaves.
abbrev pub saturated : (width : ℕ) (negative : Bool) → ℕ → ℕ
saturated width negative n =
    if ltb n (2 ^ width) then if negative then (2 ^ width - n) % 2 ^ width else n else 2 ^ width - 1

abbrev pub convert : (width : ℕ) (negative : Bool) → Option ℕ → Option ℕ
convert width negative none = none
convert width negative (some n) = some (saturated width negative n)

abbrev pub signed_at : ℕ → List ℕ → Option ℕ
signed_at width [] = none
signed_at width (c ∷ cs) =
    if c == b'-'
    then convert width true (unsigned_at cs)
    else if c == b'+'
    then convert width false (unsigned_at cs)
    else convert width false (unsigned_at (c ∷ cs))

-- sscanf(str, "%llu", …), which stores nothing where no number stands.
unfoldable pub scan_llu : List ℕ → Option ℕ
unfolding skip_whitespace digits_from
scan_llu str = signed_at 64 (skip_whitespace str)
