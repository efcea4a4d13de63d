-- ===== src/Resource/Stat/Files.antt =====
-- What get_cpu_time makes of a whole /proc/stat.
use libeos.Prelude.{
  ==_iff, ℕ, ◌+◌, ◌-◌, ◌≤◌, ◌<◌, ◌≡◌, refl, ap, ◌∙◌, length, Bool, true, false, ◌||◌, some, List,
  [], ◌∷◌, ◌++◌, All, leb, ◌==◌, if◌then◌else◌, inl, inr, Bool-cases, arith,
}
use mathlib.Core.List.{append_assoc}
use libeos.Resource.Text.{starts_with_cpu, skip_whitespace}
use libeos.Resource.Text.Numbers.{characters, IsEnd}
use libeos.Resource.Stat.{
  scan_fields, StatsCpu, lines, read_row, read_rows, clear_rows, get_cpu_time,
}
use libeos.Resource.Stat.RoundTrip.{Number, digits_of, IsNumber, columns, Reads, scan_fields-Reads}
use libeos.Resource.Stat.Rows.{row_read, read_rows-first, read_rows-behind_first}

abbrev pub has_break : List ℕ → Bool
has_break [] = false
has_break (c ∷ cs) = (c == b'\n') || has_break cs

-- A line without a break, short enough for the buffer, is what one call of fgets brings.
pub lines-line :
    (size room : ℕ) (l text : List ℕ)
    → has_break l ≡ false
    → length l < room
    → lines size room (l ++ b'\n' ∷ text) ≡ (l ++ b'\n' ∷ []) ∷ lines size size text
unfolding lines
lines-line size room [] text whole short = refl
lines-line size room (c ∷ cs) text whole short =
    let goes_on : ((c == b'\n') || leb room 1) ≡ false = ground arith in
    let rest = lines-line size (room - 1) cs text (ground arith) (omega arith) in
    rw (goes_on, rest) refl

-- The numbers of a line. Where the name has digits behind its first one, these are the first number,
-- with no blank before it: the code takes them for a counter.
abbrev pub fields : (long_name : Bool) → List Number → List ℕ → List ℕ
fields true [] more = more
fields true (n ∷ ns) more = characters (digits_of n) ++ columns ns more
fields false ns more = columns ns more

-- A line of /proc/stat: the character behind `cpu`, which is a blank for all processors together or
-- the first digit of one of them, nine numbers, and what stands behind them. In a line of `cpu10`
-- `long_name` is true, the first number is 0, the rest of the name, and the tenth counter is in
-- `more`.
pub record CpuLine : Type 0 where
  pub which : ℕ
  pub long_name : Bool
  pub numbers : List Number
  pub more : List ℕ

abbrev pub text_of : CpuLine → List ℕ
text_of l = b'c' ∷ b'p' ∷ b'u' ∷ l.which ∷ fields l.long_name l.numbers l.more

-- The processors' lines, and what follows.
abbrev pub stat_text : List CpuLine → List ℕ → List ℕ
stat_text [] rest = rest
stat_text (l ∷ ls) rest = text_of l ++ b'\n' ∷ stat_text ls rest

pub record IsCpuLine (l : CpuLine) : Type 0 where
  pub nine : length l.numbers ≡ 9
  pub are_numbers : All IsNumber l.numbers
  pub apart : IsEnd l.more
  pub one_line : has_break (text_of l) ≡ false
  pub fits : length (text_of l) < 1023

-- Line `k`, counted from 0.
abbrev pub numbers_at : List CpuLine → ℕ → List Number
numbers_at [] k = []
numbers_at (l ∷ ls) k = if k == 0 then l.numbers else numbers_at ls (k - 1)

columns-append :
    (ns : List Number) (more t : List ℕ) → columns ns more ++ t ≡ columns ns (more ++ t)
columns-append [] more t = refl
columns-append ((d, ds) ∷ ns) more t =
    append_assoc (b' ' ∷ characters (d ∷ ds)) (columns ns more) t
    ∙ ap (λ (u : List ℕ). (b' ' ∷ characters (d ∷ ds)) ++ u) (columns-append ns more t)

fields-append :
    (long_name : Bool) (ns : List Number) (more t : List ℕ)
    → fields long_name ns more ++ t ≡ fields long_name ns (more ++ t)
fields-append true [] more t = refl
fields-append true (n ∷ ns) more t =
    append_assoc (characters (digits_of n)) (columns ns more) t
    ∙ ap (λ (u : List ℕ). characters (digits_of n) ++ u) (columns-append ns more t)
fields-append false ns more t = columns-append ns more t

-- The blank before the first number makes no difference.
scan_fields-fields :
    (long_name : Bool) (ns : List Number) (more : List ℕ) (v : StatsCpu)
    → length ns ≡ 9
    → scan_fields 9 0 (fields long_name ns more) v ≡ scan_fields 9 0 (columns ns more) v
unfolding scan_fields skip_whitespace
scan_fields-fields true [] more v nine = absurd (omega arith)
scan_fields-fields true (n ∷ ns) more v nine = refl
scan_fields-fields false ns more v nine = refl

break-IsEnd : (more : List ℕ) → IsEnd more → IsEnd (more ++ b'\n' ∷ [])
break-IsEnd [] e = refl
break-IsEnd (c ∷ cs) e = e

Reads-subst : {ns ms : List Number} {v w : StatsCpu} → ms ≡ ns → w ≡ v → Reads ns v → Reads ms w
Reads-subst p q r = rw (p, q) r

module _ (max_cpu_num : ℕ) (stale : List ℕ) (few : max_cpu_num < 255) where
  row-Reads :
      (l : CpuLine) (v : StatsCpu)
      → IsCpuLine l
      → v ≡ (λ j. 0)
      → Reads l.numbers (read_row max_cpu_num stale (text_of l ++ b'\n' ∷ []) v)
  unfolding read_row
  row-Reads l v h clear =
      let same = fields-append l.long_name l.numbers l.more (b'\n' ∷ []) in
      let plain = scan_fields-fields l.long_name l.numbers (l.more ++ b'\n' ∷ []) (λ j. 0) h.nine in
      rw (clear, same, plain)
        (scan_fields-Reads l.numbers (l.more ++ b'\n' ∷ []) h.nine h.are_numbers
          (break-IsEnd l.more h.apart))

  starts : (l : CpuLine) (t : List ℕ) → starts_with_cpu (text_of l ++ t) ≡ true
  unfolding starts_with_cpu
  starts l t = refl

  rows-Read :
      (ls : List CpuLine) (rest : List ℕ) (num : ℕ) (sc : ℕ → StatsCpu) (k : ℕ)
      → num + length ls ≡ max_cpu_num + 1
      → All IsCpuLine ls
      → ((j : ℕ) → num ≤ j → j ≤ max_cpu_num → sc j ≡ (λ i. 0))
      → num ≤ k
      → k ≤ max_cpu_num
      → Reads
          (numbers_at ls (k - num))
          (read_rows max_cpu_num stale (lines 1023 1023 (stat_text ls rest)) num num sc k)
  rows-Read [] rest num sc k full h clear from to = absurd (omega arith)
  rows-Read (l ∷ ls) rest num sc k full (h, hs) clear from to =
      let line = text_of l ++ b'\n' ∷ [] in
      let behind = lines 1023 1023 (stat_text ls rest) in
      let split = lines-line 1023 1023 (text_of l) (stat_text ls rest) h.one_line h.fits in
      let found = starts l (b'\n' ∷ []) in
      let row = row_read max_cpu_num stale line num sc in
      let run = read_rows max_cpu_num stale (line ∷ behind) num num sc in
      rw split (elim (Bool-cases (k == num)) [
        | inl e ↦
            let here = (==_iff k num).0 e in
            let this : numbers_at (l ∷ ls) (k - num) ≡ l.numbers = ground arith in
            Reads-subst this
              (ap run here
                ∙ read_rows-first max_cpu_num stale line behind num sc found few (omega arith))
              (row-Reads l (sc num) h (clear num (omega arith) (omega arith)))
        | inr e ↦
            let on : num < k = ground arith in
            let index : k - num - 1 ≡ k - (num + 1) = omega arith in
            let this : numbers_at (l ∷ ls) (k - num) ≡ numbers_at ls (k - (num + 1)) =
              ground arith in
            Reads-subst this
              (ap (λ r. r k)
                (read_rows-behind_first max_cpu_num stale line behind num sc found few
                  (omega arith)))
              (rows-Read ls rest (num + 1) row k (omega arith) hs
                (λ j p q. ground (arith, clear j (omega arith) q)) (omega arith) to)
      ])

  -- For a file that begins with as many lines of `cpu` as there are rows, one more than processors
  -- and at most 255, with nine numbers below 2^64 behind the first character of the name (or the
  -- blank), and what may follow them: row `k` holds the numbers of line `k`, and at GLOBAL_UPTIME the
  -- sum of the first eight, cut to 64 bits. In the line of `cpu10` and above the further digits of
  -- the name count as the first number.
  pub get_cpu_time-Reads :
      (ls : List CpuLine) (rest : List ℕ) (sc : ℕ → StatsCpu) (k : ℕ)
      → length ls ≡ max_cpu_num + 1
      → All IsCpuLine ls
      → k ≤ max_cpu_num
      → Reads (numbers_at ls k) (get_cpu_time max_cpu_num stale (some (stat_text ls rest)) sc k)
  unfolding get_cpu_time
  get_cpu_time-Reads ls rest sc k full h to =
      let index : k ≡ k - 0 = omega arith in
      Reads-subst (ap (numbers_at ls) index) refl (
        rows-Read ls rest 0 (clear_rows max_cpu_num stale sc) k (omega arith) h
          (λ j p q. ground arith) (omega arith) to)
