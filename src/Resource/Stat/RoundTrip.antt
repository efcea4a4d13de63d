-- ===== src/Resource/Stat/RoundTrip.antt =====
-- A line of /proc/stat, and the counters that the code reads of it.
use libeos.Prelude.{
  ap, sym, some, Bool-cases, ℕ, suc, ◌+◌, ◌-◌, ◌%◌, ◌^◌, ◌<◌, ◌≡◌, ◌≢◌, refl, ◌∙◌, length, List, [],
  ◌∷◌, ◌++◌, All, ◌==◌, ltb, leb, ◌||◌, if◌then◌else◌, arith,
}
use libeos.Resource.Text.{scan_llu, skip_whitespace, skip_non_whitespace}
use libeos.Resource.Text.Numbers.{
  characters, IsDigit, value, IsEnd, scan_llu-characters, skip_whitespace-characters,
  skip_non_whitespace-characters,
}
use libeos.Resource.Stat.{StatsCpu, put, sum_up, scan_fields, global_uptime}

-- A number of one digit and more digits.
abbrev pub Number : Type 0
Number = ℕ × List ℕ

abbrev pub digits_of : Number → List ℕ
digits_of (d, ds) = d ∷ ds

abbrev pub number_of : Number → ℕ
number_of n = value 0 (digits_of n)

abbrev pub IsNumber : Number → Type 0
IsNumber n = All IsDigit (digits_of n) × (number_of n < 2 ^ 64)

-- Numbers with a space before each, and what stands behind them.
abbrev pub columns : List Number → List ℕ → List ℕ
columns [] rest = rest
columns (n ∷ ns) rest = b' ' ∷ (characters (digits_of n) ++ columns ns rest)

columns-IsEnd : (ns : List Number) (rest : List ℕ) → IsEnd rest → IsEnd (columns ns rest)
columns-IsEnd [] rest e = e
columns-IsEnd (n ∷ ns) rest e = refl

-- Number `i`, counted from 0.
abbrev pub nth : List Number → ℕ → ℕ
nth [] i = 0
nth (n ∷ ns) i = if i == 0 then number_of n else nth ns (i - 1)

abbrev pub sum_of_first : ℕ → List Number → ℕ
sum_of_first k [] = 0
sum_of_first k (n ∷ ns) = if k == 0 then 0 else number_of n + sum_of_first (k - 1) ns

-- The row after `ns` are stored from counter `i` on.
stored : ℕ → List Number → StatsCpu → StatsCpu
stored i [] v = v
stored i (n ∷ ns) v = stored (i + 1) ns (sum_up i (put i (number_of n) v))

skip_space : (t : List ℕ) → skip_whitespace (b' ' ∷ t) ≡ skip_whitespace t
unfolding skip_whitespace
skip_space t = refl

scan_fields-step :
    (rounds i : ℕ) (v : StatsCpu) (ibuf : List ℕ) {at behind : List ℕ} {x : ℕ}
    → skip_whitespace ibuf ≡ at
    → scan_llu at ≡ some x
    → skip_non_whitespace at ≡ behind
    → scan_fields (suc rounds) i ibuf v ≡ scan_fields rounds (i + 1) behind (sum_up i (put i x v))
unfolding scan_fields
scan_fields-step rounds i v ibuf a b c = rw (a, b, c) refl

scan_fields-stored :
    (i : ℕ) (ns : List Number) (rest : List ℕ) (v : StatsCpu)
    → All IsNumber ns
    → IsEnd rest
    → scan_fields (length ns) i (columns ns rest) v ≡ stored i ns v
unfolding scan_fields stored
scan_fields-stored i [] rest v h e = refl
scan_fields-stored i ((d, ds) ∷ ns) rest v (((h, hs), small), others) e =
    let behind = columns ns rest in
    let ends = columns-IsEnd ns rest e in
    scan_fields-step (length ns) i v (b' ' ∷ (characters (d ∷ ds) ++ behind))
      (skip_space (characters (d ∷ ds) ++ behind) ∙ skip_whitespace-characters d ds behind h)
      (scan_llu-characters d ds behind (h, hs) ends small)
      (skip_non_whitespace-characters (d ∷ ds) behind (h, hs) ends)
    ∙ scan_fields-stored (i + 1) ns rest _ others e

stored-nth :
    (i : ℕ) (ns : List Number) (v : StatsCpu) (j : ℕ)
    → i + length ns ≡ global_uptime
    → j ≢ global_uptime
    → stored i ns v j ≡ (if ltb j i || leb global_uptime j then v j else nth ns (j - i))
unfolding stored
stored-nth i [] v j full other = ground arith
stored-nth i (n ∷ ns) v j full other =
    ground (arith, stored-nth (i + 1) ns (sum_up i (put i (number_of n) v)) j)

sum_of_first-zero : (ns : List Number) → sum_of_first 0 ns ≡ 0
sum_of_first-zero [] = refl
sum_of_first-zero (n ∷ ns) = refl

stored-sum :
    (i : ℕ) (ns : List Number) (v : StatsCpu)
    → i + length ns ≡ global_uptime
    → v global_uptime < 2 ^ 64
    → stored i ns v global_uptime ≡ (v global_uptime + sum_of_first (8 - i) ns) % 2 ^ 64
unfolding stored
stored-sum i [] v full small = ground arith
stored-sum i (n ∷ ns) v full small =
    let w = sum_up i (put i (number_of n) v) in
    let small' : w global_uptime < 2 ^ 64 = ground arith in
    let others = stored-sum (i + 1) ns w (omega arith) small' in
    let nothing = sum_of_first-zero ns in let a = Bool-cases (i == 8) in ground arith

-- The row of nine numbers: each counter, and the sum of all but the last at GLOBAL_UPTIME.
abbrev pub Reads : List Number → StatsCpu → Type 0
Reads ns v =
    ((i : ℕ) → i < global_uptime → v i ≡ nth ns i) × (v global_uptime ≡ sum_of_first 8 ns % 2 ^ 64)

pub scan_fields-Reads :
    (ns : List Number) (rest : List ℕ)
    → length ns ≡ 9
    → All IsNumber ns
    → IsEnd rest
    → Reads ns (scan_fields 9 0 (columns ns rest) (λ j. 0))
scan_fields-Reads ns rest nine h e =
    let it =
      ap (λ r. scan_fields r 0 (columns ns rest) (λ j. 0)) (sym nine)
      ∙ scan_fields-stored 0 ns rest (λ j. 0) h e in
    rw it (
      λ i small. ground (arith, stored-nth 0 ns (λ j. 0) i),
      omega (arith, stored-sum 0 ns (λ j. 0) (omega arith) (omega arith)),
    )
