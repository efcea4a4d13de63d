-- ===== src/Resource/Tests.antt =====
-- The theorems on the resource queries at concrete inputs.
use Prim.Native.Char.{code}
use Prim.Native.String.{String}
use libeos.Prelude.{
  true, none, ◌+◌, Bool, length, ◌≤◌, ◌<◌, All, false, ℕ, ◌-◌, ◌*◌, ◌/◌, ◌≡◌, refl, pos, some, List,
  [], ◌∷◌, arith,
}
use libeos.Resource.Text.Numbers.{value}
use libeos.Resource.Text.{
  starts_with_cpu, scan_llu, skip_whitespace, skip_non_whitespace, digits_from,
}
use libeos.Resource.Stat.{
  read_rows, read_row, lines, behind_name, scan_fields, StatsCpu, get_cpu_time,
}
use libeos.Resource.Stat.RoundTrip.{Number, IsNumber, Reads}
use libeos.Resource.Stat.Rows.{get_cpu_time-behind}
use libeos.Resource.Stat.Files.{
  CpuLine, has_break, text_of, IsCpuLine, stat_text, get_cpu_time-Reads,
}
use libeos.Resource.Load.{
  Floats, overflow_safe_sub, overflow_safe_sub_lem, eos_get_cpu_info, usage, percent_value,
  get_interval,
}
use libeos.Resource.Load.Info.{busy, result_at, Advances, eos_get_cpu_info_lem}
use libeos.Resource.Disk.{Mounts, eos_get_disk_info}
use libeos.Resource.Disk.Shares.{eos_get_disk_info_lem}
use libeos.Resource.Memory.{eos_get_mem_info_ls1021}
use libeos.Resource.Memory.Shares.{printed, eos_get_mem_info_ls1021_lem}

-- The characters of a text.
abbrev codes : String → List ℕ
codes String.[] = []
codes (String.◌∷◌ c s) = code c ∷ codes s

-- Whole numbers in the place of `float` and `double`.
abbrev whole : Floats ℕ ℕ
whole = record {
  double_of = λ n. n;
  double_div = λ a b. a / b;
  double_mul = λ a b. a * b;
  float_of = λ n. n;
  float_sub = λ a b. a - b;
  float_mul = λ a b. a * b;
  float_div = λ a b. a / b;
  narrow = λ n. n;
  to_int = pos;
}

-- The numbers 1 to 9, with 2n for the fourth.
abbrev nine_of : ℕ → List Number
nine_of n =
    (1, [])
    ∷ (2, [])
    ∷ (3, [])
    ∷ (n, 0 ∷ [])
    ∷ (5, [])
    ∷ (6, [])
    ∷ (7, 7 ∷ 7 ∷ [])
    ∷ (8, [])
    ∷ (9, [])
    ∷ []

abbrev line_of : (long_name : Bool) (which n : ℕ) → CpuLine
line_of long_name which n = record {
  which = which;
  long_name = long_name;
  numbers = nine_of n;
  more = b' ' ∷ b'0' ∷ [];
}

-- The lines of `cpu` and of `cpu0`, and of `cpu` and of `cpu11`.
abbrev earlier : List CpuLine
earlier = line_of false b' ' 2 ∷ line_of false b'0' 1 ∷ []

abbrev later : List CpuLine
later = line_of false b' ' 4 ∷ line_of false b'0' 3 ∷ []

abbrev eleventh : List CpuLine
eleventh = line_of false b' ' 2 ∷ line_of true b'1' 1 ∷ []

abbrev intr : List ℕ
intr = b'i' ∷ b'n' ∷ b't' ∷ b'r' ∷ b' ' ∷ b'5' ∷ b'\n' ∷ []

nine_of-IsNumber : (n : ℕ) → n < 10 → All IsNumber (nine_of n)
unfolding value
nine_of-IsNumber n small = (
  ((omega arith, tt), omega arith),
  (
    ((omega arith, tt), omega arith),
    (
      ((omega arith, tt), omega arith),
      (
        ((small, (omega arith, tt)), omega arith),
        (
          ((omega arith, tt), omega arith),
          (
            ((omega arith, tt), omega arith),
            (
              ((omega arith, (omega arith, (omega arith, tt))), omega arith),
              (((omega arith, tt), omega arith), (((omega arith, tt), omega arith), tt)),
            ),
          ),
        ),
      ),
    ),
  ),
)

line_of-IsCpuLine :
    (long_name : Bool) (which n : ℕ)
    → n < 10
    → has_break (text_of (line_of long_name which n)) ≡ false
    → length (text_of (line_of long_name which n)) < 1023
    → IsCpuLine (line_of long_name which n)
line_of-IsCpuLine long_name which n small whole short = record {
  nine = refl;
  are_numbers = nine_of-IsNumber n small;
  apart = refl;
  one_line = whole;
  fits = short;
}

earlier-IsCpuLine : All IsCpuLine earlier
earlier-IsCpuLine = (
  line_of-IsCpuLine false b' ' 2 (omega arith) refl (omega arith),
  (line_of-IsCpuLine false b'0' 1 (omega arith) refl (omega arith), tt),
)

later-IsCpuLine : All IsCpuLine later
later-IsCpuLine = (
  line_of-IsCpuLine false b' ' 4 (omega arith) refl (omega arith),
  (line_of-IsCpuLine false b'0' 3 (omega arith) refl (omega arith), tt),
)

eleventh-IsCpuLine : All IsCpuLine eleventh
eleventh-IsCpuLine = (
  line_of-IsCpuLine false b' ' 2 (omega arith) refl (omega arith),
  (line_of-IsCpuLine true b'1' 1 (omega arith) refl (omega arith), tt),
)

abbrev no_rows : ℕ → StatsCpu
no_rows k j = 7

get_cpu_time-Reads_example :
    Reads (nine_of 1) (get_cpu_time 1 [] (some (stat_text eleventh intr)) no_rows 1)
get_cpu_time-Reads_example =
    get_cpu_time-Reads 1 [] (omega arith) eleventh intr no_rows 1 refl eleventh-IsCpuLine
      (omega arith)

get_cpu_time-behind_example : get_cpu_time 1 [] (some (stat_text later intr)) no_rows 2 ≡ no_rows 2
get_cpu_time-behind_example =
    get_cpu_time-behind 1 [] (some (stat_text later intr)) no_rows 2 (omega arith) (omega arith)

-- One processor, whose third and fourth results and fifth are what the array held; and the arrays of
-- two rows overrun by two processors.
cpu_info_runs :
    (eos_get_cpu_info whole 2 1 []
        (some (stat_text earlier intr))
        (some (stat_text later intr))
        no_rows
        no_rows
        (λ i. 7)
      ≡ some (pos 0, pos 0 ∷ pos 0 ∷ pos 70 ∷ pos 70 ∷ pos 70 ∷ []))
    × (eos_get_cpu_info whole 2 2 [] none none no_rows no_rows (λ i. 7) ≡ none)
unfolding eos_get_cpu_info usage percent_value get_cpu_time read_rows lines starts_with_cpu read_row
    get_interval
cpu_info_runs = (refl, refl)

-- Between the two looks the idle counter of the first line moves on by 20, and all counters together by 20.
later-Advances : Advances (nine_of 2) (nine_of 4)
unfolding value
later-Advances = record {
  idle_grows = omega arith;
  idle_small = omega arith;
  time_passes = omega arith;
  no_wrap = omega arith;
}

eos_get_cpu_info_lem_example :
    result_at 0 (
      eos_get_cpu_info whole 2 1 []
        (some (stat_text earlier intr))
        (some (stat_text later intr))
        no_rows
        no_rows
        (λ i. 7))
    ≡ some (pos 0, some (busy whole 20 20))
unfolding value
eos_get_cpu_info_lem_example =
    eos_get_cpu_info_lem whole 2 1 [] earlier later intr intr no_rows no_rows (λ i. 7) 0
      (omega arith) (omega arith) refl refl earlier-IsCpuLine later-IsCpuLine (omega arith)
      later-Advances

overflow_safe_sub_lem_example :
    (overflow_safe_sub 0x1_0000_0000_0000 0x1_0000_0000_0064 ≡ 100)
    × (overflow_safe_sub 0xffff_ffff 0x63 ≡ 100)
overflow_safe_sub_lem_example =
    overflow_safe_sub_lem 0x1_0000_0000_0000 100 0xffff_ffff 100 (omega arith) (omega arith)
      (omega arith) (omega arith)

-- The second directory is a mount, the first is not. The world counts the questions.
abbrev two_mounts : Mounts ℕ
two_mounts = record {
  read_mtab = λ w. (some ("/" ∷ "/mnt/sddisk" ∷ []), w + 1);
  statfs = λ name w. (some (record { f_blocks = 100; f_bfree = 40; f_bavail = 30 }), w + 1);
}

eos_get_disk_info_lem_example :
    (eos_get_disk_info whole 32 two_mounts "/media" 0).0 ≡ (pos 0, some (pos 670))
eos_get_disk_info_lem_example =
    eos_get_disk_info_lem whole 32 two_mounts (some ("/" ∷ "/mnt/sddisk" ∷ []))
      (λ name. some (record { f_blocks = 100; f_bfree = 40; f_bavail = 30 })) (λ w. refl)
      (λ name w. refl) "/media" 0

eos_get_mem_info_ls1021_lem_example :
    (eos_get_mem_info_ls1021 32
        (some (printed (1, 0 ∷ 0 ∷ 0 ∷ [])))
        (some (printed (2, 5 ∷ 0 ∷ [])))
        (some (pos 9))
      ≡ some (pos 0, some (pos 750)))
    × (750 ≤ 1000)
    × (eos_get_mem_info_ls1021 32 (some (printed (1, 0 ∷ 0 ∷ 0 ∷ []))) (some []) (some (pos 9))
        ≡ some (pos 0, some (pos 0)))
unfolding value
eos_get_mem_info_ls1021_lem_example =
    eos_get_mem_info_ls1021_lem 32 (1, 0 ∷ 0 ∷ 0 ∷ []) (2, 5 ∷ 0 ∷ []) (pos 9)
      ((omega arith, (omega arith, (omega arith, (omega arith, tt)))), omega arith, omega arith)
      ((omega arith, (omega arith, (omega arith, tt))), omega arith, omega arith) (omega arith)
      (omega arith) (omega arith)

-- Runs: what sscanf makes of text, of a number with a sign, and of one that is too large.
scan_llu_runs :
    (scan_llu (codes " 42 x") ≡ some 42)
    × (scan_llu (codes "-1") ≡ some 0xffff_ffff_ffff_ffff)
    × (scan_llu (codes "18446744073709551617") ≡ some 0xffff_ffff_ffff_ffff)
    × (scan_llu (codes "x") ≡ none)
unfolding scan_llu skip_whitespace digits_from
scan_llu_runs = (refl, refl, refl, refl)

-- The name of a tenth processor leaves its last digit, which becomes the first counter.
cpu10_run :
    let row = scan_fields 9 0 (behind_name [] (codes "cpu10 7 8 9 10 11 12 13 14 15")) (λ j. 0) in
    (row 0 ≡ 0) × (row 1 ≡ 7) × (row 3 ≡ 9)
unfolding scan_fields skip_whitespace skip_non_whitespace scan_llu digits_from
cpu10_run = (refl, refl, refl)

-- A line that is longer than the buffer comes in parts.
lines_run : lines 3 3 (codes "abcd\nef") ≡ codes "abc" ∷ codes "d\n" ∷ codes "ef" ∷ []
unfolding lines
lines_run = refl
