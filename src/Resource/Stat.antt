-- ===== src/Resource/Stat.antt =====
-- get_cpu_time of eos_lib/eos_lib/eos_get_sys_resoure.cpp: the counters in /proc/stat.
pub mod RoundTrip
pub mod Rows
pub mod Files
use libeos.Prelude.{
  Bool, true, false, ℕ, zero, suc, ◌+◌, ◌-◌, ◌%◌, ◌^◌, ◌&&◌, ◌||◌, Option, none, some, List, [],
  ◌∷◌, ltb, leb, ◌==◌, if◌then◌else◌,
}
use libeos.Resource.Text.{starts_with_cpu, skip_whitespace, skip_non_whitespace, scan_llu}

-- The enumeration of the counters: STATS_CPU_USER, _NICE, _SYSTEM, _IDLE, _IOWAIT, _IRQ, _SOFTIRQ,
-- _STEAL and _GUEST are 0 to 8.
abbrev pub stats_cpu_idle : ℕ
stats_cpu_idle = 3

abbrev pub stats_cpu_guest : ℕ
stats_cpu_guest = 8

abbrev pub global_uptime : ℕ
global_uptime = 9

-- The `vector` of stats_cpu_t, by index.
abbrev pub StatsCpu : Type 0
StatsCpu = ℕ → ℕ

abbrev pub put : ℕ → ℕ → StatsCpu → StatsCpu
put i x v j = if j == i then x else v j

abbrev pub put_scanned : ℕ → Option ℕ → StatsCpu → StatsCpu
put_scanned i none v = v
put_scanned i (some x) v = put i x v

-- sc->vector[GLOBAL_UPTIME] += sc->vector[i];
abbrev pub sum_up : ℕ → StatsCpu → StatsCpu
sum_up i v =
    if i == stats_cpu_guest then v else put global_uptime ((v global_uptime + v i) % 2 ^ 64) v

-- The loop over the counters, `rounds` of it from counter `i` on.
unfoldable pub scan_fields : (rounds i : ℕ) → List ℕ → StatsCpu → StatsCpu
unfolding skip_whitespace skip_non_whitespace scan_llu
scan_fields zero i ibuf v = v
scan_fields (suc rounds) i ibuf v =
    let at = skip_whitespace ibuf in
    scan_fields rounds (i + 1) (skip_non_whitespace at) (sum_up i (put_scanned i (scan_llu at) v))

-- buf + 4; behind a line of three characters, what an earlier line left in the buffer.
abbrev pub behind_name : (stale line : List ℕ) → List ℕ
behind_name stale (a ∷ b ∷ c ∷ d ∷ rest) = rest
behind_name stale line = stale

-- A character that ends its part, or that goes on with the part behind it.
abbrev pub with_part : (ends : Bool) (c : ℕ) → List (List ℕ) → List (List ℕ)
with_part true c ls = (c ∷ []) ∷ ls
with_part false c [] = (c ∷ []) ∷ []
with_part false c (l ∷ ls) = (c ∷ l) ∷ ls

-- What the calls of fgets on a buffer for `size` characters bring in turn: parts that end with a
-- line feed, or after as many characters as the buffer has room for.
unfoldable pub lines : (size room : ℕ) → List ℕ → List (List ℕ)
lines size room [] = []
lines size room (c ∷ cs) =
    let ends = (c == b'\n') || leb room 1 in
    with_part ends c (lines size (if ends then size else room - 1) cs)

module _ (max_cpu_num : ℕ) (stale : List ℕ) where
  unfoldable pub read_row : List ℕ → StatsCpu → StatsCpu
  unfolding scan_fields
  read_row line v = scan_fields 9 0 (behind_name stale line) v

  abbrev pub put_row : ℕ → StatsCpu → (ℕ → StatsCpu) → ℕ → StatsCpu
  put_row k v sc j = if j == k then v else sc j

  -- The loop over the lines; `num` is an `unsigned char`, and row `k` the one that `sc` points to.
  unfoldable pub read_rows : List (List ℕ) → (num k : ℕ) → (ℕ → StatsCpu) → ℕ → StatsCpu
  read_rows [] num k sc = sc
  read_rows (line ∷ rest) num k sc =
      let found = starts_with_cpu line in
      let num' = if found then (num + 1) % 256 else num in
      let sc' = if found then put_row k (read_row line (sc k)) sc else sc in
      let others = read_rows rest num' (if found then k + 1 else k) sc' in
      if found && leb (max_cpu_num + 1) num' then sc' else others

  -- memset(sc, 0, sizeof(*sc) * (BMU_MAX_CPU_NUM + 1));
  abbrev pub clear_rows : (ℕ → StatsCpu) → ℕ → StatsCpu
  clear_rows sc k = if ltb k (max_cpu_num + 1) then (λ j. 0) else sc k

  -- `stat` is the text of /proc/stat, or `none` where it cannot be opened.
  unfoldable pub get_cpu_time : Option (List ℕ) → (ℕ → StatsCpu) → ℕ → StatsCpu
  get_cpu_time none sc = sc
  get_cpu_time (some stat) sc = read_rows (lines 1023 1023 stat) 0 0 (clear_rows sc)
