-- ===== src/Resource/Load/Info.antt =====
-- What eos_get_cpu_info shows of two looks at /proc/stat.
use libeos.Prelude.{
  ℕ, zero, suc, ◌+◌, ◌-◌, ◌^◌, ◌≤◌, ◌<◌, ◌≡◌, refl, ap, ◌∙◌, length, true, false, ℤ, pos, Option,
  none, some, List, [], ◌∷◌, ◌||◌, All, ltb, if◌then◌else◌, arith,
}
use libeos.Resource.Stat.{StatsCpu, stats_cpu_idle, global_uptime, get_cpu_time}
use libeos.Resource.Stat.RoundTrip.{Number, nth, sum_of_first, Reads}
use libeos.Resource.Stat.Files.{CpuLine, IsCpuLine, stat_text, numbers_at, get_cpu_time-Reads}
use libeos.Resource.Load.{
  Floats, get_interval, overflow_safe_sub, percent_value, usage, eos_get_cpu_info,
}

-- What a call returned, and the result `k` that it left.
abbrev pub entry : List ℤ → ℕ → Option ℤ
entry [] k = none
entry (x ∷ xs) zero = some x
entry (x ∷ xs) (suc k) = entry xs k

abbrev pub result_at : ℕ → Option (ℤ × List ℤ) → Option (ℤ × Option ℤ)
result_at k none = none
result_at k (some (ret, xs)) = some (ret, entry xs k)

five :
    (out : ℕ → ℤ) (k : ℕ)
    → k < 5
    → entry (out 0 ∷ out 1 ∷ out 2 ∷ out 3 ∷ out 4 ∷ []) k ≡ some (out k)
five out zero small = refl
five out (suc zero) small = refl
five out (suc (suc zero)) small = refl
five out (suc (suc (suc zero))) small = refl
five out (suc (suc (suc (suc zero)))) small = refl
five out (suc (suc (suc (suc (suc k))))) small = absurd (omega arith)

-- From one line to a later one no counter wraps, and some time passes.
pub record Advances (old new : List Number) : Type 0 where
  pub idle_grows : nth old stats_cpu_idle ≤ nth new stats_cpu_idle
  pub idle_small : nth new stats_cpu_idle < 2 ^ 63
  pub time_passes : sum_of_first 8 old < sum_of_first 8 new
  pub no_wrap : sum_of_first 8 new < 2 ^ 64

module _ {Float Double : Type 0} (fl : Floats Float Double) where
  -- Ten times what is left of a hundred percent without `idle` out of `total`.
  abbrev pub busy : (idle total : ℕ) → ℤ
  busy idle total =
      let share = fl.double_div (fl.double_of idle) (fl.double_of total) in
      let percent = fl.narrow (fl.double_mul share (fl.double_of 100)) in
      fl.to_int (fl.float_mul (fl.float_sub (fl.float_of 100) percent) (fl.float_of 10))

  usage-Reads :
      (old new : List Number) (v w : StatsCpu)
      → Reads old v
      → Reads new w
      → Advances old new
      → fl.to_int (fl.float_mul (usage fl v w) (fl.float_of 10))
        ≡ busy
            (nth new stats_cpu_idle - nth old stats_cpu_idle)
            (sum_of_first 8 new - sum_of_first 8 old)
  unfolding usage percent_value get_interval overflow_safe_sub
  usage-Reads old new v w (fields, uptime) (fields', uptime') on =
      let i1 = fields stats_cpu_idle (omega arith) in
      let i2 = fields' stats_cpu_idle (omega arith) in
      let a = on.idle_grows in
      let b = on.idle_small in
      let c = on.time_passes in
      let d = on.no_wrap in
      let idle : overflow_safe_sub (v stats_cpu_idle) (w stats_cpu_idle)
          ≡ nth new stats_cpu_idle - nth old stats_cpu_idle =
        ground arith in
      let total : get_interval (v global_uptime) (w global_uptime)
          ≡ sum_of_first 8 new - sum_of_first 8 old =
        ground arith in
      λ i. busy (idle i) (total i)

  -- Where the arrays have room for the line of all processors and one for each of at most four, and
  -- /proc/stat begins both times with these lines, and the counters that get_cpu_time reads in them
  -- do not wrap in between: eos_get_cpu_info returns 0, and its result `k` is, for a line `k`, ten
  -- times a hundred less the percentage of the time between the two looks that is idle time, in the
  -- arithmetic of the processor.
  pub eos_get_cpu_info_lem :
      (rows max_cpu_num : ℕ) (stale : List ℕ) (ls ms : List CpuLine) (rest rest' : List ℕ)
      (stale_old stale_new : ℕ → StatsCpu) (stale_val : ℕ → Float) (k : ℕ)
      → max_cpu_num < rows
      → max_cpu_num ≤ 4
      → length ls ≡ max_cpu_num + 1
      → length ms ≡ max_cpu_num + 1
      → All IsCpuLine ls
      → All IsCpuLine ms
      → k ≤ max_cpu_num
      → Advances (numbers_at ls k) (numbers_at ms k)
      → let old = numbers_at ls k in
        let new = numbers_at ms k in
        result_at k (
          eos_get_cpu_info fl rows max_cpu_num stale
            (some (stat_text ls rest))
            (some (stat_text ms rest'))
            stale_old
            stale_new
            stale_val)
        ≡ some (
          pos 0,
          some (
              busy
                (nth new stats_cpu_idle - nth old stats_cpu_idle)
                (sum_of_first 8 new - sum_of_first 8 old)),
        )
  unfolding eos_get_cpu_info
  eos_get_cpu_info_lem rows max_cpu_num stale ls ms rest rest' old new val k room few full full' h
        h' to on =
      let fits : (ltb rows (max_cpu_num + 1) || ltb 5 (max_cpu_num + 1)) ≡ false = ground arith in
      let there : ltb k (max_cpu_num + 1) ≡ true = ground arith in
      let reads = get_cpu_time-Reads max_cpu_num stale (omega arith) ls rest old k full h to in
      let reads' = get_cpu_time-Reads max_cpu_num stale (omega arith) ms rest' new k full' h' to in
      let same = usage-Reads (numbers_at ls k) (numbers_at ms k) _ _ reads reads' on in
      let before = get_cpu_time max_cpu_num stale (some (stat_text ls rest)) old in
      let after = get_cpu_time max_cpu_num stale (some (stat_text ms rest')) new in
      let shown : ℕ → Float =
        λ i. if ltb i (max_cpu_num + 1) then usage fl (before i) (after i) else val i in
      let out : ℕ → ℤ = λ i. fl.to_int (fl.float_mul (shown i) (fl.float_of 10)) in
      let here : shown k ≡ usage fl (before k) (after k) = rw there refl in
      let scaled = ap (λ x. some (fl.to_int (fl.float_mul x (fl.float_of 10)))) here in
      rw fits (ap (λ r. some (pos 0, r)) (five out k (omega arith) ∙ scaled ∙ ap some same))
