-- ===== src/Resource/Load.antt =====
-- How busy the processors are: get_interval, overflow_safe_sub, percent_value and eos_get_cpu_info
-- of eos_lib/eos_lib/eos_get_sys_resoure.cpp.
pub mod Info
use libeos.Prelude.{
  ℕ, ◌+◌, ◌-◌, ◌%◌, ◌^◌, ◌<◌, ◌≡◌, ℤ, pos, Option, none, some, List, [], ◌∷◌, ◌||◌, ltb, leb, ◌&&◌,
  ◌==◌, if◌then◌else◌, arith,
}
use libeos.Resource.Stat.{StatsCpu, stats_cpu_idle, global_uptime, get_cpu_time}

-- What the code uses of `float` and `double`: `double_of` and `float_of` convert an unsigned
-- integer, `narrow` a double to a float, and `to_int` a float to an `int`.
pub record Floats (Float Double : Type 0) : Type 0 where
  pub double_of : ℕ → Double
  pub double_div : Double → Double → Double
  pub double_mul : Double → Double → Double
  pub float_of : ℕ → Float
  pub float_sub : Float → Float → Float
  pub float_mul : Float → Float → Float
  pub float_div : Float → Float → Float
  pub narrow : Double → Float
  pub to_int : Float → ℤ

-- news - old, in `unsigned long long`, and 1 for 0
unfoldable pub get_interval : (old news : ℕ) → ℕ
get_interval old news = let itv = (news + 2 ^ 64 - old) % 2 ^ 64 in if itv == 0 then 1 else itv

-- (icputime_t)v < 0 is the test of the highest bit.
unfoldable pub overflow_safe_sub : (prev curr : ℕ) → ℕ
overflow_safe_sub prev curr =
    let v = (curr + 2 ^ 64 - prev) % 2 ^ 64 in
    if leb (2 ^ 63) v && leb prev 0xffff_ffff then (v + 2 ^ 32) % 2 ^ 64 else v

module _ {Float Double : Type 0} (fl : Floats Float Double) where
  unfoldable pub percent_value : (prev curr itv : ℕ) → Double
  unfolding overflow_safe_sub
  percent_value prev curr itv =
      fl.double_mul (fl.double_div (fl.double_of (overflow_safe_sub prev curr)) (fl.double_of itv))
        (fl.double_of 100)

  -- 100 - (float)percent_value(…), for one row before and one after.
  unfoldable pub usage : (old new : StatsCpu) → Float
  usage old new =
      let itv = get_interval (old global_uptime) (new global_uptime) in
      fl.float_sub (fl.float_of 100)
        (fl.narrow (percent_value (old stats_cpu_idle) (new stats_cpu_idle) itv))

  -- The five results. `before` and `after` are /proc/stat at the two looks at it, a second apart;
  -- `rows` is the length of the two arrays of rows, which the processor gives: 2, 3 or 5. The third
  -- array has five entries. `none` stands for a row that is written behind the end of an array.
  -- `stale_old`, `stale_new` and `stale_val` are what the uninitialised arrays hold, and `stale` what
  -- the buffer of fgets does.
  unfoldable pub eos_get_cpu_info :
      (rows max_cpu_num : ℕ) (stale : List ℕ) (before after : Option (List ℕ))
      → (stale_old stale_new : ℕ → StatsCpu) (stale_val : ℕ → Float) → Option (ℤ × List ℤ)
  eos_get_cpu_info rows max_cpu_num stale before after stale_old stale_new stale_val =
      if ltb rows (max_cpu_num + 1) || ltb 5 (max_cpu_num + 1)
      then none
      else let old = get_cpu_time max_cpu_num stale before stale_old in
        let new = get_cpu_time max_cpu_num stale after stale_new in
        let val : ℕ → Float =
          λ i. if ltb i (max_cpu_num + 1) then usage (old i) (new i) else stale_val i in
        let out : ℕ → ℤ = λ i. fl.to_int (fl.float_mul (val i) (fl.float_of 10)) in
        some (pos 0, out 0 ∷ out 1 ∷ out 2 ∷ out 3 ∷ out 4 ∷ [])

-- A counter that moves on by less than 2^63 in 64 bits, and one that moves on by less than 2^32 in
-- the 32 bits that it has, whether they wrap or not: the difference is what it moved on by.
pub overflow_safe_sub_lem :
    (prev d prev32 d32 : ℕ)
    → prev < 2 ^ 64
    → d < 2 ^ 63
    → prev32 < 2 ^ 32
    → d32 < 2 ^ 32
    → (overflow_safe_sub prev ((prev + d) % 2 ^ 64) ≡ d)
      × (overflow_safe_sub prev32 ((prev32 + d32) % 2 ^ 32) ≡ d32)
unfolding overflow_safe_sub
overflow_safe_sub_lem prev d prev32 d32 p q p32 q32 = (ground arith, ground arith)
