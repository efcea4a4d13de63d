-- ===== src/Resource/Memory.antt =====
-- How full the memory is: the two texts of eos_get_mem_info in
-- eos_lib/eos_lib/eos_get_sys_resoure.cpp.
pub mod Shares
use libeos.Prelude.{
  ℕ, ◌+◌, ◌-◌, ◌*◌, ◌/◌, ◌%◌, ◌^◌, ℤ, pos, minus_one, Bool, true, false, Option, none, some, List,
  [], ◌∷◌, to_int, ltb, leb, ◌==◌, if◌then◌else◌,
}
use libeos.Resource.Text.{skip_whitespace, unsigned_at}
use libeos.Resource.Stat.{lines}
use libeos.Resource.Load.{Floats}

module _ (bits : ℕ) where
  -- A `long` of `bits` bits in two's complement; what it cannot hold becomes its nearest bound.
  abbrev pub to_long : (negative : Bool) → Option ℕ → ℕ
  to_long negative none = 0
  to_long false (some n) = if ltb n (2 ^ (bits - 1)) then n else 2 ^ (bits - 1) - 1
  to_long true (some n) =
      if leb n (2 ^ (bits - 1)) then (2 ^ bits - n) % 2 ^ bits else 2 ^ (bits - 1)

  abbrev pub long_at : List ℕ → ℕ
  long_at [] = 0
  long_at (c ∷ cs) =
      if c == b'-'
      then to_long true (unsigned_at cs)
      else if c == b'+'
      then to_long false (unsigned_at cs)
      else to_long false (unsigned_at (c ∷ cs))

  unfoldable pub atol : List ℕ → ℕ
  unfolding skip_whitespace
  atol str = long_at (skip_whitespace str)

  -- `var` after while (fgets(var, sizeof(var), pp) != NULL) with the parts that come.
  abbrev pub last_of : (var : List ℕ) → List (List ℕ) → List ℕ
  last_of var [] = var
  last_of var (l ∷ ls) = last_of l ls

  -- *mem_val = (total_mem - avail_mem) * 1000 / total_mem; `none` is a division by 0.
  abbrev pub per_mille : (total_mem avail_mem : ℕ) → Option (ℤ × Option ℤ)
  per_mille total_mem avail_mem =
      if total_mem == 0
      then none
      else some (
        pos 0,
        some (to_int ((total_mem + 2 ^ bits - avail_mem) % 2 ^ bits * 1000 % 2 ^ bits / total_mem)),
      )

  -- The LS1021: the text that each of the two commands puts out, or `none` where popen() fails. The
  -- pointer is `none` where it is NULL.
  unfoldable pub eos_get_mem_info_ls1021 :
      (total avail : Option (List ℕ)) → Option ℤ → Option (ℤ × Option ℤ)
  eos_get_mem_info_ls1021 total avail none = some (minus_one, none)
  eos_get_mem_info_ls1021 none avail (some mem_val) = some (minus_one, some mem_val)
  eos_get_mem_info_ls1021 (some total) none (some mem_val) = some (minus_one, some mem_val)
  eos_get_mem_info_ls1021 (some total) (some avail) (some mem_val) =
      let var = last_of [] (lines 31 31 total) in
      let var' = last_of var (lines 31 31 avail) in per_mille (atol var) (atol var')

  -- The other processors: totalram and freeram of sysinfo(), or `none` where it fails.
  module _ {Float Double : Type 0} (fl : Floats Float Double) where
    unfoldable pub eos_get_mem_info : (info : Option (ℕ × ℕ)) → Option ℤ → ℤ × Option ℤ
    eos_get_mem_info info none = (minus_one, none)
    eos_get_mem_info none (some mem_val) = (minus_one, some mem_val)
    eos_get_mem_info (some (totalram, freeram)) (some mem_val) =
        let share =
          fl.float_div (fl.float_of ((totalram + 2 ^ bits - freeram) % 2 ^ bits))
            (fl.float_of totalram) in
        let bmu_mem_val = fl.float_mul share (fl.float_of 100) in
        (pos 0, some (fl.to_int (fl.float_mul bmu_mem_val (fl.float_of 10))))
