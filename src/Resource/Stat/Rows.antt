-- ===== src/Resource/Stat/Rows.antt =====
-- Which rows get_cpu_time writes, and what it makes of a whole file.
use libeos.Prelude.{
  ◌⊎◌, ap, ◌∙◌, ℕ, ◌+◌, ◌%◌, ◌≤◌, ◌<◌, ◌≡◌, refl, Bool-cases, inl, inr, true, false, Option, none,
  some, List, [], ◌∷◌, leb, if◌then◌else◌, arith,
}
use libeos.Resource.Text.{starts_with_cpu}
use libeos.Resource.Stat.{StatsCpu, lines, read_row, read_rows, put_row, clear_rows, get_cpu_time}

module _ (max_cpu_num : ℕ) (stale : List ℕ) where
  -- The rows after a line of row `k`.
  abbrev pub row_read : List ℕ → ℕ → (ℕ → StatsCpu) → ℕ → StatsCpu
  row_read l k sc = put_row max_cpu_num stale k (read_row max_cpu_num stale l (sc k)) sc

  pub read_rows-other :
      (l : List ℕ) (ls : List (List ℕ)) (num : ℕ) (sc : ℕ → StatsCpu)
      → starts_with_cpu l ≡ false
      → read_rows max_cpu_num stale (l ∷ ls) num num sc ≡ read_rows max_cpu_num stale ls num num sc
  unfolding read_rows
  read_rows-other l ls num sc e = rw e refl

  pub read_rows-cpu :
      (l : List ℕ) (ls : List (List ℕ)) (num : ℕ) (sc : ℕ → StatsCpu)
      → starts_with_cpu l ≡ true
      → max_cpu_num < 255
      → num ≤ max_cpu_num
      → read_rows max_cpu_num stale (l ∷ ls) num num sc ≡ (
          if leb max_cpu_num num
          then row_read l num sc
          else read_rows max_cpu_num stale ls (num + 1) (num + 1) (row_read l num sc))
  unfolding read_rows
  read_rows-cpu l ls num sc e few here =
      let next : (num + 1) % 256 ≡ num + 1 = omega arith in
      let same : leb (max_cpu_num + 1) (num + 1) ≡ leb max_cpu_num num = ground arith in
      rw (e, next, same) refl

  -- Rows that the loop has passed, and rows that it does not reach, are left.
  pub read_rows-elsewhere :
      (ls : List (List ℕ)) (num : ℕ) (sc : ℕ → StatsCpu) (k : ℕ)
      → max_cpu_num < 255
      → num ≤ max_cpu_num
      → ((k < num) ⊎ (max_cpu_num < k))
      → read_rows max_cpu_num stale ls num num sc k ≡ sc k
  unfolding read_rows
  read_rows-elsewhere [] num sc k few here far = refl
  read_rows-elsewhere (l ∷ ls) num sc k few here far =
      let others : num < max_cpu_num
          → read_rows max_cpu_num stale ls (num + 1) (num + 1) (row_read l num sc) k
            ≡ row_read l num sc k =
        λ p.
          read_rows-elsewhere ls (num + 1) (row_read l num sc) k few (omega arith) (ground arith) in
      elim (Bool-cases (starts_with_cpu l)) [
        | inl e ↦
            ap (λ r. r k) (read_rows-cpu l ls num sc e few here)
            ∙ elim (Bool-cases (leb max_cpu_num num)) [
              | inl f ↦ rw f (ground arith)
              | inr f ↦ rw f (others (ground arith) ∙ ground arith)
            ]
        | inr e ↦
            ap (λ r. r k) (read_rows-other l ls num sc e)
            ∙ read_rows-elsewhere ls num sc k few here far
      ]

  -- The row of the first line, and the loop behind it where it goes on.
  pub read_rows-first :
      (l : List ℕ) (ls : List (List ℕ)) (num : ℕ) (sc : ℕ → StatsCpu)
      → starts_with_cpu l ≡ true
      → max_cpu_num < 255
      → num ≤ max_cpu_num
      → read_rows max_cpu_num stale (l ∷ ls) num num sc num ≡ read_row max_cpu_num stale l (sc num)
  read_rows-first l ls num sc e few here =
      let row = row_read l num sc in
      let stored : row num ≡ read_row max_cpu_num stale l (sc num) = ground arith in
      let kept : num < max_cpu_num
          → read_rows max_cpu_num stale ls (num + 1) (num + 1) row num ≡ row num =
        λ p. read_rows-elsewhere ls (num + 1) row num few (omega arith) (inl (omega arith)) in
      ap (λ r. r num) (read_rows-cpu l ls num sc e few here)
      ∙ elim (Bool-cases (leb max_cpu_num num)) [
        | inl f ↦ rw f stored
        | inr f ↦ rw f (kept (ground arith) ∙ stored)
      ]

  pub read_rows-behind_first :
      (l : List ℕ) (ls : List (List ℕ)) (num : ℕ) (sc : ℕ → StatsCpu)
      → starts_with_cpu l ≡ true
      → max_cpu_num < 255
      → num < max_cpu_num
      → read_rows max_cpu_num stale (l ∷ ls) num num sc
        ≡ read_rows max_cpu_num stale ls (num + 1) (num + 1) (row_read l num sc)
  read_rows-behind_first l ls num sc e few here =
      let more : leb max_cpu_num num ≡ false = ground arith in
      read_rows-cpu l ls num sc e few (omega arith) ∙ rw more refl

  -- With fewer than 255 processors, whatever /proc/stat holds, the rows from the caller's pointer
  -- on that are behind one for all processors and one for each of them are left as they were.
  pub get_cpu_time-behind :
      (stat : Option (List ℕ)) (sc : ℕ → StatsCpu) (k : ℕ)
      → max_cpu_num < 255
      → max_cpu_num < k
      → get_cpu_time max_cpu_num stale stat sc k ≡ sc k
  unfolding get_cpu_time
  get_cpu_time-behind none sc k few far = refl
  get_cpu_time-behind (some stat) sc k few far =
      read_rows-elsewhere (lines 1023 1023 stat) 0 (clear_rows max_cpu_num stale sc) k few
        (omega arith) (inr far)
      ∙ ground arith
