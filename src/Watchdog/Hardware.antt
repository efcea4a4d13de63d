-- ===== src/Watchdog/Hardware.antt =====
-- Feeding the watchdog of the P2020 by its register.
use libeos.Prelude.{
  ℕ, ◌+◌, ◌*◌, ◌≤◌, ◌<◌, ◌≡◌, refl, sym, ap, ◌∙◌, pos, false, some, length, List, [], ◌∷◌, not,
  ◌&&◌, ◌==◌, if◌then◌else◌, Buf, store, slice, memcpy, slice-ext, slice-store, arith,
}
use libeos.Prelude.Method.{ok, answered, >>=-ok}
use libeos.Mmap.{Os, Board, Process, MmapUnit, locked}
use libeos.Mmap.Registers.{eos_cpu_reg_write}
use libeos.Mmap.Registers.Access.{OnRegisters, eos_cpu_reg_read-eos_cpu_reg_write}
use libeos.Mmap.Cells.{StoresNumbers}
use libeos.Watchdog.{hard_value, eos_hard_feed_dog}

store-behind : (b : Buf) (i : ℕ) (xs : List ℕ) (j : ℕ) → i + length xs ≤ j → store b i xs j ≡ b j
unfolding store
store-behind b i [] j p = refl
store-behind b i (x ∷ xs) j p =
    store-behind (λ k. if k == i then x else b k) (i + 1) xs j (omega arith) ∙ ground arith

module _ {W : Type 0} (os : Os W) (numbers : StoresNumbers os) (board : Board) (u : MmapUnit)
    (base addr : ℕ) (o : OnRegisters board u base) (inside : addr ≤ u.lenth) where
  -- With 0 or 1, and the processor's registers mapped, the call returns 0 and stores the stop or the
  -- start value at its register; but its length 4 counts words, so the twelve bytes behind the
  -- register become those that stand behind the variable.
  pub eos_hard_feed_dog_overruns :
      (behind : Buf) (flag : ℕ) (p : Process W)
      → flag ≤ 1
      → p.cpu_mmap ≡ some u
      → let (r, t) = eos_hard_feed_dog os board addr behind flag p in
        (r ≡ ok (pos 0))
        × (slice t.mem (base + addr) 4 ≡ os.word 4 (hard_value os board addr flag))
        × ((j : ℕ) → 4 ≤ j → j < 16 → t.mem (base + addr + j) ≡ behind j)
  unfolding eos_hard_feed_dog
  eos_hard_feed_dog_overruns behind flag p q there =
      let digit : (not (flag == 0) && not (flag == 1)) ≡ false = ground arith in
      let word = os.word 4 (hard_value os board addr flag) in
      let b = store behind 0 word in
      let width : length word ≡ 4 = numbers.width_word 4 (hard_value os board addr flag) in
      let t = locked (λ m. memcpy m (base + addr) b 0 (4 * 4)) p in
      let writes =
        (eos_cpu_reg_read-eos_cpu_reg_write os board u base addr 4 b b p there o inside).0 in
      let runs : eos_hard_feed_dog os board addr behind flag p ≡ (ok (pos 0), t) = rw digit (
        >>=-ok (λ p'. answered (eos_cpu_reg_write os board addr (some b) 4 p') p') _
          (ap (λ r. answered r p) writes)) in
      (
        ap (λ r. r.0) runs,
        ap (λ r. slice r.1.mem (base + addr) 4) runs
            ∙ slice-ext (memcpy p.mem (base + addr) b 0 16) b (base + addr) 0 4
                (λ j r. ground arith)
            ∙ ap (slice b 0) (sym width)
            ∙ slice-store behind 0 word,
        λ j least most.
            let copied : t.mem (base + addr + j) ≡ b j = ground arith in
            ap (λ r. r.1.mem (base + addr + j)) runs
            ∙ copied
            ∙ store-behind behind 0 word j (omega arith),
      )
