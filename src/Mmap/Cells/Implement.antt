-- ===== src/Mmap/Cells/Implement.antt =====
-- A window of whole cells has the laws of registers.
use libeos.Prelude.{
  ℕ, ◌+◌, ◌*◌, ◌^◌, ◌≤◌, ◌<◌, ◌≡◌, ◌⊎◌, inl, inr, refl, sym, ap, ◌∙◌, false, ℤ, pos, Option, some,
  Buf, slice, memcpy, slice-ext, slice-store, arith,
}
use libeos.Prelude.Words.{IsRegisters}
use libeos.Mmap.{MmapUnit, Process, Os, Board, too_long, locked, eos_mmap_read, eos_mmap_write}
use libeos.Mmap.Access.{cell_len, cell_at, eos_mmap_read-memcpy, eos_mmap_write-memcpy}
use libeos.Mmap.Cells.{variable, after_read, words, StoresNumbers}

module _ {W : Type 0} (os : Os W) (numbers : StoresNumbers os) (width : ℕ) where
  pub slice-word : (v : ℕ) → slice (variable os width v) 0 width ≡ os.word width v
  slice-word v =
      ap (λ n. slice (variable os width v) 0 n) (sym (numbers.width_word width v))
      ∙ slice-store (λ j. 0) 0 (os.word width v)

module _ (width : ℕ) where
  -- A cell copied to the front of a buffer.
  pub slice-front :
      (b src : Buf) (k : ℕ) → slice (memcpy b 0 src k width) 0 width ≡ slice src k width
  slice-front b src k = slice-ext _ src 0 k width (λ j p. ground arith)

  pub slice-place :
      (b src : Buf) (k : ℕ) → slice (memcpy b k src 0 width) k width ≡ slice src 0 width
  slice-place b src k = slice-ext _ src k 0 width (λ j p. ground arith)

  pub slice-apart :
      (b src : Buf) (i k : ℕ)
      → ((i + width ≤ k) ⊎ (k + width ≤ i))
      → slice (memcpy b i src 0 width) k width ≡ slice b k width
  slice-apart b src i k (inl p) = slice-ext _ b k k width (λ j q. ground arith)
  slice-apart b src i k (inr p) = slice-ext _ b k k width (λ j q. ground arith)

-- A way to reach the window of `u` at `base`, in the processes where `Ready` holds.
pub record Reaches {W : Type 0} (os : Os W) (board : Board) (u : MmapUnit) (base : ℕ)
    (read : (addr : ℕ) → Option Buf → (len : ℕ) → Process W → Option (ℤ × Option Buf × Process W))
    (write : (addr : ℕ) → Option Buf → (len : ℕ) → Process W → Option (ℤ × Process W))
    : Type 1 where
  pub Ready : Process W → Type 0
  pub Valid : ℕ → Type 0
  pub mapped : u.virt_mmapbase ≡ some base
  pub short : (a : ℕ) → Valid a → too_long board u a ≡ false
  pub read_there :
      (a : ℕ) (items : Option Buf) (p : Process W)
      → Ready p
      → read a items 1 p ≡ some (eos_mmap_read os board u a items 1 p)
  pub write_there :
      (a : ℕ) (items : Option Buf) (p : Process W)
      → Ready p
      → write a items 1 p ≡ some (eos_mmap_write os board u a items 1 p)
  pub still : (f : Buf → Buf) (p : Process W) → Ready p → Ready (locked f p)

module _ {W : Type 0} (os : Os W) (numbers : StoresNumbers os) (board : Board) (u : MmapUnit)
    (base : ℕ)
    {read : (addr : ℕ) → Option Buf → (len : ℕ) → Process W → Option (ℤ × Option Buf × Process W)}
    {write : (addr : ℕ) → Option Buf → (len : ℕ) → Process W → Option (ℤ × Process W)}
    (r : Reaches os board u base read write) where
  abbrev pub at : ℕ → ℕ
  at a = cell_at board u base a

  abbrev pub put : ℕ → ℕ → Buf → Buf
  put a v m = memcpy m (at a) (variable os (cell_len u) v) 0 (cell_len u)

  one : 1 * cell_len u ≡ cell_len u
  one = omega arith

  pub read_cell :
      (a v : ℕ) (p : Process W)
      → r.Valid a
      → r.Ready p
      → after_read os (cell_len u) v (read a (some (variable os (cell_len u) v)) 1 p)
        ≡ some (pos 0, os.number (slice p.mem (at a) (cell_len u)), locked (λ m. m) p)
  read_cell a v p valid ready =
      let b = variable os (cell_len u) v in
      ap (after_read os (cell_len u) v) (
        r.read_there a (some b) p ready
        ∙ ap some (eos_mmap_read-memcpy os board u base a b 1 p r.mapped (r.short a valid))
        ∙ (λ i. some (pos 0, some (memcpy b 0 p.mem (at a) (one i)), locked (λ m. m) p)))
      ∙ ap (λ xs. some (pos 0, os.number xs, locked (λ m. m) p))
          (slice-front (cell_len u) b p.mem (at a))

  pub write_cell :
      (a v : ℕ) (p : Process W)
      → r.Valid a
      → r.Ready p
      → write a (some (variable os (cell_len u) v)) 1 p ≡ some (pos 0, locked (put a v) p)
  write_cell a v p valid ready =
      let b = variable os (cell_len u) v in
      r.write_there a (some b) p ready
      ∙ ap some (eos_mmap_write-memcpy os board u base a b 1 p r.mapped (r.short a valid))
      ∙ (λ i. some (pos 0, locked (λ m. memcpy m (at a) b 0 (one i)) p))

  pub put_cell :
      (a v : ℕ) (m : Buf)
      → v < 256 ^ cell_len u
      → os.number (slice (put a v m) (at a) (cell_len u)) ≡ v
  put_cell a v m small =
      ap os.number (
        slice-place (cell_len u) m (variable os (cell_len u) v) (at a)
        ∙ slice-word os numbers (cell_len u) v)
      ∙ numbers.number_word (cell_len u) v small

  -- The window, seen as registers: cell `a` is the number that its bytes stand for.
  unfoldable pub registers : IsRegisters (words os (cell_len u) read write) (256 ^ cell_len u)
  registers = record {
    Ready = r.Ready;
    Valid = r.Valid;
    Apart = λ a b. (at a + cell_len u ≤ at b) ⊎ (at b + cell_len u ≤ at a);
    cell = λ a p. os.number (slice p.mem (at a) (cell_len u));
    seen = locked (λ m. m);
    stored = λ a v. locked (put a v);
    read_lem = read_cell;
    write_lem = write_cell;
    seen-Ready = λ p ready. r.still (λ m. m) p ready;
    stored-Ready = λ a v p ready. r.still (put a v) p ready;
    cell-lt = λ a p. numbers.number-lt p.mem (at a) (cell_len u);
    cell-seen = λ a p. refl;
    cell-stored = λ a v p small. put_cell a v p.mem small;
    cell-stored_ne = λ a b v p apart.
        ap os.number
          (slice-apart (cell_len u) p.mem (variable os (cell_len u) v) (at a) (at b) apart);
  }
