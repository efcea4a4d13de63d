-- ===== src/Prelude/Words.antt =====
-- An interface between the code that works on registers and the code that reaches them: reads and
-- writes of one cell, and what a client may rely on.
use Prim.Native.Nat.{ℕ, ◌<◌}
use mathlib.Core.Path.{◌≡◌, ap}
use mathlib.Core.Option.{Option, none, some}
use libeos.Prelude.Int.{ℤ, pos}
use libeos.Prelude.Method.{Method, ok, answered}

-- The calls eos_…_read(addr, &value, 1) and eos_…_write(addr, &value, 1). A read is given what the
-- variable holds, and gives back its result and what the variable holds then; `none` stands for a
-- call that follows a NULL pointer.
pub record Words (S : Type 0) : Type 0 where
  pub read : (addr value : ℕ) → S → Option (ℤ × ℕ × S)
  pub write : (addr value : ℕ) → S → Option (ℤ × S)

module _ {S : Type 0} (w : Words S) where
  -- A read's result and the variable after it.
  abbrev pub read_pair : Option (ℤ × ℕ × S) → Option ((ℤ × ℕ) × S)
  read_pair none = none
  read_pair (some (ret, value, s)) = some ((ret, value), s)

  abbrev pub reg_read : (addr value : ℕ) → Method S (ℤ × ℕ)
  reg_read addr value s = answered (read_pair (w.read addr value s)) s

  abbrev pub reg_write : (addr value : ℕ) → Method S ℤ
  reg_write addr value s = answered (w.write addr value s) s

-- In a state that is ready, accesses to valid addresses succeed, a read brings the cell's content
-- and changes none, and a write changes its own cell and none that is apart from it. Cells are
-- below `limit`.
pub record IsRegisters {S : Type 0} (w : Words S) (limit : ℕ) : Type 1 where
  pub Ready : S → Type 0
  pub Valid : ℕ → Type 0
  pub Apart : ℕ → ℕ → Type 0
  pub cell : ℕ → S → ℕ
  pub seen : S → S
  pub stored : (addr value : ℕ) → S → S
  pub read_lem :
      (a v : ℕ) (s : S) → Valid a → Ready s → w.read a v s ≡ some (pos 0, cell a s, seen s)
  pub write_lem : (a v : ℕ) (s : S) → Valid a → Ready s → w.write a v s ≡ some (pos 0, stored a v s)
  pub seen-Ready : (s : S) → Ready s → Ready (seen s)
  pub stored-Ready : (a v : ℕ) (s : S) → Ready s → Ready (stored a v s)
  pub cell-lt : (a : ℕ) (s : S) → cell a s < limit
  pub cell-seen : (a : ℕ) (s : S) → cell a (seen s) ≡ cell a s
  pub cell-stored : (a v : ℕ) (s : S) → v < limit → cell a (stored a v s) ≡ v
  pub cell-stored_ne : (a b v : ℕ) (s : S) → Apart a b → cell b (stored a v s) ≡ cell b s

module _ {S : Type 0} {w : Words S} {limit : ℕ} (regs : IsRegisters w limit) where
  open regs use {Ready, Valid, cell, seen, stored}

  pub reg_read_lem :
      (a v : ℕ) (s : S) → Valid a → Ready s → reg_read w a v s ≡ (ok (pos 0, cell a s), seen s)
  reg_read_lem a v s valid ready =
      ap (λ t. answered (read_pair w t) s) (regs.read_lem a v s valid ready)

  pub reg_write_lem :
      (a v : ℕ) (s : S) → Valid a → Ready s → reg_write w a v s ≡ (ok (pos 0), stored a v s)
  reg_write_lem a v s valid ready = ap (λ t. answered t s) (regs.write_lem a v s valid ready)
