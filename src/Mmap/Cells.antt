-- ===== src/Mmap/Cells.antt =====
-- One cell of a window, read into a variable and written from one: windows implement the interface
-- of Prelude/Words.antt.
pub mod Implement
pub mod Windows
pub mod Digits
use libeos.Prelude.{ℕ, ◌^◌, ◌<◌, ◌≡◌, length, ℤ, Option, none, some, Buf, slice, store}
use libeos.Prelude.Words.{Words}
use libeos.Mmap.{MmapUnit, Process, Os, Board}
use libeos.Mmap.Registers.{
  read_at, write_at, eos_cpu_reg_read, eos_cpu_reg_write, eos_core_cpld_read, eos_core_cpld_write,
}

module _ {W : Type 0} (os : Os W) where
  -- A variable of `width` bytes, as memory: `(void *)&value`.
  abbrev pub variable : (width value : ℕ) → Buf
  variable width value = store (λ j. 0) 0 (os.word width value)

  abbrev pub content : (width : ℕ) → Buf → ℕ
  content width b = os.number (slice b 0 width)

  -- The variable after a read: its pointer is not NULL.
  abbrev pub after_read :
      (width value : ℕ) → Option (ℤ × Option Buf × Process W) → Option (ℤ × ℕ × Process W)
  after_read width value none = none
  after_read width value (some (ret, none, p)) = some (ret, value, p)
  after_read width value (some (ret, some b, p)) = some (ret, content width b, p)

  -- Calls with `&value` and 1 for the length.
  abbrev pub words :
      (width : ℕ)
      → ((addr : ℕ) → Option Buf → (len : ℕ) → Process W → Option (ℤ × Option Buf × Process W))
      → ((addr : ℕ) → Option Buf → (len : ℕ) → Process W → Option (ℤ × Process W))
      → Words (Process W)
  words width read write = record {
    read = λ addr value p. after_read width value (read addr (some (variable width value)) 1 p);
    write = λ addr value p. write addr (some (variable width value)) 1 p;
  }

  module _ (board : Board) where
    abbrev pub cpu_words : Words (Process W)
    cpu_words = words 4 (eos_cpu_reg_read os board) (eos_cpu_reg_write os board)

    abbrev pub cpld_bytes : Words (Process W)
    cpld_bytes = words 1 (eos_core_cpld_read os board) (eos_core_cpld_write os board)

    -- eos_mmap_read(gpio_mmap, …) and eos_mmap_write(gpio_mmap, …)
    abbrev pub gpio_words : Words (Process W)
    gpio_words =
        words 4 (λ addr items len p. read_at os board p.gpio_mmap addr items len p)
          (λ addr items len p. write_at os board p.gpio_mmap addr items len p)

-- How the processor stores numbers: in `n` bytes, from which the number comes back.
pub record StoresNumbers {W : Type 0} (os : Os W) : Type 0 where
  pub width_word : (n v : ℕ) → length (os.word n v) ≡ n
  pub number_word : (n v : ℕ) → v < 256 ^ n → os.number (os.word n v) ≡ v
  pub number-lt : (b : Buf) (i n : ℕ) → os.number (slice b i n) < 256 ^ n
