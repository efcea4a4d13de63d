-- ===== src/Gpio/Sample.antt =====
-- A system for the tests of the pins and of the watchdog: windows of Mmap.antt that are mapped, over
-- a memory that keeps what is written and has zeros at first.
use libeos.Prelude.{
  ◌-◌, ◌∙◌, bit, bit-zero, slice, ℕ, ◌+◌, ◌*◌, ◌≤◌, ◌≡◌, inl, inr, refl, pos, true, none, some, [],
  ◌^◌, ap, arith,
}
use libeos.Prelude.Words.{IsRegisters}
use libeos.Mmap.{MmapUnit, Process, Os, Board}
use libeos.Mmap.Registers.Access.{OnRegisters}
use libeos.Mmap.Cells.{cpu_words}
use libeos.Mmap.Cells.Implement.{registers}
use libeos.Mmap.Cells.Windows.{cpu_reaches}
use libeos.Mmap.Cells.Digits.{low_first, to_number, stores_low_first}
use libeos.Gpio.{Shifter}
use libeos.Gpio.Refinement.{Pins, Shows}

abbrev pub shifter : Shifter
shifter = record { wide_shl = λ value count. 0; wide_shr = λ value count. 0 }

abbrev pub system : Os ℕ
system = record {
  malloc = λ w. (true, w);
  sys_open = λ name w. (pos 3, w);
  sys_close = λ fd w. w;
  mmap64 = λ lenth fd phy w. (some (0x1000 * (w + 1)), w + 1);
  munmap = λ virt lenth w. (pos 0, w);
  mutex_init = λ w. (pos 0, w);
  mutex_destroy = λ w. w;
  word = low_first;
  number = to_number;
}

abbrev pub t104x : Board
t104x = record {
  cpu_ccsr_base_addr = 0xf_fe00_0000;
  cpu_ccsr_mem_len = 0x100_0000;
  cpu_ccsr_bits_len = 32;
  core_cpld_base_addr = 0xda00_0000;
  core_cpld_addr_len = 0x100;
  core_cpld_bits_len = 8;
}

abbrev pub cpu_window : MmapUnit
cpu_window = record {
  fd = pos 3;
  lenth = 0x100_0000;
  bits_len = 32;
  phy_mmapbase = 0xf_fe00_0000;
  virt_mmapbase = some 0x1000;
}

abbrev pub gpio_window : MmapUnit
gpio_window = record {
  fd = pos 3;
  lenth = 0x4000;
  bits_len = 32;
  phy_mmapbase = 0xf_fe13_0000;
  virt_mmapbase = some 0x1000;
}

abbrev pub start : Process ℕ
start = record {
  mem = λ j. 0;
  cpu_mmap = some cpu_window;
  core_cpld_mmap = none;
  gpio_mmap = some gpio_window;
  files = 0;
  mappings = 0;
  blocks = 0;
  locks = [];
  world = 0;
}

abbrev pub all_off : Pins
all_off = record { direction = λ m. 0; status = λ m. 0 }

pub cpu_window-OnRegisters : OnRegisters t104x cpu_window 0x1000
cpu_window-OnRegisters = record { is_mapped = refl; of_registers = refl; of_words = refl }

abbrev pub cpu_registers : IsRegisters (cpu_words system t104x) (2 ^ 32)
cpu_registers =
    registers system (stores_low_first system) t104x cpu_window 0x1000
      (cpu_reaches system t104x cpu_window 0x1000 cpu_window-OnRegisters)

pub cpu-Valid : (a : ℕ) → a ≤ 0x100_0000 → cpu_registers.Valid a
unfolding registers
cpu-Valid a p = p

pub cpu-Apart : (a b : ℕ) → a + 4 ≤ b → cpu_registers.Apart a b
unfolding registers
cpu-Apart a b p = inl (omega arith)

pub cpu-Apart_behind : (a b : ℕ) → b + 4 ≤ a → cpu_registers.Apart a b
unfolding registers
cpu-Apart_behind a b p = inr (omega arith)

pub cpu-Ready : cpu_registers.Ready start
unfolding registers
cpu-Ready = refl

pub cpu-zero : (a : ℕ) → cpu_registers.cell a start ≡ 0
unfolding registers to_number slice
cpu-zero a = refl

pub start-Shows :
    Shows shifter cpu_registers 0x13_0000 0x13_0008
      (cpu-Valid _ (omega arith))
      (cpu-Valid _ (omega arith))
      (cpu-Apart _ _ (omega arith))
      (cpu-Apart_behind _ _ (omega arith))
      all_off
      start
start-Shows = record {
  ready = cpu-Ready;
  directions = λ m p. ap (bit (31 - m)) (cpu-zero 0x13_0000) ∙ bit-zero (31 - m);
  statuses = λ m p. ap (bit (31 - m)) (cpu-zero 0x13_0008) ∙ bit-zero (31 - m);
}
