-- ===== src/Mmap/Tests.antt =====
-- The theorems on the windows at concrete inputs, on a system whose calls succeed.
use libeos.Prelude.{
  ℕ, ◌+◌, ◌*◌, ◌%◌, ◌/◌, ◌≡◌, inl, refl, pos, minus_one, true, false, none, some, [], ◌∷◌, Buf,
  memcpy, slice, arith,
}
use libeos.Mmap.{
  MmapUnit, Process, Os, Board, too_long, locked, eos_mmap_init, eos_mmap_exit, eos_mmap_read,
  eos_mmap_write,
}
use libeos.Mmap.Access.{
  eos_mmap_read-memcpy, eos_mmap_read-eos_mmap_write, eos_mmap_write_stays_inside,
  eos_mmap_write_escapes,
}
use libeos.Mmap.Lifetime.{Begun, HoldsMore, eos_mmap_init-Begun, eos_mmap_exit-eos_mmap_init}
use libeos.Mmap.Registers.{eos_cpu_mmap_init, eos_cpu_reg_read, eos_cpu_reg_write}
use libeos.Mmap.Registers.Access.{
  OnRegisters, eos_cpu_reg_read-eos_cpu_reg_write, eos_cpu_reg_follows_null,
}

abbrev p2020 : Board
p2020 = record {
  cpu_ccsr_base_addr = 0xffe0_0000;
  cpu_ccsr_mem_len = 0x100_0000;
  cpu_ccsr_bits_len = 32;
  core_cpld_base_addr = 0xda00_0000;
  core_cpld_addr_len = 0x100;
  core_cpld_bits_len = 8;
}

-- A world counts the mappings. A number is stored with its low byte first, and no more than two.
abbrev system : Os ℕ
system = record {
  malloc = λ w. (true, w);
  sys_open = λ name w. (pos 3, w);
  sys_close = λ fd w. w;
  mmap64 = λ lenth fd phy w. (some (0x1000 * (w + 1)), w + 1);
  munmap = λ virt lenth w. (pos 0, w);
  mutex_init = λ w. (pos 0, w);
  mutex_destroy = λ w. w;
  word = λ n v. v % 256 ∷ v / 256 % 256 ∷ [];
  number = λ bytes. 0;
}

-- A system without the device node.
abbrev bare : Os ℕ
bare = record system { sys_open = λ name w. (minus_one, w) }

abbrev cells16 : MmapUnit
cells16 = record {
  fd = pos 3;
  lenth = 0x100;
  bits_len = 16;
  phy_mmapbase = 0xe000_0000;
  virt_mmapbase = some 0x1000;
}

abbrev bytes8 : MmapUnit
bytes8 = record cells16 { bits_len = 8 }

abbrev registers : MmapUnit
registers = record cells16 { bits_len = 32; phy_mmapbase = 0xffe0_0000 }

abbrev count_up : Buf
count_up j = j + 1

abbrev start : Process ℕ
start = record {
  mem = λ j. 0;
  cpu_mmap = none;
  core_cpld_mmap = none;
  gpio_mmap = none;
  files = 0;
  mappings = 0;
  blocks = 0;
  locks = [];
  world = 0;
}

abbrev opened : Process ℕ
opened = record start { cpu_mmap = some registers }

passes : too_long p2020 cells16 8 ≡ false
unfolding too_long
passes = refl

eos_mmap_read-memcpy_example :
    eos_mmap_read system p2020 cells16 8 (some count_up) 3 start
    ≡ (pos 0, some (memcpy count_up 0 start.mem 0x1010 6), locked (λ m. m) start)
eos_mmap_read-memcpy_example =
    eos_mmap_read-memcpy system p2020 cells16 0x1000 8 count_up 3 start refl passes

eos_mmap_read-eos_mmap_write_example :
    let (written, q) = eos_mmap_write system p2020 cells16 8 (some count_up) 3 start in
    let (got, items, r) = eos_mmap_read system p2020 cells16 8 (some (λ j. 0)) 3 q in
    (written ≡ pos 0)
    × (got ≡ pos 0)
    × (items ≡ some (memcpy (λ j. 0) 0 count_up 0 6))
    × (r.mem ≡ q.mem)
eos_mmap_read-eos_mmap_write_example =
    eos_mmap_read-eos_mmap_write system p2020 cells16 0x1000 8 count_up (λ j. 0) 3 start refl passes

eos_mmap_write_stays_inside_example :
    let (ret, q) = eos_mmap_write system p2020 cells16 8 (some count_up) 3 start in
    (ret ≡ pos 0) × (q.mem 0xfff ≡ start.mem 0xfff)
eos_mmap_write_stays_inside_example =
    eos_mmap_write_stays_inside system p2020 cells16 0x1000 8 count_up 3 start 0xfff refl
      (omega arith) refl (omega arith) (omega arith) (inl (omega arith))

eos_mmap_write_escapes_example :
    let (ret, q) = eos_mmap_write system p2020 bytes8 0x100 (some count_up) 4 start in
    (ret ≡ pos 0) × (q.mem 0x1100 ≡ 1)
eos_mmap_write_escapes_example =
    eos_mmap_write_escapes system p2020 bytes8 0x1000 count_up 3 start refl refl (omega arith)

eos_mmap_init-Begun_example :
    Begun system 0x100 0xe000_0000 16 start (eos_mmap_init system 0x100 0xe000_0000 16 none start)
eos_mmap_init-Begun_example = eos_mmap_init-Begun system 0x100 0xe000_0000 16 start none

begins : (eos_mmap_init system 0x100 0xe000_0000 16 none start).0 ≡ some cells16
unfolding eos_mmap_init
begins = refl

eos_mmap_exit-eos_mmap_init_example :
    let (unit, q) = eos_mmap_init system 0x100 0xe000_0000 16 none start in
    let (ret, left, r) = eos_mmap_exit system unit q in
    (ret ≡ pos 0) × (left ≡ none) × HoldsMore 0 start r
eos_mmap_exit-eos_mmap_init_example =
    eos_mmap_exit-eos_mmap_init system 0x100 0xe000_0000 16 start none cells16 begins refl

registers-OnRegisters : OnRegisters p2020 registers 0x1000
registers-OnRegisters = record { is_mapped = refl; of_registers = refl; of_words = refl }

eos_cpu_reg_read-eos_cpu_reg_write_example :
    let q = locked (λ m. memcpy m 0x1020 count_up 0 8) opened in
    (eos_cpu_reg_write system p2020 0x20 (some count_up) 2 opened ≡ some (pos 0, q))
    × (eos_cpu_reg_read system p2020 0x20 (some (λ j. 0)) 2 q
        ≡ some (pos 0, some (memcpy (λ j. 0) 0 count_up 0 8), locked (λ m. m) q))
eos_cpu_reg_read-eos_cpu_reg_write_example =
    eos_cpu_reg_read-eos_cpu_reg_write system p2020 registers 0x1000 0x20 2 count_up (λ j. 0) opened
      refl registers-OnRegisters (omega arith)

eos_cpu_reg_follows_null_example :
    ((eos_cpu_mmap_init bare p2020 start).0 ≡ minus_one)
    × ((eos_cpu_mmap_init bare p2020 start).1.cpu_mmap ≡ none)
    × (eos_cpu_reg_read bare p2020 0x20 (some count_up) 1 start ≡ none)
    × (eos_cpu_reg_write bare p2020 0x20 (some count_up) 1 start ≡ none)
eos_cpu_reg_follows_null_example =
    eos_cpu_reg_follows_null bare p2020 0x20 1 (some count_up) start refl refl

same_bytes : system.word 2 0x201 ≡ slice count_up 0 2
unfolding slice
same_bytes = refl
