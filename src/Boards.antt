-- ===== src/Boards.antt =====
-- The macros of inc/eos_lib.h for each processor: where the registers and the CPLD stand, how long
-- their windows are, and where in them the registers of the pins are.
pub mod Reach
mod Tests
use libeos.Prelude.{ℕ}
use libeos.Mmap.{Board}

-- CPU_CCSR_GPIODIR_OFFSET and CPU_CCSR_GPIODAT_OFFSET
pub record PinOffsets : Type 0 where
  pub gpiodir : ℕ
  pub gpiodat : ℕ

abbrev pub p204x : Board
p204x = record {
  cpu_ccsr_base_addr = 0xf_fe00_0000;
  cpu_ccsr_mem_len = 0x100_0000;
  cpu_ccsr_bits_len = 32;
  core_cpld_base_addr = 0xf_f100_0000;
  core_cpld_addr_len = 0x1_0000;
  core_cpld_bits_len = 8;
}

abbrev pub p204x_pins : PinOffsets
p204x_pins = record { gpiodir = 0x13_0000; gpiodat = 0x13_0008 }

-- The MPC8548 and both kinds of the MPC8308 have no CPLD: `rest` stands for the macros that are not
-- defined for them.
abbrev pub mpc8548 : (rest : Board) → Board
mpc8548 rest = record rest {
  cpu_ccsr_base_addr = 0xe000_0000;
  cpu_ccsr_mem_len = 0x10_0000;
  cpu_ccsr_bits_len = 32;
}

abbrev pub mpc8308 : (rest : Board) → Board
mpc8308 rest = record rest {
  cpu_ccsr_base_addr = 0xff00_0000;
  cpu_ccsr_mem_len = 0x10_0000;
  cpu_ccsr_bits_len = 32;
}

abbrev pub mpc8308_pins : PinOffsets
mpc8308_pins = record { gpiodir = 0x13_0000; gpiodat = 0x13_0008 }

abbrev pub minimpc8308 : (rest : Board) → Board
minimpc8308 rest = record rest {
  cpu_ccsr_base_addr = 0xf000_0000;
  cpu_ccsr_mem_len = 0x10_0000;
  cpu_ccsr_bits_len = 32;
}

abbrev pub minimpc8308_pins : PinOffsets
minimpc8308_pins = record { gpiodir = 0xc00; gpiodat = 0xc08 }

abbrev pub p1020 : Board
p1020 = record {
  cpu_ccsr_base_addr = 0xffe0_0000;
  cpu_ccsr_mem_len = 0x100_0000;
  cpu_ccsr_bits_len = 32;
  core_cpld_base_addr = 0xda00_0000;
  core_cpld_addr_len = 0x100;
  core_cpld_bits_len = 8;
}

abbrev pub p1020_4g : Board
p1020_4g = record {
  cpu_ccsr_base_addr = 0xf_ffe0_0000;
  cpu_ccsr_mem_len = 0x100_0000;
  cpu_ccsr_bits_len = 32;
  core_cpld_base_addr = 0xf_da00_0000;
  core_cpld_addr_len = 0x100;
  core_cpld_bits_len = 8;
}

-- The same for the P1020, with 4 GB or not, and the P2020.
abbrev pub p1020_pins : PinOffsets
p1020_pins = record { gpiodir = 0xfc00; gpiodat = 0xfc08 }

abbrev pub p2020 : Board
p2020 = record {
  cpu_ccsr_base_addr = 0xf_ffe0_0000;
  cpu_ccsr_mem_len = 0x10_0000;
  cpu_ccsr_bits_len = 32;
  core_cpld_base_addr = 0xf_da00_0000;
  core_cpld_addr_len = 0x100_0000;
  core_cpld_bits_len = 8;
}

abbrev pub ls1021 : Board
ls1021 = record {
  cpu_ccsr_base_addr = 0x1000_0000;
  cpu_ccsr_mem_len = 0x1000_0000;
  cpu_ccsr_bits_len = 32;
  core_cpld_base_addr = 0x7300_0000;
  core_cpld_addr_len = 0x1_0000;
  core_cpld_bits_len = 8;
}

abbrev pub t104x : Board
t104x = record {
  cpu_ccsr_base_addr = 0xf_fe00_0000;
  cpu_ccsr_mem_len = 0x80_0000;
  cpu_ccsr_bits_len = 32;
  core_cpld_base_addr = 0xf_d000_0000;
  core_cpld_addr_len = 0x1_0000;
  core_cpld_bits_len = 8;
}
