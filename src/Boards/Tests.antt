-- ===== src/Boards/Tests.antt =====
-- The theorem on the pins of the MPC8308 at a concrete input.
use libeos.Prelude.{◌≡◌, refl, pos, some, none, minus_one, ℕ}
use libeos.Prelude.Method.{returned}
use libeos.Mmap.{MmapUnit, Process}
use libeos.Mmap.Cells.{cpu_words}
use libeos.Gpio.{
  eos_set_gpio_direction, eos_get_gpio_direction, eos_set_gpio_status, eos_get_gpio_status,
}
use libeos.Gpio.Sample.{shifter, system, start}
use libeos.Boards.{p2020, mpc8308}
use libeos.Boards.Reach.{mpc8308_pins_out_of_reach}

abbrev window : MmapUnit
window = record {
  fd = pos 3;
  lenth = 0x10_0000;
  bits_len = 32;
  phy_mmapbase = 0xff00_0000;
  virt_mmapbase = some 0x1000;
}

abbrev running : Process ℕ
running = record start { cpu_mmap = some window; gpio_mmap = none }

mpc8308_pins_out_of_reach_example :
    let w = cpu_words system (mpc8308 p2020) in
    (eos_set_gpio_direction shifter w 0x13_0000 0x13_0008 5 1 running
      ≡ (returned minus_one, running))
    × (eos_get_gpio_direction shifter w 0x13_0000 0x13_0008 5 running
        ≡ (returned minus_one, running))
    × (eos_set_gpio_status shifter w 0x13_0000 0x13_0008 5 1 running
        ≡ (returned minus_one, running))
    × (eos_get_gpio_status shifter w 0x13_0000 0x13_0008 5 running ≡ (returned minus_one, running))
mpc8308_pins_out_of_reach_example =
    mpc8308_pins_out_of_reach system shifter p2020 window 5 1 running refl refl refl
