-- ===== src/Gpio/Tests.antt =====
-- The theorems on the pins at concrete inputs.
use Prim.Native.Nat.{max}
use libeos.Prelude.{◌⊎◌, minus_one, false, ◌-◌, bit, List, ◌≡◌, refl, pos, [], ◌∷◌, arith}
use libeos.Prelude.Method.{ok, returned}
use libeos.Mmap.Cells.{cpu_words}
use libeos.Gpio.Mpc8548
use libeos.Gpio.Mpc8548.Output.{eos_set_gpio_status-bit}
use libeos.Gpio.Mpc8548.Direction.{eos_get_gpio_direction-eos_set_gpio_direction}
use libeos.Gpio.{eos_get_gpio_direction, eos_get_gpio_status}
use libeos.Gpio.Refinement.{Command, set_direction, set_status, run, replay, run_refines}
use libeos.Gpio.Sample.{
  shifter, system, t104x, start, all_off, cpu_registers, cpu-Valid, cpu-Apart, cpu-Apart_behind,
  cpu-Ready, start-Shows,
}

abbrev commands : List Command
commands = set_direction 28 1 ∷ set_status 28 1 ∷ set_status 3 1 ∷ set_status 28 0 ∷ []

run_refines_example :
    let t = run shifter (cpu_words system t104x) 0x13_0000 0x13_0008 commands start in
    ((eos_get_gpio_direction shifter (cpu_words system t104x) 0x13_0000 0x13_0008 28 t).0 ≡ ok 1)
    × ((eos_get_gpio_status shifter (cpu_words system t104x) 0x13_0000 0x13_0008 28 t).0 ≡ ok 0)
unfolding replay
run_refines_example =
    run_refines shifter cpu_registers 0x13_0000 0x13_0008 (cpu-Valid _ (omega arith))
      (cpu-Valid _ (omega arith)) (cpu-Apart _ _ (omega arith)) (cpu-Apart_behind _ _ (omega arith))
      commands all_off start 28 ground arith start-Shows (omega arith)

eos_set_gpio_status-bit_example :
    let (r, t) =
      Mpc8548.eos_set_gpio_status shifter
        (cpu_words system t104x)
        0xe_0030
        0xe_0040
        0xe_0050
        30
        1
        start in
    (r ≡ ok (pos 0))
    × (bit (31 - 30) (cpu_registers.cell 0xe_0040 t)
        ≡ max 1 (bit (31 - 30) (cpu_registers.cell 0xe_0040 start)))
eos_set_gpio_status-bit_example =
    eos_set_gpio_status-bit shifter cpu_registers 0xe_0030 0xe_0040 0xe_0050
      (cpu-Valid _ (omega arith)) 30 30 1 start refl (omega arith) (omega arith) cpu-Ready

eos_get_gpio_direction-eos_set_gpio_direction_example :
    let w = cpu_words system t104x in
    let (r, t) = Mpc8548.eos_set_gpio_direction shifter w 0xe_0030 0xe_0040 0xe_0050 30 0 start in
    let before =
      (Mpc8548.eos_get_gpio_direction shifter w 0xe_0030 0xe_0040 0xe_0050 30 false start).0 in
    (r ≡ ok (pos 0))
    × ((Mpc8548.eos_get_gpio_direction shifter w 0xe_0030 0xe_0040 0xe_0050 30 false t).0 ≡ ok 1)
    × ((before ≡ ok 1) ⊎ (before ≡ returned minus_one))
eos_get_gpio_direction-eos_set_gpio_direction_example =
    eos_get_gpio_direction-eos_set_gpio_direction shifter cpu_registers 0xe_0030 0xe_0040 0xe_0050
      (cpu-Valid _ (omega arith)) 30 0 start refl (omega arith) cpu-Ready
