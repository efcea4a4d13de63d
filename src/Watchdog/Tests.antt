-- ===== src/Watchdog/Tests.antt =====
-- The theorems on the watchdog at concrete inputs.
use libeos.Prelude.{ℕ, ◌+◌, ◌≤◌, ◌<◌, ◌≡◌, refl, pos, minus_one, some, slice, arith}
use libeos.Prelude.Method.{ok, returned}
use libeos.Prelude.Words.{IsRegisters}
use libeos.Mmap.{MmapUnit, Process}
use libeos.Mmap.Cells.{cpu_words, gpio_words, cpld_bytes}
use libeos.Mmap.Cells.Implement.{registers}
use libeos.Mmap.Cells.Windows.{OnDevice, cpld_reaches}
use libeos.Mmap.Cells.Digits.{low_first, stores_low_first}
use libeos.Gpio.{eos_get_gpio_direction, eos_get_gpio_status}
use libeos.Gpio.Banks
use libeos.Gpio.Drivers.{pins_32, pins_128}
use libeos.Gpio.Sample.{
  shifter, system, t104x, cpu_window, start, all_off, cpu_window-OnRegisters, cpu_registers,
  cpu-Valid, cpu-Apart, cpu-Apart_behind, start-Shows,
}
use libeos.Gpio.Banks.Sample.{
  gpio_registers, variant, variant-IsVariant, ready_window, gpio-IsWindow, started, started-Shows,
}
use libeos.Watchdog.{
  Dog, eos_soft_feed_dog, eos_set_dog_mode, eos_set_dog_mode_on, eos_get_dog_mode,
  eos_set_feed_dog_time, eos_hard_feed_dog,
}
use libeos.Watchdog.Feeding.{feeds}
use libeos.Watchdog.Pulse.{eos_soft_feed_dog_alternates, eos_soft_feed_dog_blocked}
use libeos.Watchdog.Mode.{eos_get_dog_mode-eos_set_dog_mode, eos_set_feed_dog_time-cell}
use libeos.Watchdog.Hardware.{eos_hard_feed_dog_overruns}

abbrev new_dog : {S : Type 0} → S → Dog S
new_dog s = record { eos_feed_dog_count = 0; set_signal = 0; pins = s }

eos_soft_feed_dog_alternates_example :
    let w = cpu_words system t104x in
    let driver = pins_32 shifter w 0x13_0000 0x13_0008 in
    let t = (feeds driver 28 2 (new_dog start)).pins in
    ((eos_soft_feed_dog driver 28 (feeds driver 28 1 (new_dog start))).0 ≡ ok (pos 0))
    × ((eos_get_gpio_direction shifter w 0x13_0000 0x13_0008 28 t).0 ≡ ok 1)
    × ((eos_get_gpio_status shifter w 0x13_0000 0x13_0008 28 t).0 ≡ ok 1)
eos_soft_feed_dog_alternates_example =
    eos_soft_feed_dog_alternates shifter cpu_registers 0x13_0000 0x13_0008
      (cpu-Valid _ (omega arith)) (cpu-Valid _ (omega arith)) (cpu-Apart _ _ (omega arith))
      (cpu-Apart_behind _ _ (omega arith)) 1 28 28 all_off (new_dog start) (omega arith)
      (omega arith) refl start-Shows

eos_soft_feed_dog_blocked_example :
    let w = gpio_words system t104x in
    let driver = pins_128 shifter variant w ready_window in
    let t = feeds driver 46 4 (new_dog started) in
    ((eos_soft_feed_dog driver 46 (feeds driver 46 3 (new_dog started))).0 ≡ returned minus_one)
    × (t.eos_feed_dog_count ≡ 0)
    × ((Banks.eos_get_gpio_status shifter variant w ready_window 46 t.pins).0 ≡ ok 0)
eos_soft_feed_dog_blocked_example =
    eos_soft_feed_dog_blocked shifter variant variant-IsVariant gpio_registers ready_window
      gpio-IsWindow 3 46 46 all_off (new_dog started) refl (omega arith) (omega arith) refl
      started-Shows

abbrev cpld_window : MmapUnit
cpld_window = record {
  fd = pos 3;
  lenth = 0x100;
  bits_len = 8;
  phy_mmapbase = 0xda00_0000;
  virt_mmapbase = some 0x1000;
}

cpld_window-OnDevice : OnDevice t104x cpld_window 0x1000 8
cpld_window-OnDevice = record {
  is_mapped = refl;
  of_device = λ e. omega (arith, e);
  of_bits = refl;
  small = omega arith;
}

abbrev cpld : IsRegisters (cpld_bytes system t104x) 256
cpld =
    registers system (stores_low_first system) t104x cpld_window 0x1000
      (cpld_reaches system t104x cpld_window 0x1000 cpld_window-OnDevice)

abbrev guarded : Process ℕ
guarded = record start { core_cpld_mmap = some cpld_window }

cpld-Valid : (a : ℕ) → a ≤ 0x100 → cpld.Valid a
unfolding registers
cpld-Valid a p = p

cpld-Ready : cpld.Ready guarded
unfolding registers
cpld-Ready = refl

eos_get_dog_mode-eos_set_dog_mode_example :
    let w = cpld_bytes system t104x in
    let (r, t) = eos_set_dog_mode w 0xb 0xc 0x1ff guarded in
    let (r', t') = eos_set_dog_mode_on w 0xb 0xc 0x1ff guarded in
    (r ≡ ok (pos 0))
    × ((eos_get_dog_mode w 0xb 0xc 7 t).0 ≡ ok 0xff)
    × (r' ≡ ok (pos 0))
    × ((eos_get_dog_mode w 0xb 0xc 7 t').0 ≡ ok 0xff)
eos_get_dog_mode-eos_set_dog_mode_example =
    eos_get_dog_mode-eos_set_dog_mode cpld 0xb 0xc (cpld-Valid _ (omega arith))
      (cpld-Valid _ (omega arith)) 0x1ff 7 guarded cpld-Ready

eos_set_feed_dog_time-cell_example :
    let (r, t) = eos_set_feed_dog_time (cpld_bytes system t104x) 0xb 0xc 200 guarded in
    (r ≡ ok (pos 0)) × (cpld.cell 0xc t ≡ 200)
eos_set_feed_dog_time-cell_example =
    eos_set_feed_dog_time-cell cpld 0xb 0xc (cpld-Valid _ (omega arith))
      (cpld-Valid _ (omega arith)) 200 guarded cpld-Ready

eos_hard_feed_dog_overruns_example :
    let (r, t) = eos_hard_feed_dog system t104x 0xe_0e00 (λ j. 7) 1 start in
    (r ≡ ok (pos 0))
    × (slice t.mem (0x1000 + 0xe_0e00) 4 ≡ low_first 4 0x8000_0003)
    × ((j : ℕ) → 4 ≤ j → j < 16 → t.mem (0x1000 + 0xe_0e00 + j) ≡ 7)
eos_hard_feed_dog_overruns_example =
    eos_hard_feed_dog_overruns system (stores_low_first system) t104x cpu_window 0x1000 0xe_0e00
      cpu_window-OnRegisters (omega arith) (λ j. 7) 1 start (omega arith) refl
