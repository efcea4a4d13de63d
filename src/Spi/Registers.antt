-- ===== src/Spi/Registers.antt =====
-- The methods of the clock chips, the switch and the loader that take the lock keep the discipline of
-- the lock and the chip select line.
use libeos.Prelude.{ℕ, ℤ, pos, Bool, Option, List, [], ◌≡◌}
use libeos.Spi.Machine.{Bus, Sys, Act, call}
use libeos.Spi.Discipline.{idle, Steps, phase, is_some}
use libeos.Spi.Chip.{construct, cs_init, set_para}
use libeos.Spi.Chip.Locking.{set_para-Steps}
use libeos.Spi.Burst.Locking.{select_page-Steps}
use libeos.Spi.Burst.Locking as BurstLocking
use libeos.Spi.Acs9520t
use libeos.Spi.Zl30143
use libeos.Spi.Zl30155
use libeos.Spi.Zl30169
use libeos.Spi.Zl30169.Locking as Zl30169Locking
use libeos.Spi.K10
use libeos.Spi.Bcm5389
use libeos.Spi.Bcm5389.Locking as Bcm5389Locking
use libeos.Spi.Session.{session, started, session_idle}
use libeos.Spi.Triple.{Triple-pure}

pub data Class : Type 0 where
  acs9520t zl30143 zl30155 zl30169 k10 bcm5389 : Class

-- The methods that take the lock. A class without pages, or without addresses, does not look at
-- the arguments for them.
pub data Method : Type 0 where
  set_para_to : (p a o d c : ℕ) → Method
  read_at : (page start len : ℕ) → Method
  write_at : (page start len : ℕ) → Method

module _ {W : Type 0} (bus : Bus W) where
  unfoldable pub read_from : Class → (page start len : ℕ) → Act W ℤ
  read_from acs9520t page start len = Acs9520t.device_read bus start len
  read_from zl30143 page start len = Zl30143.device_read bus page start len
  read_from zl30155 page start len = Zl30155.device_read bus page start len
  read_from zl30169 page start len = Zl30169.device_read bus start len
  read_from k10 page start len = K10.device_read bus len
  read_from bcm5389 page start len = Bcm5389.device_read bus page start len

  unfoldable pub write_to : Class → (page start len : ℕ) → Act W ℤ
  write_to acs9520t page start len = Acs9520t.device_write bus start len
  write_to zl30143 page start len = Zl30143.device_write bus page start len
  write_to zl30155 page start len = Zl30155.device_write bus page start len
  write_to zl30169 page start len = Zl30169.device_write bus start len
  write_to k10 page start len = K10.device_write bus len
  write_to bcm5389 page start len = Bcm5389.device_write bus page start len

  unfoldable pub invoke : Class → Method → Act W ℤ
  unfolding read_from write_to
  invoke class (set_para_to p a o d c) = set_para bus p a o d c
  invoke class (read_at page start len) = read_from class page start len
  invoke class (write_at page start len) = write_to class page start len

  module _ (wired : Bool) where
    read_from-Steps :
        (class : Class) (page start len : ℕ)
        → Steps wired idle (read_from class page start len) idle
    unfolding read_from Acs9520t.device_read Zl30143.device_read Zl30155.device_read K10.device_read
    read_from-Steps acs9520t page start len =
        BurstLocking.device_read-Steps wired bus (Acs9520t.burst bus start) (Triple-pure tt) len
    read_from-Steps zl30143 page start len =
        BurstLocking.device_read-Steps wired bus (Zl30143.burst bus page start)
          (select_page-Steps wired bus 0x64 page) len
    read_from-Steps zl30155 page start len =
        BurstLocking.device_read-Steps wired bus (Zl30155.burst bus page start)
          (select_page-Steps wired bus 0x7f page) len
    read_from-Steps zl30169 page start len = Zl30169Locking.device_read-Steps wired bus start len
    read_from-Steps k10 page start len =
        BurstLocking.device_read-Steps wired bus (K10.burst bus) (Triple-pure tt) len
    read_from-Steps bcm5389 page start len =
        Bcm5389Locking.device_read-Steps wired bus page start len

    write_to-Steps :
        (class : Class) (page start len : ℕ) → Steps wired idle (write_to class page start len) idle
    unfolding write_to Acs9520t.device_write Zl30143.device_write Zl30155.device_write
        K10.device_write
    write_to-Steps acs9520t page start len =
        BurstLocking.device_write-Steps wired bus (Acs9520t.burst bus start) (Triple-pure tt) len
    write_to-Steps zl30143 page start len =
        BurstLocking.device_write-Steps wired bus (Zl30143.burst bus page start)
          (select_page-Steps wired bus 0x64 page) len
    write_to-Steps zl30155 page start len =
        BurstLocking.device_write-Steps wired bus (Zl30155.burst bus page start)
          (select_page-Steps wired bus 0x7f page) len
    write_to-Steps zl30169 page start len = Zl30169Locking.device_write-Steps wired bus start len
    write_to-Steps k10 page start len =
        BurstLocking.device_write-Steps wired bus (K10.burst bus) (Triple-pure tt) len
    write_to-Steps bcm5389 page start len =
        Bcm5389Locking.device_write-Steps wired bus page start len

    invoke-Steps : (class : Class) (m : Method) → Steps wired idle (invoke class m) idle
    unfolding invoke
    invoke-Steps class (set_para_to p a o d c) = set_para-Steps bus wired p a o d c
    invoke-Steps class (read_at page start len) = read_from-Steps class page start len
    invoke-Steps class (write_at page start len) = write_to-Steps class page start len

  -- For the three clock chips with register pages or register numbers, the one with memory
  -- addresses, the loader and the switch, whatever the bus does: after a constructor and a cs_init
  -- that returned 0, with nothing traced before, every sequence of these methods of one object, with all
  -- their error paths, leaves `spi_lock` free and the chip deselected, and moved no byte without
  -- holding the lock and, if the callbacks are set, the chip selected.
  pub registers_stay_idle :
      (class : Class) (e d : Option (W → W)) (ms : List Method) (s : Sys W)
      → (call (cs_init e d) (construct s)).0 ≡ pos 0
      → s.log ≡ []
      → phase (is_some e) (session (invoke class) ms (started e d s)).log ≡ idle
  registers_stay_idle class e d = session_idle (invoke class) e d (invoke-Steps (is_some e) class)
