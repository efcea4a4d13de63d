-- ===== src/Spi/Classes.antt =====
-- The ten classes of eos_lib/eos_spi together: one statement about the lock and the chip select line
-- for an object of any of them, and the methods that take the lock.
use libeos.Prelude.{ℤ, pos, Option, List, [], ◌≡◌}
use libeos.Spi.Machine.{Bus, Sys, Act, call}
use libeos.Spi.Discipline.{idle, phase, is_some}
use libeos.Spi.Chip.{construct, cs_init}
use libeos.Spi.Session.{session, started}
use libeos.Spi.Epcs64.Locking as EpcsLocking
use libeos.Spi.Mx25u1635.Locking as MxLocking
use libeos.Spi.Fm25v02.Locking as FmLocking
use libeos.Spi.Mr25h10.Locking as MrLocking
use libeos.Spi.Registers as RegistersOf

-- The four memories, and the six classes of registers.
pub data Class : Type 0 where
  epcs64 mx25u1635 fm25v02 mr25h10 : Class
  registers : RegistersOf.Class → Class

-- The methods of a class that take the lock. Left out are the functions of an object that transfer
-- without it: spi_transfer, and the public read_status of eos_spi_epcs64 and eos_spi_mx25u1635.
abbrev pub MethodOf : Class → Type 0
MethodOf epcs64 = EpcsLocking.Method
MethodOf mx25u1635 = MxLocking.Method
MethodOf fm25v02 = FmLocking.Method
MethodOf mr25h10 = MrLocking.Method
MethodOf (registers class) = RegistersOf.Method

module _ {W : Type 0} (bus : Bus W) where
  abbrev pub invoke : (class : Class) → MethodOf class → Act W ℤ
  invoke epcs64 = EpcsLocking.invoke bus
  invoke mx25u1635 = MxLocking.invoke bus
  invoke fm25v02 = FmLocking.invoke bus
  invoke mr25h10 = MrLocking.invoke bus
  invoke (registers class) = RegistersOf.invoke bus class

  -- For an object of each of the ten classes, whatever the bus does: after a constructor and a
  -- cs_init that returned 0, with nothing traced before, every sequence of the methods of that class
  -- that take the lock (set_para, the reads and writes, the erases, write_status and read_id), with
  -- all their error paths, leaves `spi_lock` free and the chip deselected, and moved no byte without
  -- holding the lock and, if the callbacks are set, the chip selected. Calls from outside of
  -- read_status or spi_transfer, and a second cs_init, are not among them.
  pub chips_stay_idle :
      (class : Class) (e d : Option (W → W)) (ms : List (MethodOf class)) (s : Sys W)
      → (call (cs_init e d) (construct s)).0 ≡ pos 0
      → s.log ≡ []
      → phase (is_some e) (session (invoke class) ms (started e d s)).log ≡ idle
  chips_stay_idle epcs64 = EpcsLocking.epcs64_stays_idle bus
  chips_stay_idle mx25u1635 = MxLocking.mx25u1635_stays_idle bus
  chips_stay_idle fm25v02 = FmLocking.fm25v02_stays_idle bus
  chips_stay_idle mr25h10 = MrLocking.mr25h10_stays_idle bus
  chips_stay_idle (registers class) = RegistersOf.registers_stay_idle bus class
