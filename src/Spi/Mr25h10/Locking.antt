-- ===== src/Spi/Mr25h10/Locking.antt =====
-- The methods of `eos_spi_mr25h10` that take the lock keep the discipline of the lock and the chip select line.
use libeos.Prelude.{ℕ, ℤ, pos, Bool, Option, List, [], ◌≡◌}
use libeos.Spi.Machine.{Bus, Sys, Act, call, pure}
use libeos.Spi.Discipline.{idle, Steps, phase, is_some}
use libeos.Spi.Chip.{construct, cs_init, set_para}
use libeos.Spi.Chip.Locking.{set_para-Steps}
use libeos.Spi.Memory.{addr_bytes3}
use libeos.Spi.Memory.Locking.{device_read-Steps, device_write-Steps}
use libeos.Spi.Mr25h10.{device_read, device_write}
use libeos.Spi.Session.{session, started, session_idle}
use libeos.Spi.Triple.{Triple-pure}

-- The methods that take the lock.
pub data Method : Type 0 where
  set_para_to : (p a o d c : ℕ) → Method
  read_at : (start len : ℕ) → Method
  write_at : (start len : ℕ) → Method

module _ {W : Type 0} (bus : Bus W) where
  unfoldable pub invoke : Method → Act W ℤ
  invoke (set_para_to p a o d c) = set_para bus p a o d c
  invoke (read_at start len) = device_read bus start len
  invoke (write_at start len) = device_write bus start len

  module _ (wired : Bool) where
    invoke-Steps : (m : Method) → Steps wired idle (invoke m) idle
    unfolding invoke device_read device_write
    invoke-Steps (set_para_to p a o d c) = set_para-Steps bus wired p a o d c
    invoke-Steps (read_at start len) = device_read-Steps wired bus 3 addr_bytes3 start len
    invoke-Steps (write_at start len) =
        device_write-Steps wired bus 3 addr_bytes3 {wait = pure tt} (Triple-pure tt) start len

  -- Whatever the bus does: after a constructor and a cs_init that returned 0, with nothing traced
  -- before, every sequence of these methods, with all their error paths, leaves `spi_lock` free and the
  -- chip deselected, and moved no byte without holding the lock and, if the callbacks are set, the
  -- chip selected.
  pub mr25h10_stays_idle :
      (e d : Option (W → W)) (ms : List Method) (s : Sys W)
      → (call (cs_init e d) (construct s)).0 ≡ pos 0
      → s.log ≡ []
      → phase (is_some e) (session invoke ms (started e d s)).log ≡ idle
  mr25h10_stays_idle e d = session_idle invoke e d (invoke-Steps (is_some e))
