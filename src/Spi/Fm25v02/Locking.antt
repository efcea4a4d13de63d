-- ===== src/Spi/Fm25v02/Locking.antt =====
-- The methods of `eos_spi_fm25v02` that take the lock keep the discipline of the lock and the chip select line.
use libeos.Prelude.{ℕ, ℤ, pos, minus_one, is_neg, Bool, Option, List, [], ◌≡◌, Buf}
use libeos.Spi.Machine.{Bus, Sys, Act, call}
use libeos.Spi.Discipline.{
  idle, held, Steps, phase, is_some, lock_spi-Steps, unlock_spi-Steps, put_recv-Steps,
  spi_transfer-Steps,
}
use libeos.Spi.Chip.{recv_buffer, construct, cs_init, set_para}
use libeos.Spi.Chip.Locking.{set_para-Steps}
use libeos.Spi.Memory.{addr_bytes2, busy_bit}
use libeos.Spi.Memory.Locking.{
  cs_transfer-Steps, transfer_status-Steps, wait_ready-Steps, device_read-Steps, device_write-Steps,
  fail-Steps,
}
use libeos.Spi.Fm25v02.{
  read_status, device_read, device_write, received, accept_id, is_fm25v02, read_id,
}
use libeos.Spi.Session.{session, started, session_idle}
use libeos.Spi.Triple.{Triple-bind, Triple-then, Triple-pure, Triple-gets, Triple-if}

-- The methods that take the lock.
pub data Method : Type 0 where
  set_para_to : (p a o d c : ℕ) → Method
  read_at : (start len : ℕ) → Method
  write_at : (start len : ℕ) → Method
  identify : Method

module _ {W : Type 0} (bus : Bus W) where
  unfoldable pub invoke : Method → Act W ℤ
  invoke (set_para_to p a o d c) = set_para bus p a o d c
  invoke (read_at start len) = device_read bus start len
  invoke (write_at start len) = device_write bus start len
  invoke identify = read_id bus

  module _ (wired : Bool) where
    read_status-Steps : Steps wired held (read_status bus) held
    unfolding read_status
    read_status-Steps = Triple-bind (transfer_status-Steps wired bus) λ ret.
        Triple-if (is_neg ret) (λ e. Triple-pure minus_one) (λ e. Triple-gets busy_bit (λ s h. h))

    accept_id-Steps : (b : Buf) → Steps wired held (accept_id {W = W} b) idle
    unfolding accept_id
    accept_id-Steps b =
        Triple-if (is_fm25v02 b)
          (λ e. Triple-then (unlock_spi-Steps wired) (Triple-pure (pos (b 7))))
          (λ e. fail-Steps wired idle)

    invoke-Steps : (m : Method) → Steps wired idle (invoke m) idle
    unfolding invoke device_read device_write read_id
    invoke-Steps (set_para_to p a o d c) = set_para-Steps bus wired p a o d c
    invoke-Steps (read_at start len) = device_read-Steps wired bus 2 addr_bytes2 start len
    invoke-Steps (write_at start len) =
        device_write-Steps wired bus 2 addr_bytes2
          (wait_ready-Steps wired bus read_status-Steps 100) start len
    invoke-Steps identify = Triple-then (lock_spi-Steps wired) (
        Triple-then (put_recv-Steps wired _ held) (
          Triple-then (cs_transfer-Steps wired (spi_transfer-Steps wired bus recv_buffer 9 0))
            (Triple-bind (Triple-gets received (λ s h. h)) accept_id-Steps)))

  -- Whatever the bus does: after a constructor and a cs_init that returned 0, with nothing traced
  -- before, every sequence of these methods, with all their error paths, leaves `spi_lock` free and the
  -- chip deselected, and moved no byte without holding the lock and, if the callbacks are set, the
  -- chip selected.
  pub fm25v02_stays_idle :
      (e d : Option (W → W)) (ms : List Method) (s : Sys W)
      → (call (cs_init e d) (construct s)).0 ≡ pos 0
      → s.log ≡ []
      → phase (is_some e) (session invoke ms (started e d s)).log ≡ idle
  fm25v02_stays_idle e d = session_idle invoke e d (invoke-Steps (is_some e))
