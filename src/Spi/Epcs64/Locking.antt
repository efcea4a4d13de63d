-- ===== src/Spi/Epcs64/Locking.antt =====
-- The methods of `eos_spi_epcs64` that take the lock keep the discipline of the lock and the chip select line.
use libeos.Prelude.{ℕ, ℤ, pos, minus_one, is_neg, Bool, ◌==◌, Option, List, [], ◌≡◌}
use libeos.Spi.Machine.{Bus, Sys, Act, call}
use libeos.Spi.Discipline.{
  idle, held, Steps, phase, is_some, lock_spi-Steps, unlock_spi-Steps, put_recv-Steps,
  put_send-Steps, spi_transfer-Steps,
}
use libeos.Spi.Chip.{recv_buffer, send_buffer, construct, cs_init, set_para}
use libeos.Spi.Chip.Locking.{set_para-Steps}
use libeos.Spi.Memory.{addr_bytes3, busy_bit, wait_ready}
use libeos.Spi.Memory.Locking.{
  cs_transfer-Steps, transfer_status-Steps, command-Steps, wait_ready-Steps, device_read-Steps,
  device_write-Steps,
}
use libeos.Spi.Epcs64.{
  read_status, device_read, device_write, write_status, device_erase, ask, recv_at, request_id,
  read_id,
}
use libeos.Spi.Session.{session, started, session_idle}
use libeos.Spi.Triple.{Triple-bind, Triple-then, Triple-pure, Triple-gets, Triple-if}

-- The methods that take the lock. The public read_status, which transfers without it, is not one.
pub data Method : Type 0 where
  set_para_to : (p a o d c : ℕ) → Method
  read_at : (start len : ℕ) → Method
  write_at : (start len : ℕ) → Method
  put_status : ℕ → Method
  erase : Method
  identify : (operation_code type : ℕ) → Method

module _ {W : Type 0} (bus : Bus W) where
  unfoldable pub invoke : Method → Act W ℤ
  invoke (set_para_to p a o d c) = set_para bus p a o d c
  invoke (read_at start len) = device_read bus start len
  invoke (write_at start len) = device_write bus start len
  invoke (put_status status) = write_status bus status
  invoke erase = device_erase bus
  invoke (identify operation_code type) = read_id bus operation_code type

  module _ (wired : Bool) where
    read_status-Steps : Steps wired held (read_status bus) held
    unfolding read_status
    read_status-Steps = Triple-bind (transfer_status-Steps wired bus) λ ret.
        Triple-if (is_neg ret) (λ e. Triple-pure minus_one) (λ e. Triple-gets busy_bit (λ s h. h))

    ask-Steps : (bytes : List ℕ) (n i : ℕ) → Steps wired held (ask bus bytes n i) held
    unfolding ask
    ask-Steps bytes n i = Triple-then (put_recv-Steps wired bytes held) (
        Triple-then (cs_transfer-Steps wired (spi_transfer-Steps wired bus recv_buffer n 0))
          (Triple-gets (recv_at i) (λ s h. h)))

    request_id-Steps : (c t : ℕ) → Steps wired held (request_id bus c t) held
    unfolding request_id
    request_id-Steps c t =
        Triple-if (t == 0)
          (λ _.
            Triple-if (c == 0xab) (λ _. ask-Steps _ 1 0)
              (λ _. Triple-if (c == 0x9f) (λ _. ask-Steps _ 1 0) (λ _. Triple-pure (pos 0))))
          (λ _.
            Triple-if (t == 1)
              (λ _. Triple-if (c == 0x9f) (λ _. ask-Steps _ 3 2) (λ _. Triple-pure (pos 0)))
              (λ _. Triple-pure (pos 0)))

    wait-Steps : (us : ℕ) → Steps wired held (wait_ready bus (read_status bus) us) held
    wait-Steps us = wait_ready-Steps wired bus read_status-Steps us

    invoke-Steps : (m : Method) → Steps wired idle (invoke m) idle
    unfolding invoke device_read device_write write_status device_erase read_id
    invoke-Steps (set_para_to p a o d c) = set_para-Steps bus wired p a o d c
    invoke-Steps (read_at start len) = device_read-Steps wired bus 3 addr_bytes3 start len
    invoke-Steps (write_at start len) =
        device_write-Steps wired bus 3 addr_bytes3 (wait-Steps 100) start len
    invoke-Steps (put_status status) = Triple-then (lock_spi-Steps wired) (
        Triple-then (command-Steps wired bus 0x06) (
          Triple-then (put_send-Steps wired _ held) (
            Triple-then (cs_transfer-Steps wired (spi_transfer-Steps wired bus send_buffer 0 2)) (
              Triple-then (wait-Steps 100)
                (Triple-then (unlock_spi-Steps wired) (Triple-pure (pos 0)))))))
    invoke-Steps erase = Triple-then (lock_spi-Steps wired) (
        Triple-then (command-Steps wired bus 0x06) (
          Triple-then (command-Steps wired bus 0xc7) (
            Triple-then (wait-Steps 5_000_000)
              (Triple-then (unlock_spi-Steps wired) (Triple-pure (pos 0))))))
    invoke-Steps (identify c t) = Triple-then (lock_spi-Steps wired) (
        Triple-bind (request_id-Steps c t)
          λ id. Triple-then (unlock_spi-Steps wired) (Triple-pure id))

  -- Whatever the bus does: after a constructor and a cs_init that returned 0, with nothing traced
  -- before, every sequence of these methods, with all their error paths, leaves `spi_lock` free and the
  -- chip deselected, and moved no byte without holding the lock and, if the callbacks are set, the
  -- chip selected.
  pub epcs64_stays_idle :
      (e d : Option (W → W)) (ms : List Method) (s : Sys W)
      → (call (cs_init e d) (construct s)).0 ≡ pos 0
      → s.log ≡ []
      → phase (is_some e) (session invoke ms (started e d s)).log ≡ idle
  epcs64_stays_idle e d = session_idle invoke e d (invoke-Steps (is_some e))
