-- ===== src/Spi/Zl30169/Locking.antt =====
-- The methods of `eos_spi_zl30169` keep the discipline of the lock and the chip select line.
use libeos.Prelude.{ℕ, zero, suc, pos, Bool, arith, ◌==◌}
use libeos.Spi.Machine.{Bus}
use libeos.Spi.Discipline.{
  idle, held, Steps, lock_spi-Steps, unlock_spi-Steps, put_send-Steps, spi_transfer-Steps,
}
use libeos.Spi.Chip.{send_buffer}
use libeos.Spi.Memory.{addr_bytes2, fill_send, count_sent, clear_send_len}
use libeos.Spi.Memory.Locking
use libeos.Spi.Zl30169.{
  read_status, device_read, write_part, write_rounds, write_rest, device_write,
}
use libeos.Spi.Triple.{Triple-bind, Triple-then, Triple-pure, Triple-modify, Triple-if}

module _ {W : Type 0} (wired : Bool) (bus : Bus W) where
  pub device_read-Steps : (start len : ℕ) → Steps wired idle (device_read bus start len) idle
  unfolding device_read
  device_read-Steps start len = Locking.device_read-Steps wired bus 2 addr_bytes2 start len

  read_status-Steps : Steps {W = W} wired held read_status held
  unfolding read_status
  read_status-Steps = Triple-pure (pos 0)

  write_part-Steps : (addr n : ℕ) → Steps wired held (write_part bus addr n) held
  unfolding write_part
  write_part-Steps addr n = Triple-then (put_send-Steps wired _ held) (
      Triple-then (Triple-modify (fill_send 3 n) (λ s h. ground arith)) (
        Triple-then (Locking.cs_transfer-Steps wired (spi_transfer-Steps wired bus send_buffer 0 _))
          (Triple-then (Locking.wait_ready-Steps wired bus read_status-Steps 100)
            (Triple-modify (count_sent n) (λ s h. ground arith)))))

  write_rounds-Steps : (rounds addr : ℕ) → Steps wired held (write_rounds bus rounds addr) held
  unfolding write_rounds
  write_rounds-Steps zero addr = Triple-pure addr
  write_rounds-Steps (suc rounds) addr =
      Triple-then (write_part-Steps addr _) (write_rounds-Steps rounds _)

  write_rest-Steps : (addr n : ℕ) → Steps wired held (write_rest bus addr n) held
  unfolding write_rest
  write_rest-Steps addr n = Triple-if (n == 0) (λ e. Triple-pure tt) (λ e. write_part-Steps addr n)

  pub device_write-Steps : (start len : ℕ) → Steps wired idle (device_write bus start len) idle
  unfolding device_write
  device_write-Steps start len = Triple-then (lock_spi-Steps wired) (
      Triple-then (Triple-modify clear_send_len (λ s h. ground arith)) (
        Triple-bind (write_rounds-Steps _ start) λ addr.
          Triple-then (write_rest-Steps addr _)
            (Triple-then (unlock_spi-Steps wired) (Triple-pure (pos 0)))))
