-- ===== src/Spi/Burst/Locking.antt =====
-- The shared methods of these chips keep the discipline of the lock and the chip select line.
use libeos.Prelude.{ℕ, zero, suc, pos, Bool, arith, to_int, ◌==◌, to_ℕ}
use libeos.Spi.Machine.{Bus}
use libeos.Spi.Discipline.{
  idle, held, Steps, lock_spi-Steps, unlock_spi-Steps, put_recv-Steps, put_send-Steps,
  spi_transfer-Steps,
}
use libeos.Spi.Chip.{recv_buffer, send_buffer}
use libeos.Spi.Memory.{
  take_recv, received_len, fill_send, count_sent, clear_recv_len, clear_send_len,
}
use libeos.Spi.Memory.Locking.{cs_transfer-Steps}
use libeos.Spi.Burst.{
  Burst, select_page, read_part, read_rounds, read_rest, device_read, write_part, write_rounds,
  write_rest, device_write,
}
use libeos.Spi.Triple.{Triple-bind, Triple-then, Triple-pure, Triple-modify, Triple-gets, Triple-if}

module _ {W : Type 0} (wired : Bool) (bus : Bus W) where
  pub select_page-Steps : (r p : ℕ) → Steps wired held (select_page bus r p) held
  unfolding select_page
  select_page-Steps r p = Triple-then (put_recv-Steps wired _ held) (
      Triple-then (cs_transfer-Steps wired (spi_transfer-Steps wired bus recv_buffer 0 2))
        (Triple-pure tt))

  module _ (burst : Burst W) (begin_steps : Steps wired held burst.begin held) where
    read_part-Steps : (n : ℕ) → Steps wired held (read_part bus burst n) held
    unfolding read_part
    read_part-Steps n = Triple-then (put_recv-Steps wired _ held) (
        Triple-bind (cs_transfer-Steps wired (spi_transfer-Steps wired bus recv_buffer n 0))
          λ ret. Triple-modify (take_recv (to_ℕ ret)) (λ s h. ground arith))

    read_rounds-Steps : (rounds : ℕ) → Steps wired held (read_rounds bus burst rounds) held
    unfolding read_rounds
    read_rounds-Steps zero = Triple-pure tt
    read_rounds-Steps (suc rounds) = Triple-then (read_part-Steps _) (read_rounds-Steps rounds)

    read_rest-Steps : (n : ℕ) → Steps wired held (read_rest bus burst n) held
    unfolding read_rest
    read_rest-Steps n = Triple-if (n == 0) (λ e. Triple-pure tt) (λ e. read_part-Steps n)

    pub device_read-Steps : (len : ℕ) → Steps wired idle (device_read bus burst len) idle
    unfolding device_read
    device_read-Steps len = Triple-then (lock_spi-Steps wired) (
        Triple-then (Triple-modify clear_recv_len (λ s h. ground arith)) (
          Triple-then begin_steps (
            Triple-then (read_rounds-Steps _) (
              Triple-then (read_rest-Steps _) (
                Triple-bind (Triple-gets received_len (λ s h. h))
                  λ n. Triple-then (unlock_spi-Steps wired) (Triple-pure (to_int n)))))))

    write_part-Steps : (n : ℕ) → Steps wired held (write_part bus burst n) held
    unfolding write_part
    write_part-Steps n = Triple-then (put_send-Steps wired _ held) (
        Triple-then (Triple-modify (fill_send burst.head_len n) (λ s h. ground arith)) (
          Triple-then (cs_transfer-Steps wired (spi_transfer-Steps wired bus send_buffer 0 _))
            (Triple-modify (count_sent n) (λ s h. ground arith))))

    write_rounds-Steps : (rounds : ℕ) → Steps wired held (write_rounds bus burst rounds) held
    unfolding write_rounds
    write_rounds-Steps zero = Triple-pure tt
    write_rounds-Steps (suc rounds) = Triple-then (write_part-Steps _) (write_rounds-Steps rounds)

    write_rest-Steps : (n : ℕ) → Steps wired held (write_rest bus burst n) held
    unfolding write_rest
    write_rest-Steps n = Triple-if (n == 0) (λ e. Triple-pure tt) (λ e. write_part-Steps n)

    pub device_write-Steps : (len : ℕ) → Steps wired idle (device_write bus burst len) idle
    unfolding device_write
    device_write-Steps len = Triple-then (lock_spi-Steps wired) (
        Triple-then (Triple-modify clear_send_len (λ s h. ground arith)) (
          Triple-then begin_steps (
            Triple-then (write_rounds-Steps _) (
              Triple-then (write_rest-Steps _)
                (Triple-then (unlock_spi-Steps wired) (Triple-pure (pos 0)))))))
