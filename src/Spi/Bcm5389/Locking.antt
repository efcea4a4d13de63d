-- ===== src/Spi/Bcm5389/Locking.antt =====
-- The methods of `eos_spi_bcm5389` keep the discipline of the lock and the chip select line.
use libeos.Prelude.{ℕ, zero, suc, ◌+◌, pos, is_neg, to_ℕ, to_int, Bool, arith}
use libeos.Spi.Machine.{Bus}
use libeos.Spi.Discipline.{
  idle, held, transferring, Steps, lock_spi-Steps, unlock_spi-Steps, put_recv-Steps, put_send-Steps,
  call_enable-Steps, call_disable-Steps, wait_us-Steps, spi_transfer-Steps,
}
use libeos.Spi.Chip.{recv_buffer, send_buffer}
use libeos.Spi.Memory.{
  take_recv, received_len, fill_send, count_sent, clear_recv_len, clear_send_len,
}
use libeos.Spi.Memory.Locking.{cs_transfer-Steps, fail-Steps}
use libeos.Spi.Bcm5389.{
  first_byte, is_in_use, has_no_data, read_status, status, poll, wait_while, select_page, request,
  read_bytes, device_read, device_write,
}
use libeos.Spi.Triple.{Triple-bind, Triple-then, Triple-pure, Triple-modify, Triple-gets, Triple-if}

module _ {W : Type 0} (wired : Bool) (bus : Bus W) where
  status-Steps : Steps wired held (status bus) held
  unfolding status read_status
  status-Steps = Triple-then (call_enable-Steps wired) (
      Triple-bind
        (Triple-then (put_recv-Steps wired _ (transferring wired)) (
          Triple-bind (spi_transfer-Steps wired bus recv_buffer 1 0) λ ret.
            Triple-if (is_neg ret) (λ e. Triple-pure 0xff)
              (λ e. Triple-gets first_byte (λ s h. h))))
        λ value. Triple-then (call_disable-Steps wired) (Triple-pure value))

  poll-Steps :
      (waits : ℕ → Bool) (left value : ℕ) → Steps wired held (poll bus waits left value) held
  unfolding poll
  poll-Steps waits zero value =
      Triple-if (waits value)
        (λ e. Triple-then (wait_us-Steps wired bus 100) (fail-Steps wired held))
        (λ e. Triple-pure tt)
  poll-Steps waits (suc left) value =
      Triple-if (waits value)
        (λ e.
          Triple-then (wait_us-Steps wired bus 100)
            (Triple-bind status-Steps (poll-Steps waits left)))
        (λ e. Triple-pure tt)

  wait_while-Steps : (waits : ℕ → Bool) → Steps wired held (wait_while bus waits) held
  unfolding wait_while
  wait_while-Steps waits = Triple-bind status-Steps (poll-Steps waits 0xff)

  select_page-Steps : (page : ℕ) → Steps wired held (select_page bus page) held
  unfolding select_page
  select_page-Steps page =
      Triple-then (put_send-Steps wired _ held)
        (cs_transfer-Steps wired (spi_transfer-Steps wired bus send_buffer 0 3))

  request-Steps : (addr n : ℕ) → Steps wired held (request bus addr n) held
  unfolding request
  request-Steps addr n =
      Triple-then (put_recv-Steps wired _ held)
        (cs_transfer-Steps wired (spi_transfer-Steps wired bus recv_buffer n 0))

  read_bytes-Steps : (i left : ℕ) → Steps wired held (read_bytes bus i left) held
  unfolding read_bytes
  read_bytes-Steps i zero = Triple-pure tt
  read_bytes-Steps i (suc left) = Triple-bind (request-Steps _ 1) λ ret.
      Triple-then (Triple-modify (take_recv (to_ℕ ret)) (λ s h. ground arith))
        (read_bytes-Steps (i + 1) left)

  pub device_read-Steps :
      (page start len : ℕ) → Steps wired idle (device_read bus page start len) idle
  unfolding device_read
  device_read-Steps page start len = Triple-then (lock_spi-Steps wired) (
      Triple-then (Triple-modify clear_recv_len (λ s h. ground arith)) (
        Triple-then (wait_while-Steps is_in_use) (
          Triple-then (select_page-Steps page) (
            Triple-then (request-Steps start len) (
              Triple-then (wait_while-Steps has_no_data) (
                Triple-then (read_bytes-Steps 0 len) (
                  Triple-bind (Triple-gets received_len (λ s h. h))
                    λ n. Triple-then (unlock_spi-Steps wired) (Triple-pure (to_int n)))))))))

  pub device_write-Steps :
      (page start len : ℕ) → Steps wired idle (device_write bus page start len) idle
  unfolding device_write
  device_write-Steps page start len = Triple-then (lock_spi-Steps wired) (
      Triple-then (Triple-modify clear_send_len (λ s h. ground arith)) (
        Triple-then (wait_while-Steps is_in_use) (
          Triple-then (select_page-Steps page) (
            Triple-then (put_send-Steps wired _ held) (
              Triple-then (Triple-modify (fill_send 2 len) (λ s h. ground arith)) (
                Triple-then (cs_transfer-Steps wired (spi_transfer-Steps wired bus send_buffer 0 _))
                  (Triple-then (Triple-modify (count_sent len) (λ s h. ground arith))
                    (Triple-then (unlock_spi-Steps wired) (Triple-pure (pos 0))))))))))
