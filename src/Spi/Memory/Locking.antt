-- ===== src/Spi/Memory/Locking.antt =====
-- The shared methods of the memory chips keep the discipline of the lock and the chip select line.
use libeos.Prelude.{ℕ, zero, suc, ◌+◌, ℤ, pos, is_neg, Bool, List, arith, to_int, ◌==◌, to_ℕ}
use libeos.Spi.Machine.{Bus, Act}
use libeos.Spi.Discipline.{
  Phase, idle, held, Steps, transferring, lock_spi-Steps, unlock_spi-Steps, call_enable-Steps,
  call_disable-Steps, put_recv-Steps, put_send-Steps, wait_us-Steps, spi_transfer-Steps,
}
use libeos.Spi.Chip.{recv_buffer, send_buffer}
use libeos.Spi.Memory.{
  selected, fail, check, cs_transfer, poll, wait_ready, transfer_status, command, read_part,
  read_rounds, device_read, write_part, write_rounds, device_write, is_busy, take_recv,
  received_len, read_rest, write_rest, fill_send, count_sent, clear_recv_len, clear_send_len,
}
use libeos.Spi.Triple.{
  Triple-bind, Triple-then, Triple-pure, Triple-modify, Triple-gets, Triple-if, Triple-return,
}

module _ {W : Type 0} (wired : Bool) where
  pub selected-Steps :
      {t : Act W ℤ}
      → Steps wired (transferring wired) t (transferring wired)
      → Steps wired held (selected t) held
  unfolding selected
  selected-Steps t =
      Triple-then (call_enable-Steps wired)
        (Triple-bind t (λ ret. Triple-then (call_disable-Steps wired) (Triple-pure ret)))

  pub fail-Steps : {A : Type 0} (to : Phase) → Steps {W = W} wired held (fail {A = A}) to
  unfolding fail
  fail-Steps to = Triple-then (unlock_spi-Steps wired) (Triple-return _ (λ s h. h))

  pub check-Steps : (ret : ℤ) → Steps {W = W} wired held (check ret) held
  unfolding check
  check-Steps ret = Triple-if (is_neg ret) (λ e. fail-Steps held) (λ e. Triple-pure ret)

  pub cs_transfer-Steps :
      {t : Act W ℤ}
      → Steps wired (transferring wired) t (transferring wired)
      → Steps wired held (cs_transfer t) held
  unfolding cs_transfer
  cs_transfer-Steps t = Triple-bind (selected-Steps t) check-Steps

  module _ (bus : Bus W) where
    pub transfer_status-Steps : Steps wired held (transfer_status bus) held
    unfolding transfer_status
    transfer_status-Steps =
        Triple-then (put_recv-Steps wired _ held)
          (selected-Steps (spi_transfer-Steps wired bus recv_buffer 1 0))

    pub command-Steps : (c : ℕ) → Steps wired held (command bus c) held
    unfolding command
    command-Steps c =
        Triple-then (put_send-Steps wired _ held)
          (cs_transfer-Steps (spi_transfer-Steps wired bus send_buffer 0 1))

    module _ {status : Act W ℤ} (status_steps : Steps wired held status held) (us : ℕ) where
      pub poll-Steps : (left : ℕ) (busy : ℤ) → Steps wired held (poll bus status us left busy) held
      unfolding poll
      poll-Steps zero busy =
          Triple-if (is_busy busy) (λ e. Triple-then (wait_us-Steps wired bus us) (fail-Steps held))
            (λ e. Triple-pure tt)
      poll-Steps (suc left) busy =
          Triple-if (is_busy busy)
            (λ e.
              Triple-then (wait_us-Steps wired bus us)
                (Triple-bind status_steps λ b. Triple-bind (check-Steps b) (poll-Steps left)))
            (λ e. Triple-pure tt)

      pub wait_ready-Steps : Steps wired held (wait_ready bus status us) held
      unfolding wait_ready
      wait_ready-Steps = Triple-bind status_steps λ b. Triple-bind (check-Steps b) (poll-Steps 0xff)

    module _ (addr_len : ℕ) (addr_bytes : ℕ → List ℕ) where
      read_part-Steps :
          (addr n : ℕ) → Steps wired held (read_part bus addr_len addr_bytes addr n) held
      unfolding read_part
      read_part-Steps addr n = Triple-then (put_recv-Steps wired _ held) (
          Triple-bind (cs_transfer-Steps (spi_transfer-Steps wired bus recv_buffer n 0))
            λ ret. Triple-modify (take_recv (to_ℕ ret)) (λ s h. ground arith))

      read_rounds-Steps :
          (rounds addr : ℕ)
          → Steps wired held (read_rounds bus addr_len addr_bytes rounds addr) held
      unfolding read_rounds
      read_rounds-Steps zero addr = Triple-pure addr
      read_rounds-Steps (suc rounds) addr =
          Triple-then (read_part-Steps addr _) (read_rounds-Steps rounds _)

      read_rest-Steps :
          (addr n : ℕ) → Steps wired held (read_rest bus addr_len addr_bytes addr n) held
      unfolding read_rest
      read_rest-Steps addr n =
          Triple-if (n == 0) (λ e. Triple-pure tt) (λ e. read_part-Steps addr n)

      -- A read takes the lock and gives it back, however it ends.
      pub device_read-Steps :
          (start len : ℕ) → Steps wired idle (device_read bus addr_len addr_bytes start len) idle
      unfolding device_read
      device_read-Steps start len = Triple-then (lock_spi-Steps wired) (
          Triple-then (Triple-modify clear_recv_len (λ s h. ground arith)) (
            Triple-bind (read_rounds-Steps _ start) λ addr. Triple-then (read_rest-Steps addr _) (
              Triple-bind (Triple-gets received_len (λ s h. h))
                λ n. Triple-then (unlock_spi-Steps wired) (Triple-pure (to_int n)))))

      module _ {wait : Act W (Unit {0})} (wait_steps : Steps wired held wait held) where
        write_part-Steps :
            (addr n : ℕ) → Steps wired held (write_part bus addr_len addr_bytes wait addr n) held
        unfolding write_part
        write_part-Steps addr n = Triple-then (command-Steps 0x06) (
            Triple-then (put_send-Steps wired _ held) (
              Triple-then (Triple-modify (fill_send (addr_len + 1) n) (λ s h. ground arith)) (
                Triple-then (cs_transfer-Steps (spi_transfer-Steps wired bus send_buffer 0 _))
                  (Triple-then wait_steps (Triple-modify (count_sent n) (λ s h. ground arith))))))

        write_rounds-Steps :
            (rounds addr : ℕ)
            → Steps wired held (write_rounds bus addr_len addr_bytes wait rounds addr) held
        unfolding write_rounds
        write_rounds-Steps zero addr = Triple-pure addr
        write_rounds-Steps (suc rounds) addr =
            Triple-then (write_part-Steps addr _) (write_rounds-Steps rounds _)

        write_rest-Steps :
            (addr n : ℕ) → Steps wired held (write_rest bus addr_len addr_bytes wait addr n) held
        unfolding write_rest
        write_rest-Steps addr n =
            Triple-if (n == 0) (λ e. Triple-pure tt) (λ e. write_part-Steps addr n)

        -- So does a write.
        pub device_write-Steps :
            (start len : ℕ)
            → Steps wired idle (device_write bus addr_len addr_bytes wait start len) idle
        unfolding device_write
        device_write-Steps start len = Triple-then (lock_spi-Steps wired) (
            Triple-then (Triple-modify clear_send_len (λ s h. ground arith)) (
              Triple-bind (write_rounds-Steps _ start) λ addr.
                Triple-then (write_rest-Steps addr _)
                  (Triple-then (unlock_spi-Steps wired) (Triple-pure (pos 0)))))
