-- ===== src/Spi/Memory.antt =====
-- What the methods of the four memory chips (epcs64.cpp, MX25U1635.cpp, fm25v02.cpp and
-- eos_spi_mr25h10.cpp in eos_lib/eos_spi) have in common: the source repeats this text in each
-- class, with its own number of address bytes and its own way to wait for the chip.
pub mod Locking
pub mod Behaviour
pub mod Selecting
pub mod ReadRound
pub mod WriteRound
pub mod Waiting
pub mod GivingUp
pub mod Writing
pub mod RoundTrip
pub mod Reading
use Prim.Native.Nat.{bit_and}
use libeos.Prelude.{
  ℕ, zero, suc, ◌+◌, ◌-◌, ◌/◌, ◌%◌, ◌^◌, ℤ, pos, negsuc, minus_one, is_neg, to_ℕ, to_int, Bool,
  true, false, List, [], ◌∷◌, memcpy, ◌==◌, if◌then◌else◌,
}
use libeos.Spi.Machine.{
  Bus, Sys, waited, Act, pure, return_int, gets, modify, emit, ◌>>=◌, ◌>>◌, lock_spi, unlock_spi,
  call_enable, call_disable, put_recv, put_send,
}
use libeos.Spi.Chip.{recv_buffer, send_buffer, spi_transfer}

-- SPI_MAX_READ_BUFF_LEN and SPI_MAX_WRITE_BUFF_LEN
abbrev pub max_read_buff_len : ℕ
max_read_buff_len = 32

abbrev pub max_write_buff_len : ℕ
max_write_buff_len = 260

-- `unsigned long` has 32 bits on the 32-bit targets; an address is cut to its low bytes anyhow.
abbrev pub ulong_mod : ℕ
ulong_mod = 2 ^ 32

-- The address bytes of a request, the highest first: chips with three of them, and with two.
abbrev pub addr_bytes3 : ℕ → List ℕ
addr_bytes3 addr = addr / 2 ^ 0x10 % 256 ∷ addr / 2 ^ 0x08 % 256 ∷ addr % 256 ∷ []

abbrev pub addr_bytes2 : ℕ → List ℕ
addr_bytes2 addr = addr / 2 ^ 0x08 % 256 ∷ addr % 256 ∷ []

-- `busy = _recvBuf[0] & 0x01;`
abbrev pub busy_bit : {W : Type 0} → Sys W → ℤ
busy_bit s = pos (bit_and (s.recv_buf 0) 0x01)

-- `busy == 1`
abbrev pub is_busy : ℤ → Bool
is_busy (pos n) = n == 1
is_busy (negsuc n) = false

module _ {W : Type 0} where
  -- memcpy(pucDataBuf + _recvLen, _recvBuf, ret); _recvLen = _recvLen + ret;
  abbrev pub take_recv : ℕ → Sys W → Sys W
  take_recv ret s = record s {
    data_buf = memcpy s.data_buf s.recv_len s.recv_buf 0 ret;
    recv_len = s.recv_len + ret;
  }

  -- memcpy(_sendBuf + at, pucDataBuf + _sendLen, n);
  abbrev pub fill_send : ℕ → ℕ → Sys W → Sys W
  fill_send at n s = record s { send_buf = memcpy s.send_buf at s.data_buf s.send_len n }

  -- _sendLen = _sendLen + n;
  abbrev pub count_sent : ℕ → Sys W → Sys W
  count_sent n s = record s { send_len = s.send_len + n }

  -- _recvLen = 0; and _sendLen = 0;
  abbrev pub clear_recv_len : Sys W → Sys W
  clear_recv_len s = record s { recv_len = 0 }

  abbrev pub received_len : Sys W → ℕ
  received_len s = s.recv_len

  abbrev pub clear_send_len : Sys W → Sys W
  clear_send_len s = record s { send_len = 0 }

  -- `ret = spi_transfer(…)` between enable() and disable(), each if not NULL; disable() is called
  -- on the error path too.
  unfoldable pub selected : Act W ℤ → Act W ℤ
  selected transfer = do call_enable; ret ← transfer; call_disable; pure ret

  -- `pthread_mutex_unlock(&spi_lock); return -1;`
  unfoldable pub fail : {A : Type 0} → Act W A
  fail = do unlock_spi; return_int minus_one

  -- `if(ret < 0)`: give up.
  unfoldable pub check : ℤ → Act W ℤ
  unfolding fail
  check ret = if is_neg ret then fail else pure ret

  unfoldable pub cs_transfer : Act W ℤ → Act W ℤ
  unfolding selected check
  cs_transfer transfer = do check (← selected transfer)

module _ {W : Type 0} (bus : Bus W) where
  unfoldable pub wait_us : ℕ → Act W (Unit {0})
  wait_us us = modify (λ s. emit (waited us) (record s { world = bus.usleep us s.world }))

  -- The loop `while(busy == 1)`, with `0xff - delay_count` for its number: it gives up when
  -- `delay_count` passes 0xff.
  unfoldable pub poll : Act W ℤ → ℕ → ℕ → ℤ → Act W (Unit {0})
  poll status us zero busy = if is_busy busy then (do wait_us us; fail) else pure tt
  poll status us (suc left) busy =
      if is_busy busy
      then (do wait_us us; busy' ← check (← status); poll status us left busy')
      else pure tt

  -- `busy = read_status();`, the test for an error, and the loop
  unfoldable pub wait_ready : Act W ℤ → ℕ → Act W (Unit {0})
  wait_ready status us = do busy ← check (← status); poll status us 0xff busy

  -- The read status command, 0x05, of one byte.
  unfoldable pub transfer_status : Act W ℤ
  transfer_status = do put_recv (1 ∷ 0x05 ∷ []); selected (spi_transfer bus recv_buffer 1 0)

  -- One command byte, such as write enable (0x06).
  unfoldable pub command : ℕ → Act W ℤ
  command operation_code = do
    put_send (operation_code ∷ [])
    cs_transfer (spi_transfer bus send_buffer 0 1)

  module _ (addr_len : ℕ) (addr_bytes : ℕ → List ℕ) where
    abbrev pub read_size : ℕ
    read_size = max_read_buff_len - addr_len - 1

    abbrev pub write_size : ℕ
    write_size = max_write_buff_len - addr_len - 1

    -- One round of the read loop: a read command (0x03) for `n` bytes from `addr` on. What comes
    -- back is copied behind the bytes that the caller's buffer has already.
    unfoldable pub read_part : ℕ → ℕ → Act W (Unit {0})
    read_part addr n = do
      put_recv ((addr_len + 1) ∷ 0x03 ∷ addr_bytes addr)
      ret ← cs_transfer (spi_transfer bus recv_buffer n 0)
      modify (take_recv (to_ℕ ret))

    -- The loop over the whole rounds; it hands back the address behind them.
    unfoldable pub read_rounds : ℕ → ℕ → Act W ℕ
    read_rounds zero addr = pure addr
    read_rounds (suc rounds) addr = do
      read_part addr read_size
      read_rounds rounds ((addr + read_size) % ulong_mod)

    -- The bytes that are left over.
    unfoldable pub read_rest : ℕ → ℕ → Act W (Unit {0})
    read_rest addr n = if n == 0 then pure tt else read_part addr n

    unfoldable pub device_read : ℕ → ℕ → Act W ℤ
    device_read start len = do
      lock_spi
      modify clear_recv_len
      addr ← read_rounds (len / read_size) start
      read_rest addr (len % read_size)
      n ← gets received_len
      unlock_spi
      pure (to_int n)

    module _ (wait : Act W (Unit {0})) where
      -- One round of the write loop: write enable, then a write command (0x02) with the next `n`
      -- bytes of the caller's buffer, then the wait.
      unfoldable pub write_part : ℕ → ℕ → Act W (Unit {0})
      write_part addr n = do
        command 0x06
        put_send (0x02 ∷ addr_bytes addr)
        modify (fill_send (addr_len + 1) n)
        cs_transfer (spi_transfer bus send_buffer 0 (n + addr_len + 1))
        wait
        modify (count_sent n)

      unfoldable pub write_rounds : ℕ → ℕ → Act W ℕ
      write_rounds zero addr = pure addr
      write_rounds (suc rounds) addr = do
        write_part addr write_size
        write_rounds rounds ((addr + write_size) % ulong_mod)

      unfoldable pub write_rest : ℕ → ℕ → Act W (Unit {0})
      write_rest addr n = if n == 0 then pure tt else write_part addr n

      unfoldable pub device_write : ℕ → ℕ → Act W ℤ
      device_write start len = do
        lock_spi
        modify clear_send_len
        addr ← write_rounds (len / write_size) start
        write_rest addr (len % write_size)
        unlock_spi
        pure (pos 0)
