-- ===== src/Spi/Bcm5389.antt =====
-- The Ethernet switch's class `eos_spi_bcm5389`, eos_lib/eos_spi/BCM5389.cpp: pages of registers,
-- and a status register that says when the chip can go on.
pub mod Locking
use Prim.Native.Nat.{bit_and}
use libeos.Prelude.{
  ℕ, zero, suc, ◌+◌, ◌%◌, ℤ, pos, is_neg, to_ℕ, to_int, Bool, not, [], ◌∷◌, ◌==◌, if◌then◌else◌,
}
use libeos.Spi.Machine.{
  Bus, Sys, Act, pure, gets, modify, ◌>>=◌, ◌>>◌, lock_spi, unlock_spi, call_enable, call_disable,
  put_recv, put_send,
}
use libeos.Spi.Chip.{recv_buffer, send_buffer, spi_transfer}
use libeos.Spi.Memory.{
  wait_us, fail, cs_transfer, take_recv, fill_send, count_sent, clear_recv_len, clear_send_len,
  received_len,
}

abbrev pub first_byte : {W : Type 0} → Sys W → ℕ
first_byte s = s.recv_buf 0

-- 0x0 != (status & 0x80), and 0x20 != (status & 0x20)
abbrev pub is_in_use : ℕ → Bool
is_in_use status = not (bit_and status 0x80 == 0x0)

abbrev pub has_no_data : ℕ → Bool
has_no_data status = not (bit_and status 0x20 == 0x20)

module _ {W : Type 0} (bus : Bus W) where
  unfoldable pub read_status : Act W ℕ
  read_status = do
    put_recv (2 ∷ 0x60 ∷ 0xfe ∷ [])
    ret ← spi_transfer bus recv_buffer 1 0
    if is_neg ret then pure 0xff else gets first_byte

  -- read_status between enable() and disable(), each if not NULL
  unfoldable pub status : Act W ℕ
  status = do call_enable; s ← read_status; call_disable; pure s

  -- A loop on the status, with `0xff - delay_count` for its number: it gives up when `delay_count`
  -- passes 0xff.
  unfoldable pub poll : (waits : ℕ → Bool) (left value : ℕ) → Act W (Unit {0})
  poll waits zero value = if waits value then (do wait_us bus 100; fail) else pure tt
  poll waits (suc left) value =
      if waits value then (do wait_us bus 100; value' ← status; poll waits left value') else pure tt

  unfoldable pub wait_while : (waits : ℕ → Bool) → Act W (Unit {0})
  wait_while waits = do value ← status; poll waits 0xff value

  -- The page's number goes to the register 0xff.
  unfoldable pub select_page : (page_addr : ℕ) → Act W ℤ
  select_page page_addr = do
    put_send (0x61 ∷ 0xff ∷ page_addr ∷ [])
    cs_transfer (spi_transfer bus send_buffer 0 3)

  -- A read request for `n` bytes.
  unfoldable pub request : (addr n : ℕ) → Act W ℤ
  request addr n = do
    put_recv (2 ∷ 0x60 ∷ addr ∷ [])
    cs_transfer (spi_transfer bus recv_buffer n 0)

  -- The loop over the bytes at 0xf0 and on, from index `i`.
  unfoldable pub read_bytes : (i left : ℕ) → Act W (Unit {0})
  read_bytes i zero = pure tt
  read_bytes i (suc left) = do
    ret ← request ((0xf0 + i) % 256) 1
    modify (take_recv (to_ℕ ret))
    read_bytes (i + 1) left

  unfoldable pub device_read : (page_addr start len : ℕ) → Act W ℤ
  device_read page_addr start len = do
    lock_spi
    modify clear_recv_len
    wait_while is_in_use
    select_page page_addr
    request start len
    wait_while has_no_data
    read_bytes 0 len
    n ← gets received_len
    unlock_spi
    pure (to_int n)

  unfoldable pub device_write : (page_addr start len : ℕ) → Act W ℤ
  device_write page_addr start len = do
    lock_spi
    modify clear_send_len
    wait_while is_in_use
    select_page page_addr
    put_send (0x61 ∷ start ∷ [])
    modify (fill_send 2 len)
    cs_transfer (spi_transfer bus send_buffer 0 (len + 2))
    modify (count_sent len)
    unlock_spi
    pure (pos 0)
