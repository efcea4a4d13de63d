-- ===== src/Spi/Zl30169.antt =====
-- The clock chip's class `eos_spi_zl30169`, eos_lib/eos_spi/zl30169.cpp: its reads are those of a
-- memory with two address bytes, its writes too, but without a write enable.
pub mod Locking
use libeos.Prelude.{ℕ, zero, suc, ◌+◌, ◌/◌, ◌%◌, ◌^◌, ℤ, pos, [], ◌∷◌, ◌==◌, if◌then◌else◌}
use libeos.Spi.Machine.{Bus, Act, pure, modify, ◌>>=◌, ◌>>◌, lock_spi, unlock_spi, put_send}
use libeos.Spi.Chip.{send_buffer, spi_transfer}
use libeos.Spi.Memory
use libeos.Spi.Memory.{
  addr_bytes2, ulong_mod, write_size, cs_transfer, wait_ready, fill_send, count_sent,
  clear_send_len,
}

module _ {W : Type 0} where
  -- The request for the status is compiled out.
  unfoldable pub read_status : Act W ℤ
  read_status = pure (pos 0)

module _ {W : Type 0} (bus : Bus W) where
  unfoldable pub device_read : (start len : ℕ) → Act W ℤ
  device_read = Memory.device_read bus 2 addr_bytes2

  -- A round of the write loop, for `n` bytes.
  unfoldable pub write_part : (addr n : ℕ) → Act W (Unit {0})
  write_part addr n = do
    put_send (0x02 ∷ addr_bytes2 addr)
    modify (fill_send 3 n)
    cs_transfer (spi_transfer bus send_buffer 0 (n + 3))
    wait_ready bus read_status 100
    modify (count_sent n)

  -- ZL30169_ADDR_LEN and ZL30169_CMD_LEN leave 257 bytes of data.
  abbrev pub round_size : ℕ
  round_size = 257

  unfoldable pub write_rounds : (rounds addr : ℕ) → Act W ℕ
  write_rounds zero addr = pure addr
  write_rounds (suc rounds) addr = do
    write_part addr round_size
    write_rounds rounds ((addr + round_size) % ulong_mod)

  unfoldable pub write_rest : (addr n : ℕ) → Act W (Unit {0})
  write_rest addr n = if n == 0 then pure tt else write_part addr n

  unfoldable pub device_write : (start len : ℕ) → Act W ℤ
  device_write start len = do
    lock_spi
    modify clear_send_len
    addr ← write_rounds (len / round_size) start
    write_rest addr (len % round_size)
    unlock_spi
    pure (pos 0)
