-- ===== src/Spi/Mx25u1635.antt =====
-- The class `eos_spi_mx25u1635`, eos_lib/eos_spi/MX25U1635.cpp: a flash with three address bytes.
-- Its status is a byte with 0xff for an error, whose busy bit is set, so an error of the transfer
-- counts as busy.
pub mod Locking
use Prim.Native.Nat.{bit_and}
use libeos.Prelude.{ℕ, ℤ, pos, is_neg, [], ◌∷◌, memcpy, if◌then◌else◌}
use libeos.Spi.Machine.{
  Bus, Sys, Act, pure, gets, modify, ◌>>=◌, ◌>>◌, lock_spi, unlock_spi, put_recv,
}
use libeos.Spi.Chip.{recv_buffer, spi_transfer}
use libeos.Spi.Memory
use libeos.Spi.Memory.{addr_bytes3, transfer_status, command, cs_transfer, wait_ready}

-- for(i = 0; i < 3; i++) { id[i] = _recvBuf[i]; } with `id` for the caller's buffer
abbrev pub copy_id : {W : Type 0} → Sys W → Sys W
copy_id s = record s { data_buf = memcpy s.data_buf 0 s.recv_buf 0 3 }

-- `_recvBuf[0]`
abbrev pub first_received : {W : Type 0} → Sys W → ℕ
first_received s = s.recv_buf 0

module _ {W : Type 0} (bus : Bus W) where
  unfoldable pub read_status : Act W ℕ
  read_status = do ret ← transfer_status bus; if is_neg ret then pure 0xff else gets first_received

  -- status = read_status(); busy = status & 0x01;
  unfoldable pub read_busy : Act W ℤ
  unfolding read_status
  read_busy = do status ← read_status; pure (pos (bit_and status 0x01))

  unfoldable pub read_id : Act W ℤ
  read_id = do
    lock_spi
    put_recv (1 ∷ 0x9f ∷ [])
    cs_transfer (spi_transfer bus recv_buffer 3 0)
    modify copy_id
    unlock_spi
    pure (pos 0)

  -- The erase is started, and not waited for.
  unfoldable pub device_erase : Act W ℤ
  device_erase = do lock_spi; command bus 0x06; command bus 0x60; unlock_spi; pure (pos 0)

  unfoldable pub device_write : (start len : ℕ) → Act W ℤ
  device_write = Memory.device_write bus 3 addr_bytes3 (wait_ready bus read_busy 100)

  unfoldable pub device_read : (start len : ℕ) → Act W ℤ
  device_read = Memory.device_read bus 3 addr_bytes3
