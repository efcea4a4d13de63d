-- ===== src/Spi/Epcs64.antt =====
-- The class `eos_spi_epcs64`, eos_lib/eos_spi/epcs64.cpp: a serial configuration flash with three
-- address bytes and a status register.
pub mod Locking
use Prim.Native.Nat.{bit_and}
use libeos.Prelude.{ℕ, ℤ, pos, minus_one, is_neg, List, [], ◌∷◌, ◌==◌, if◌then◌else◌}
use libeos.Spi.Machine.{
  Bus, Sys, Act, pure, gets, ◌>>=◌, ◌>>◌, lock_spi, unlock_spi, put_recv, put_send,
}
use libeos.Spi.Chip.{recv_buffer, send_buffer, spi_transfer}
use libeos.Spi.Memory
use libeos.Spi.Memory.{addr_bytes3, busy_bit, transfer_status, command, cs_transfer, wait_ready}

-- `_recvBuf[i]`
abbrev pub recv_at : {W : Type 0} → ℕ → Sys W → ℤ
recv_at i s = pos (s.recv_buf i)

module _ {W : Type 0} (bus : Bus W) where
  -- The busy bit, or -1.
  unfoldable pub read_status : Act W ℤ
  read_status = do ret ← transfer_status bus; if is_neg ret then pure minus_one else gets busy_bit

  unfoldable pub device_read : (start len : ℕ) → Act W ℤ
  device_read = Memory.device_read bus 3 addr_bytes3

  unfoldable pub device_write : (start len : ℕ) → Act W ℤ
  device_write = Memory.device_write bus 3 addr_bytes3 (wait_ready bus read_status 100)

  unfoldable pub write_status : ℕ → Act W ℤ
  write_status status = do
    lock_spi
    command bus 0x06
    put_send (0x01 ∷ status ∷ [])
    cs_transfer (spi_transfer bus send_buffer 0 2)
    wait_ready bus read_status 100
    unlock_spi
    pure (pos 0)

  -- The wait between two looks at the status is sleep(5) here.
  unfoldable pub device_erase : Act W ℤ
  device_erase = do
    lock_spi
    command bus 0x06
    command bus 0xc7
    wait_ready bus read_status 5_000_000
    unlock_spi
    pure (pos 0)

  -- A request of these bytes for `n` bytes, of which the one at `i` is the identity.
  unfoldable pub ask : List ℕ → ℕ → ℕ → Act W ℤ
  ask bytes n i = do
    put_recv bytes
    cs_transfer (spi_transfer bus recv_buffer n 0)
    gets (recv_at i)

  unfoldable pub request_id : ℕ → ℕ → Act W ℤ
  unfolding ask
  request_id operation_code type =
      if type == 0
      then if operation_code == 0xab
        then ask (4 ∷ operation_code ∷ 0 ∷ 0 ∷ 0 ∷ []) 1 0
        else if operation_code == 0x9f
        then ask (3 ∷ operation_code ∷ 0 ∷ 0 ∷ []) 1 0
        else pure (pos 0)
      else if type == 1
      then if operation_code == 0x9f then ask (1 ∷ operation_code ∷ []) 3 2 else pure (pos 0)
      else pure (pos 0)

  -- The identity is 0 where the operation code is not one of the known ones.
  unfoldable pub read_id : ℕ → ℕ → Act W ℤ
  read_id operation_code type = do
    lock_spi
    id ← request_id operation_code type
    unlock_spi
    pure id
