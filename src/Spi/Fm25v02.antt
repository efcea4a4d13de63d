-- ===== src/Spi/Fm25v02.antt =====
-- The class `eos_spi_fm25v02`, eos_lib/eos_spi/fm25v02.cpp: a ferroelectric memory with two
-- address bytes.
pub mod Locking
pub mod RoundTrip
use Prim.Native.Nat.{bit_and}
use libeos.Prelude.{
  ℕ, zero, suc, ◌+◌, ℤ, pos, minus_one, is_neg, Bool, true, ◌&&◌, [], ◌∷◌, Buf, ◌==◌, if◌then◌else◌,
}
use libeos.Spi.Machine.{Bus, Sys, Act, pure, gets, ◌>>=◌, ◌>>◌, lock_spi, unlock_spi, put_recv}
use libeos.Spi.Chip.{recv_buffer, spi_transfer}
use libeos.Spi.Memory
use libeos.Spi.Memory.{addr_bytes2, busy_bit, transfer_status, cs_transfer, fail, wait_ready}

-- The loop over the `n` continuation codes from index `i` on: all are to be 0x7f.
unfoldable pub all_continuation : Buf → ℕ → ℕ → Bool
all_continuation b i zero = true
all_continuation b i (suc n) = (b i == 0x7f) && all_continuation b (i + 1) n

-- Six continuation codes, then the maker's code 0xc2.
unfoldable pub is_fm25v02 : Buf → Bool
unfolding all_continuation
is_fm25v02 b = all_continuation b 0 6 && (b 6 == 0xc2)

abbrev pub received : {W : Type 0} → Sys W → Buf
received s = s.recv_buf

-- The tests on the bytes that came, each of which returns -1 if it fails.
unfoldable pub accept_id : {W : Type 0} → Buf → Act W ℤ
unfolding is_fm25v02
accept_id b = if is_fm25v02 b then (do unlock_spi; pure (pos (b 7))) else fail

module _ {W : Type 0} (bus : Bus W) where
  -- The busy bit, or -1.
  unfoldable pub read_status : Act W ℤ
  read_status = do ret ← transfer_status bus; if is_neg ret then pure minus_one else gets busy_bit

  unfoldable pub device_read : (start len : ℕ) → Act W ℤ
  device_read = Memory.device_read bus 2 addr_bytes2

  unfoldable pub device_write : (start len : ℕ) → Act W ℤ
  device_write = Memory.device_write bus 2 addr_bytes2 (wait_ready bus read_status 100)

  unfoldable pub read_id : Act W ℤ
  unfolding accept_id
  read_id = do
    lock_spi
    put_recv (1 ∷ 0x9f ∷ [])
    cs_transfer (spi_transfer bus recv_buffer 9 0)
    b ← gets received
    accept_id b
