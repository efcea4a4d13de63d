-- ===== src/Spi/Chip/Transfer.antt =====
-- What `spi_transfer` does with each pair of lengths.
use libeos.Prelude.{ℕ, ◌<◌, ◌≡◌, ◌⊎◌, minus_one, arith}
use libeos.Spi.Machine.{Bus, Sys, ok}
use libeos.Spi.Chip.{Buffer, recv_buffer, send_buffer, null, read_into, write_from, spi_transfer}

module _ {W : Type 0} (bus : Bus W) (s : Sys W) where
  pub spi_transfer-read :
      (n : ℕ) → 0 < n → spi_transfer bus recv_buffer n 0 s ≡ read_into bus recv_buffer n s
  unfolding spi_transfer
  spi_transfer-read n p = ground arith

  pub spi_transfer-write :
      (n : ℕ) → 0 < n → spi_transfer bus send_buffer 0 n s ≡ write_from bus send_buffer n s
  unfolding spi_transfer
  spi_transfer-write n p = ground arith

  -- Given two lengths that are not 0, two that are, or no buffer, spi_transfer moves nothing,
  -- returns -1 and leaves the state as it was.
  pub spi_transfer_refuses :
      (b : Buffer) (rx tx : ℕ)
      → ((b ≡ null) ⊎ (0 < rx) × (0 < tx) ⊎ (rx ≡ 0) × (tx ≡ 0))
      → spi_transfer bus b rx tx s ≡ (ok minus_one, s)
  unfolding spi_transfer
  spi_transfer_refuses b rx tx h = ground arith
