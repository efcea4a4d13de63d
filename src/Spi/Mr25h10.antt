-- ===== src/Spi/Mr25h10.antt =====
-- The class `eos_spi_mr25h10`, eos_lib/eos_spi/eos_spi_mr25h10.cpp: a magnetoresistive memory with
-- three address bytes, which needs no wait after a write.
pub mod Locking
pub mod RoundTrip
use libeos.Prelude.{ℕ, ℤ}
use libeos.Spi.Machine.{Bus, Act, pure}
use libeos.Spi.Memory
use libeos.Spi.Memory.{addr_bytes3}

module _ {W : Type 0} (bus : Bus W) where
  unfoldable pub device_read : (start len : ℕ) → Act W ℤ
  device_read = Memory.device_read bus 3 addr_bytes3

  unfoldable pub device_write : (start len : ℕ) → Act W ℤ
  device_write = Memory.device_write bus 3 addr_bytes3 (pure tt)
