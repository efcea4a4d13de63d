-- ===== src/Spi/Zl30155.antt =====
-- The clock chip's class `eos_spi_zl30155`, eos_lib/eos_spi/zl30155.cpp: pages of registers.
use Prim.Native.Nat.{bit_and, bit_or}
use libeos.Prelude.{ℕ, ℤ, [], ◌∷◌}
use libeos.Spi.Machine.{Bus, Act}
use libeos.Spi.Burst
use libeos.Spi.Burst.{select_page}

module _ {W : Type 0} (bus : Bus W) (page_addr start : ℕ) where
  -- Every round begins with the register's number, whose bit 7 tells a read from a write.
  abbrev pub burst : Burst.Burst W
  burst = record {
    head_len = 1;
    read_head = bit_or start 0x80 ∷ [];
    write_head = bit_and start 0x7f ∷ [];
    read_size = 31;
    write_size = 259;
    begin = select_page bus 0x7f page_addr;
  }

  unfoldable pub device_read : (len : ℕ) → Act W ℤ
  device_read = Burst.device_read bus burst

  unfoldable pub device_write : (len : ℕ) → Act W ℤ
  device_write = Burst.device_write bus burst
