-- ===== src/Spi/Acs9520t.antt =====
-- The clock chip's class `eos_spi_acs9520t`, eos_lib/eos_spi/acs9520t.cpp.
pub mod Reading
use Prim.Native.Nat.{bit_and, bit_or}
use libeos.Prelude.{ℕ, ℤ, [], ◌∷◌}
use libeos.Spi.Machine.{Bus, Act, pure}
use libeos.Spi.Burst

module _ {W : Type 0} (bus : Bus W) (start : ℕ) where
  -- Every round begins with the register's number, whose bit 7 tells a read from a write.
  abbrev pub burst : Burst.Burst W
  burst = record {
    head_len = 1;
    read_head = bit_or start 0x80 ∷ [];
    write_head = bit_and start 0x7f ∷ [];
    read_size = 31;
    write_size = 259;
    begin = pure tt;
  }

  unfoldable pub device_read : (len : ℕ) → Act W ℤ
  device_read = Burst.device_read bus burst

  unfoldable pub device_write : (len : ℕ) → Act W ℤ
  device_write = Burst.device_write bus burst
