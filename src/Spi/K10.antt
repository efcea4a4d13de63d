-- ===== src/Spi/K10.antt =====
-- The loader of an FPGA, class `eos_spi_k10`, eos_lib/eos_spi/k10.cpp: bytes without a request.
use libeos.Prelude.{ℕ, ℤ, []}
use libeos.Spi.Machine.{Bus, Act, pure}
use libeos.Spi.Burst

module _ {W : Type 0} (bus : Bus W) where
  -- A write takes 256 bytes at most.
  abbrev pub burst : Burst.Burst W
  burst = record {
    head_len = 0;
    read_head = [];
    write_head = [];
    read_size = 32;
    write_size = 256;
    begin = pure tt;
  }

  unfoldable pub device_read : (len : ℕ) → Act W ℤ
  device_read = Burst.device_read bus burst

  unfoldable pub device_write : (len : ℕ) → Act W ℤ
  device_write = Burst.device_write bus burst
