-- ===== src/Spi/Acs9520t/Reading.antt =====
-- A read of the registers of the ACS9520T, across the rounds it is made of.
use libeos.Prelude.{ℕ, ◌+◌, refl, ◌%◌, ◌<◌, ◌≡◌, to_int, Buf, arith}
use libeos.Spi.Machine.{Bus, Sys, call}
use libeos.Spi.Burst.Reading.{Answers, Quiet, Holds, Got, device_read-Triple}
use libeos.Spi.Acs9520t.{burst, device_read}
use libeos.Spi.Triple.{Triple-pure, Triple-result}

module _ {W : Type 0} {bus : Bus W} (start : ℕ) (registers : Buf)
    (chip : Answers bus (burst bus start) (λ j. registers (start + j))) where
  -- For a chip that answers a request by its registers from the requested one on, with callbacks
  -- that leave it as it is: a read returns its length, and byte `j` is register start + j % 31.
  -- So every round after the first brings the first 31 registers again.
  pub acs9520t-device_read :
      (len : ℕ) (s : Sys W)
      → Quiet chip s.enable
      → Quiet chip s.disable
      → chip.Good s.world
      → let (ret, t) = call (device_read bus start len) s in
        (ret ≡ to_int len) × ((j : ℕ) → j < len → t.data_buf j ≡ registers (start + j % 31))
  unfolding device_read
  acs9520t-device_read len s q r good =
      let begins : Holds chip 0 s.enable s.disable s.world 0 s.data_buf = record {
        quiet_enable = q;
        quiet_disable = r;
        good = good;
        count = refl;
        copied = λ j p. absurd (omega arith);
      } in
      let (ret, got) =
        Triple-result (λ ret t. (ret ≡ to_int len) × Got chip len t)
          (device_read-Triple chip len (omega arith) (Triple-pure tt)) s begins in
      (ret, got.copied)
