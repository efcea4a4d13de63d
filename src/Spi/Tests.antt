-- ===== src/Spi/Tests.antt =====
-- The theorems on the SPI chips at concrete inputs, and runs of the drivers on the sample chip.
use libeos.Prelude.{
  ℤ, ℕ, ◌+◌, ◌%◌, ◌<◌, length, ◌≡◌, refl, minus_one, pos, true, some, [], ◌∷◌, memcpy, slice, store,
  arith,
}
use libeos.Spi.Memory.GivingUp.{waits, wait_ready_gives_up}
use libeos.Spi.Acs9520t
use libeos.Spi.Acs9520t.Reading.{acs9520t-device_read}
use libeos.Spi.Burst.Reading.{Answers}
use libeos.Spi.Classes.{epcs64, invoke, chips_stay_idle}
use libeos.Spi.Machine.{
  Act, returned, Bus, Sys, ok, call, lock_spi, unlock_spi, put_recv, put_send, call_enable,
  call_disable,
}
use libeos.Spi.Chip.{construct, cs_init, spi_transfer}
use libeos.Spi.Discipline.{idle, phase}
use libeos.Spi.Session.{session, started}
use libeos.Spi.Sample.{Chip, sample, sample-MemoryChip, blank}
use libeos.Spi.Memory
use libeos.Spi.Memory.RoundTrip.{Attached, Leaves}
use libeos.Spi.Epcs64.Locking as EpcsLocking
use libeos.Spi.Fm25v02
use libeos.Spi.Fm25v02.RoundTrip.{fm25v02-device_read, fm25v02-device_write}
use libeos.Spi.Mr25h10
use libeos.Spi.Mr25h10.RoundTrip.{mr25h10_round_trip}

abbrev quiet : Chip → Chip
quiet w = w

blank-Attached : Attached (sample-MemoryChip 2 0x8000 3) blank
blank-Attached = record {
  quiet_enable = λ w. (refl, refl, refl);
  quiet_disable = λ w. (refl, refl, refl);
  ready = refl;
}

blank-Attached3 : Attached (sample-MemoryChip 3 0x20000 0) blank
blank-Attached3 = record {
  quiet_enable = λ w. (refl, refl, refl);
  quiet_disable = λ w. (refl, refl, refl);
  ready = refl;
}

started_ok : (call (cs_init (some quiet) (some quiet)) (construct blank)).0 ≡ pos 0
unfolding cs_init
started_ok = refl

fm25v02-device_read_example :
    let (ret, t) = call (Fm25v02.device_read (sample 2 3) 0x10 100) blank in
    (ret ≡ pos 100)
    × (t.data_buf ≡ memcpy blank.data_buf 0 blank.world.cells 0x10 100)
    × Leaves (sample-MemoryChip 2 0x8000 3) blank.world.cells t
fm25v02-device_read_example =
    fm25v02-device_read (sample-MemoryChip 2 0x8000 3) (omega arith) (omega arith) 0x10 100 blank
      blank-Attached (omega arith)

fm25v02-device_write_example :
    let (ret, t) = call (Fm25v02.device_write (sample 2 3) 0x10 600) blank in
    (ret ≡ pos 0)
    × (t.data_buf ≡ blank.data_buf)
    × Leaves (sample-MemoryChip 2 0x8000 3) (memcpy blank.world.cells 0x10 blank.data_buf 0 600) t
fm25v02-device_write_example =
    fm25v02-device_write (sample-MemoryChip 2 0x8000 3) (omega arith) (omega arith) 0x10 600 blank
      blank-Attached (omega arith)

mr25h10_round_trip_example :
    let (written, t) = call (Mr25h10.device_write (sample 3 0) 0x1_0000 300) blank in
    let (got, u) =
      call (Mr25h10.device_read (sample 3 0) 0x1_0000 300) (record t { data_buf = λ j. 0 }) in
    (written ≡ pos 0)
    × (got ≡ pos 300)
    × (u.data_buf ≡ memcpy (λ j. 0) 0 blank.data_buf 0 300)
    × Leaves
        (sample-MemoryChip 3 0x20000 0)
        (memcpy blank.world.cells 0x1_0000 blank.data_buf 0 300)
        u
mr25h10_round_trip_example =
    mr25h10_round_trip (sample-MemoryChip 3 0x20000 0) (omega arith) 0x1_0000 300 (λ j. 0) blank
      blank-Attached3 (omega arith)

chips_stay_idle_example :
    phase true
      (session
        (invoke (sample 3 3) epcs64)
        (EpcsLocking.write_at 5 300
          ∷ EpcsLocking.read_at 5 300
          ∷ EpcsLocking.erase
          ∷ EpcsLocking.identify 0x9f 1
          ∷ [])
        (started (some quiet) (some quiet) blank)).log
    ≡ idle
chips_stay_idle_example =
    chips_stay_idle (sample 3 3) epcs64 (some quiet) (some quiet) _ blank started_ok refl

-- A run of a write, and a read of it.
write_then_read :
    let (written, t) = call (Fm25v02.device_write (sample 2 3) 0x10 3) blank in
    let (got, u) =
      call (Fm25v02.device_read (sample 2 3) 0x10 3) (record t { data_buf = λ j. 0 }) in
    (written ≡ pos 0) × (got ≡ pos 3) × (slice u.data_buf 0 4 ≡ 1 ∷ 2 ∷ 3 ∷ 0 ∷ [])
unfolding Fm25v02.device_write Fm25v02.device_read Fm25v02.read_status slice store
    Memory.device_write Memory.device_read Memory.read_rounds Memory.read_rest Memory.read_part
    Memory.write_rounds Memory.write_rest Memory.write_part Memory.command Memory.transfer_status
    Memory.cs_transfer Memory.wait_ready Memory.poll Memory.wait_us lock_spi unlock_spi put_recv
    put_send spi_transfer call_enable call_disable
write_then_read = (refl, refl, refl)

-- A chip with registers alone, each of which holds its number.
abbrev numbered : Bus (Unit {0})
numbered = record {
  sys_open = λ name w. (pos 3, w);
  sys_close = λ fd w. w;
  sys_read = λ fd b n w. record { ret = pos n; buf = λ j. 5 + j; world = w };
  sys_write = λ fd bytes w. (pos (length bytes), w);
  rd_mode = λ fd mode w. (0, w);
  wr_ioctl = λ request fd v w. w;
  usleep = λ us w. w;
}

abbrev numbered-Answers : Answers numbered (Acs9520t.burst numbered 5) (λ j. 5 + j)
numbered-Answers = record {
  Good = λ w. Unit;
  reads = λ fd b n w frame fits good. (refl, λ j p. refl, tt);
}

abbrev wired_chip : Sys (Unit {0})
wired_chip = record {
  recv_buf = λ j. 0;
  recv_len = 0;
  send_buf = λ j. 0;
  send_len = 0;
  para = blank.para;
  fd = pos 3;
  enable = some (λ w. w);
  disable = some (λ w. w);
  data_buf = λ j. 0;
  world = tt;
  log = [];
}

acs9520t-device_read_example :
    let (ret, t) = call (Acs9520t.device_read numbered 5 100) wired_chip in
    (ret ≡ pos 100) × ((j : ℕ) → j < 100 → t.data_buf j ≡ 5 + j % 31)
acs9520t-device_read_example =
    acs9520t-device_read 5 (λ k. k) numbered-Answers 100 wired_chip (λ w g. g) (λ w g. g) tt

-- A look at the status of a chip that is always busy.
abbrev always_busy : Act Chip ℤ
always_busy s = (ok (pos 1), s)

wait_ready_gives_up_example :
    let (r, t) = Memory.wait_ready (sample 2 3) always_busy 100 blank in
    (r ≡ returned minus_one) × (waits t.log ≡ waits blank.log + 256)
wait_ready_gives_up_example =
    wait_ready_gives_up (sample 2 3) always_busy 100 (λ s. refl) (λ s. refl) blank
