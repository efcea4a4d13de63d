-- ===== src/Spi/Mr25h10/RoundTrip.antt =====
-- A write and a read of `eos_spi_mr25h10`, for a chip that behaves as its data sheet says and is
-- never busy.
use libeos.Prelude.{ℕ, ◌+◌, ◌≤◌, ◌^◌, ◌≡◌, pos, to_int, Buf, memcpy, arith}
use libeos.Spi.Machine.{Bus, Sys, call, pure}
use libeos.Spi.Memory.{addr_bytes3}
use libeos.Spi.Memory.Behaviour.{MemoryChip, Encodes, Encodes-addr_bytes3}
use libeos.Spi.Memory.WriteRound.{Waits}
use libeos.Spi.Memory.RoundTrip.{Attached, Leaves, device_read-device_write}
use libeos.Spi.Mr25h10.{device_read, device_write}

module _ {W : Type 0} {bus : Bus W} {capacity : ℕ} (c : MemoryChip bus 3 capacity 0)
    (small : capacity ≤ 2 ^ 24) where
  enc : Encodes addr_bytes3 3 capacity
  enc = Encodes-addr_bytes3 capacity small

  no_wait :
      (start : ℕ) (source before : Buf) → Waits c addr_bytes3 enc source before start (pure tt)
  no_wait start source before done k = record { at = λ s (h, le). (h, omega arith) }

  -- For a chip of at most 2^24 cells that behaves as `MemoryChip` says, is never busy and is ready
  -- at the start, with callbacks that do not change it: a write within the capacity returns 0, a
  -- read of the same place after it returns the length and brings the bytes that were written,
  -- without a change behind them, and the chip holds these bytes from `start` on, and elsewhere
  -- what it held.
  pub mr25h10_round_trip :
      (start len : ℕ) (other : Buf) (s : Sys W)
      → Attached c s
      → start + len ≤ capacity
      → let (written, t) = call (device_write bus start len) s in
        let (got, u) = call (device_read bus start len) (record t { data_buf = other }) in
        (written ≡ pos 0)
        × (got ≡ to_int len)
        × (u.data_buf ≡ memcpy other 0 s.data_buf 0 len)
        × Leaves c (memcpy (c.mem s.world) start s.data_buf 0 len) u
  unfolding device_read device_write
  mr25h10_round_trip start len other =
      device_read-device_write c addr_bytes3 enc (omega arith) (omega arith) start len
        (no_wait start) other
