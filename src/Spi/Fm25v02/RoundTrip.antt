-- ===== src/Spi/Fm25v02/RoundTrip.antt =====
-- What a read and a write of `eos_spi_fm25v02` do, for a chip that behaves as its data sheet says
-- and is busy for at most 255 looks at its status.
use libeos.Prelude.{
  false, true, sym, ap, ◌∙◌, ℕ, ◌+◌, ◌≤◌, ◌^◌, ◌≡◌, pos, is_neg, to_int, Buf, memcpy, arith,
}
use libeos.Spi.Machine.{Bus, Sys, call}
use libeos.Spi.Memory.{wait_ready, addr_bytes2, busy_bit}
use libeos.Spi.Memory.Behaviour.{MemoryChip, Encodes, Encodes-addr_bytes2}
use libeos.Spi.Memory.WriteRound.{Waits}
use libeos.Spi.Memory.Waiting.{Within, Looked, transfer_status-Triple, wait_ready-Triple}
use libeos.Spi.Memory.RoundTrip.{Attached, Leaves, device_read-copies, device_write-stores}
use libeos.Spi.Fm25v02.{read_status, device_read, device_write}
use libeos.Spi.Triple.{Triple, Never, Triple-bind, Triple-gets, Triple-if}

module _ {W : Type 0} {bus : Bus W} {capacity slack : ℕ} (c : MemoryChip bus 2 capacity slack)
    (small : capacity ≤ 2 ^ 16) (quick : slack ≤ 0xff) where
  enc : Encodes addr_bytes2 2 capacity
  enc = Encodes-addr_bytes2 capacity small

  looks :
      (source before : Buf) (start done k bound : ℕ)
      → Triple
          (Within c addr_bytes2 enc source before start done k bound)
          (read_status bus)
          (Looked c addr_bytes2 enc source before start done k bound)
          Never
  unfolding read_status
  looks source before start done k bound =
      Triple-bind (transfer_status-Triple c addr_bytes2 enc source before start done k bound) λ ret.
        Triple-if (is_neg ret)
          (λ e. record { at = λ s a. let f : false ≡ true = sym (ap is_neg a.0) ∙ e in cc })
          (λ e. Triple-gets busy_bit (λ s a. a.1))

  waits :
      (start : ℕ) (source before : Buf)
      → Waits c addr_bytes2 enc source before start (wait_ready bus (read_status bus) 100)
  waits start source before done k =
      wait_ready-Triple c addr_bytes2 enc source before start done k
        (looks source before start done k) 100 quick

  -- For a chip of at most 2^16 cells that behaves as `MemoryChip` says, is busy for at most 255
  -- looks at its status and is ready at the start, with callbacks that do not change it: a read
  -- within the capacity returns the length, puts the cells from `start` on at the front of the
  -- caller's buffer, changes nothing behind them, and leaves the chip's content as it was.
  pub fm25v02-device_read :
      (start len : ℕ) (s : Sys W)
      → Attached c s
      → start + len ≤ capacity
      → let (ret, t) = call (device_read bus start len) s in
        (ret ≡ to_int len)
        × (t.data_buf ≡ memcpy s.data_buf 0 (c.mem s.world) start len)
        × Leaves c (c.mem s.world) t
  unfolding device_read
  fm25v02-device_read start len =
      device_read-copies c addr_bytes2 enc (omega arith) (omega arith) start len

  -- For a chip of at most 2^16 cells that behaves as `MemoryChip` says, is busy for at most 255
  -- looks at its status and is ready at the start, with callbacks that do not change it: a write
  -- within the capacity returns 0, and the chip then holds the caller's bytes from `start` on, and
  -- everywhere else what it held; the caller's buffer is as it was.
  pub fm25v02-device_write :
      (start len : ℕ) (s : Sys W)
      → Attached c s
      → start + len ≤ capacity
      → let (ret, t) = call (device_write bus start len) s in
        (ret ≡ pos 0)
        × (t.data_buf ≡ s.data_buf)
        × Leaves c (memcpy (c.mem s.world) start s.data_buf 0 len) t
  unfolding device_write
  fm25v02-device_write start len =
      device_write-stores c addr_bytes2 enc (omega arith) (omega arith) start len (waits start)
