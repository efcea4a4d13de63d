-- ===== src/Spi/Memory/ReadRound.antt =====
-- One round of a read from a memory chip.
use libeos.Prelude.{
  ℕ, ◌+◌, ◌≤◌, ◌<◌, ◌≡◌, ◌∙◌, ap, ℤ, pos, to_ℕ, Option, some, List, ◌∷◌, length, Buf, slice, memcpy,
  memcpy-extend, slice-store, arith,
}
use libeos.Spi.Machine.{Bus, Sys, put_recv}
use libeos.Spi.Chip.{recv_buffer, read_into, spi_transfer}
use libeos.Spi.Chip.Transfer.{spi_transfer-read}
use libeos.Spi.Memory.{read_part, take_recv}
use libeos.Spi.Memory.Behaviour.{MemoryChip, Quiet, Encodes, decode}
use libeos.Spi.Memory.Selecting.{Steady, cs_transfer-Triple}
use libeos.Spi.Triple.{Triple, Ends, Never, Triple-bind, Triple-then, Triple-modify}

module _ {W : Type 0} {bus : Bus W} {addr_len capacity slack : ℕ}
    (c : MemoryChip bus addr_len capacity slack) (addr_bytes : ℕ → List ℕ)
    (enc : Encodes addr_bytes addr_len capacity) (target : Buf) (content : Buf) (start : ℕ) where
  -- The callbacks are quiet, the chip holds `content` and is ready, and the first `k` cells from
  -- `start` on are in the caller's buffer.
  pub record Holds (k : ℕ) (enable disable : Option (W → W)) (w : W) (len : ℕ) (b : Buf)
      : Type 0 where
    pub quiet_enable : Quiet c enable
    pub quiet_disable : Quiet c disable
    pub holds : c.mem w ≡ content
    pub ready : c.busy w ≡ 0
    pub count : len ≡ k
    pub copied : b ≡ memcpy target 0 content start k

  abbrev pub Got : ℕ → Sys W → Type 0
  Got k s = Holds k s.enable s.disable s.world s.recv_len s.data_buf

  abbrev Asked : (k addr : ℕ) → Sys W → Type 0
  Asked k addr s =
      Got k s × (slice s.recv_buf 0 (addr_len + 2) ≡ (addr_len + 1) ∷ 0x03 ∷ addr_bytes addr)

  abbrev Received : (k addr n : ℕ) → ℤ → Sys W → Type 0
  Received k addr n ret s =
      Got k s × (ret ≡ pos n) × ((j : ℕ) → j < n → s.recv_buf j ≡ content (addr + j))

  -- A call of a quiet callback.
  Holds-Quiet :
      {k len : ℕ} {e d : Option (W → W)} {w : W} {b : Buf} (f : W → W)
      → Quiet c (some f)
      → Holds k e d w len b
      → Holds k e d (f w) len b
  Holds-Quiet f q h = record {
    quiet_enable = h.quiet_enable;
    quiet_disable = h.quiet_disable;
    holds = (q _).0 ∙ h.holds;
    ready = (q _).2 ∙ h.ready;
    count = h.count;
    copied = h.copied;
  }

  Steady-Asked : (k addr : ℕ) → Steady c (Asked k addr)
  Steady-Asked k addr = record {
    quiet_enable = λ s a. a.0.quiet_enable;
    quiet_disable = λ s a. a.0.quiet_disable;
    survives = λ f event s q a. (Holds-Quiet f q a.0, a.1);
  }

  Steady-Received : (k addr n : ℕ) (ret : ℤ) → Steady c (Received k addr n ret)
  Steady-Received k addr n ret = record {
    quiet_enable = λ s r. r.0.quiet_enable;
    quiet_disable = λ s r. r.0.quiet_disable;
    survives = λ f event s q r. (Holds-Quiet f q r.0, r.1, r.2);
  }

  ask-Triple :
      (k addr : ℕ)
      → Triple
          (Got k)
          (put_recv ((addr_len + 1) ∷ 0x03 ∷ addr_bytes addr))
          (λ _. Asked k addr)
          Never
  unfolding put_recv
  ask-Triple k addr = Triple-modify _ λ s g.
      let bytes = (addr_len + 1) ∷ 0x03 ∷ addr_bytes addr in
      let e : addr_len + 2 ≡ length bytes = omega (arith, enc.width addr) in
      (g, rw e (slice-store s.recv_buf 0 bytes))

  -- What the read() of the transfer brings.
  read-at :
      (k addr n : ℕ) (s : Sys W)
      → 0 < n
      → addr + n ≤ capacity
      → Asked k addr s
      → Ends (Received k addr n) Never (read_into bus recv_buffer n s)
  unfolding read_into
  read-at k addr n s p fits (g, frame) =
      let v = enc.value addr (omega arith) in
      let room : decode (addr_bytes addr) + n ≤ capacity = rw v fits in
      let (ret, bytes, mem, ready) =
        c.read_data s.fd s.recv_buf (addr_bytes addr) n s.world frame room g.ready in
      (
        record {
          quiet_enable = g.quiet_enable;
          quiet_disable = g.quiet_disable;
          holds = mem ∙ g.holds;
          ready = ready;
          count = g.count;
          copied = g.copied;
        },
        ret,
        λ j h. bytes j h ∙ (λ i. g.holds i (v i + j)),
      )

  transfer-Triple :
      (k addr n : ℕ)
      → 0 < n
      → addr + n ≤ capacity
      → Triple (Asked k addr) (spi_transfer bus recv_buffer n 0) (Received k addr n) Never
  transfer-Triple k addr n p fits = record {
    at = λ s a. rw (spi_transfer-read bus s n p) (read-at k addr n s p fits a);
  }

  take_recv-Got :
      (k n : ℕ) (ret : ℤ) (s : Sys W)
      → Received k (start + k) n ret s
      → Got (k + n) (take_recv (to_ℕ ret) s)
  take_recv-Got k n ret s (g, all, bytes) =
      let e : to_ℕ ret ≡ n = ap to_ℕ all in
      record {
        quiet_enable = g.quiet_enable;
        quiet_disable = g.quiet_disable;
        holds = g.holds;
        ready = g.ready;
        count = λ i. g.count i + e i;
        copied =
            (λ i. memcpy (g.copied i) (g.count i) s.recv_buf 0 (e i))
            ∙ memcpy-extend target content s.recv_buf start k n bytes;
      }

  -- One round brings the next `n` cells.
  pub read_part-Triple :
      (k n : ℕ)
      → 0 < n
      → start + k + n ≤ capacity
      → Triple (Got k) (read_part bus addr_len addr_bytes (start + k) n) (λ _. Got (k + n)) Never
  unfolding read_part
  read_part-Triple k n p fits = Triple-then (ask-Triple k (start + k)) (
      Triple-bind
        (cs_transfer-Triple c (Steady-Asked k (start + k)) (Steady-Received k (start + k) n)
          (transfer-Triple k (start + k) n p fits) (λ m s r. cc (r.1)))
        λ ret. Triple-modify (take_recv (to_ℕ ret)) (take_recv-Got k n ret))
