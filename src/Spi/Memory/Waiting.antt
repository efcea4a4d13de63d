-- ===== src/Spi/Memory/Waiting.antt =====
-- The wait for a chip that says that it is busy, at most 255 times.
use libeos.Prelude.{
  ℕ, zero, suc, ◌-◌, ◌≤◌, ◌≡◌, ◌∙◌, ap, ℤ, pos, negsuc, List, [], ◌∷◌, Buf, slice, slice-store,
  arith, true, false, ◌<◌, sym,
}
use libeos.Spi.Machine.{Bus, Sys, Act, put_recv}
use libeos.Spi.Chip.{recv_buffer, read_into}
use libeos.Spi.Chip.Transfer.{spi_transfer-read}
use libeos.Spi.Memory.{transfer_status, busy_bit, check, wait_us, poll, wait_ready, is_busy}
use libeos.Spi.Memory.Behaviour.{MemoryChip, Encodes, is_positive}
use libeos.Spi.Memory.Selecting.{Steady, selected-Triple}
use libeos.Spi.Memory.WriteRound.{Holds-Quiet, Stored}
use libeos.Spi.Triple.{Triple, Ends, Never, Triple-bind, Triple-then, Triple-modify, Triple-if}

module _ {W : Type 0} {bus : Bus W} {addr_len capacity slack : ℕ}
    (c : MemoryChip bus addr_len capacity slack) (addr_bytes : ℕ → List ℕ)
    (enc : Encodes addr_bytes addr_len capacity) (source : Buf) (before : Buf) (start : ℕ)
    (done k : ℕ) where
  abbrev Kept : Sys W → Type 0
  Kept = Stored c addr_bytes enc source before start done k

  -- The chip will be found busy at most so often.
  abbrev pub Within : ℕ → Sys W → Type 0
  Within bound s = Kept s × (c.busy s.world ≤ bound)

  -- A look at the status gave `v`, and the chip was to be found busy `b` times before it.
  abbrev pub Looked : ℕ → ℤ → Sys W → Type 0
  Looked bound v s =
      (b : ℕ) × (b ≤ bound) × (v ≡ pos (is_positive b)) × (c.busy s.world ≡ b - 1) × Kept s

  abbrev Asked : ℕ → Sys W → Type 0
  Asked bound s = Within bound s × (slice s.recv_buf 0 2 ≡ 1 ∷ 0x05 ∷ [])

  -- The byte has come.
  abbrev pub Answered : ℕ → ℤ → Sys W → Type 0
  Answered bound ret s = (ret ≡ pos 1) × Looked bound (busy_bit s) s

  Steady-Asked : (bound : ℕ) → Steady c (Asked bound)
  Steady-Asked bound = record {
    quiet_enable = λ s a. a.0.0.quiet_enable;
    quiet_disable = λ s a. a.0.0.quiet_disable;
    survives = λ f event s q a. (
      (Holds-Quiet c addr_bytes enc source before start f q a.0.0, rw ((q s.world).2) a.0.1),
      a.1,
    );
  }

  Steady-Answered : (bound : ℕ) (ret : ℤ) → Steady c (Answered bound ret)
  Steady-Answered bound ret = record {
    quiet_enable = λ s a. a.1.4.quiet_enable;
    quiet_disable = λ s a. a.1.4.quiet_disable;
    survives = λ f event s q a.
        let (b, le, v, busy, kept) = a.1 in
        (
          a.0,
          (
            b,
            le,
            v,
            (q s.world).2 ∙ busy,
            Holds-Quiet c addr_bytes enc source before start f q kept,
          ),
        );
  }

  status-at :
      (bound : ℕ) (s : Sys W)
      → Asked bound s
      → Ends (Answered bound) Never (read_into bus recv_buffer 1 s)
  unfolding read_into
  status-at bound s ((h, le), frame) =
      let (ret, bit, mem, busy) = c.read_busy s.fd s.recv_buf s.world frame in
      (
        ret,
        (
          c.busy s.world,
          le,
          ap pos bit,
          busy,
          record {
            quiet_enable = h.quiet_enable;
            quiet_disable = h.quiet_disable;
            holds = mem ∙ h.holds;
            count = h.count;
            unread = h.unread;
          },
        ),
      )

  pub transfer_status-Triple :
      (bound : ℕ) → Triple (Within bound) (transfer_status bus) (Answered bound) Never
  unfolding transfer_status put_recv
  transfer_status-Triple bound =
      Triple-then {Q = Asked bound}
        (Triple-modify _ (λ s h. (h, slice-store s.recv_buf 0 (1 ∷ 0x05 ∷ []))))
        (selected-Triple c (Steady-Asked bound) (Steady-Answered bound) (record {
          at = λ s a. rw (spi_transfer-read bus s 1 (omega arith)) (status-at bound s a);
        }))

  check-Triple : (bound : ℕ) (v : ℤ) → Triple (Looked bound v) (check v) (Looked bound) Never
  unfolding check
  check-Triple bound (pos n) = record { at = λ s l. l }
  check-Triple bound (negsuc n) = record { at = λ s l. cc (l.2) }

  module _ {status : Act W ℤ}
      (looks : (bound : ℕ) → Triple (Within bound) status (Looked bound) Never) (us : ℕ) where
    -- The test of the loop tells whether the chip was busy.
    was_busy : (b : ℕ) {v : ℤ} → is_busy v ≡ true → v ≡ pos (is_positive b) → 0 < b
    was_busy zero e is = let f : true ≡ false = sym e ∙ ap is_busy is in cc
    was_busy (suc b) e is = omega arith

    finished :
        {bound : ℕ} {v : ℤ} (s : Sys W)
        → is_busy v ≡ false
        → Looked bound v s
        → Kept s × (c.busy s.world ≡ 0)
    finished s e (zero, le, is, busy, kept) = (kept, omega arith)
    finished s e (suc b, le, is, busy, kept) = let f : true ≡ false = sym (ap is_busy is) ∙ e in cc

    sleep-Triple :
        (left : ℕ) {v : ℤ}
        → is_busy v ≡ true
        → Triple (Looked (suc left) v) (wait_us bus us) (λ _. Within left) Never
    unfolding wait_us
    sleep-Triple left e = record {
      at = λ s (b, le, is, busy, h).
          let (mem, less) = c.sleep_keeps us s.world in
          (
            record {
              quiet_enable = h.quiet_enable;
              quiet_disable = h.quiet_disable;
              holds = mem ∙ h.holds;
              count = h.count;
              unread = h.unread;
            },
            omega (arith, was_busy b e is),
          );
    }

    poll-Triple :
        (left : ℕ) (v : ℤ)
        → Triple
            (Looked left v)
            (poll bus status us left v)
            (λ _ s. Kept s × (c.busy s.world ≡ 0))
            Never
    unfolding poll
    poll-Triple zero v =
        Triple-if (is_busy v)
          (λ e. record { at = λ s (b, le, is, busy, h). absurd (omega (arith, was_busy b e is)) })
          (λ e. record { at = λ s l. finished s e l })
    poll-Triple (suc left) v =
        Triple-if (is_busy v)
          (λ e.
            Triple-then (sleep-Triple left e) (
              Triple-bind (looks left) λ v'. Triple-bind (check-Triple left v') (poll-Triple left)))
          (λ e. record { at = λ s l. finished s e l })

    pub wait_ready-Triple :
        slack ≤ 0xff
        → Triple
            (λ s. Kept s × (c.busy s.world ≤ slack))
            (wait_ready bus status us)
            (λ _ s. Kept s × (c.busy s.world ≡ 0))
            Never
    unfolding wait_ready
    wait_ready-Triple le =
        Triple-bind (record { at = λ s h. (looks 0xff).at s (h.0, omega arith) })
          λ v. Triple-bind (check-Triple 0xff v) (poll-Triple 0xff)
