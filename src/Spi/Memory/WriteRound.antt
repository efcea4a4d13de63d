-- ===== src/Spi/Memory/WriteRound.antt =====
-- One round of a write to a memory chip.
use libeos.Prelude.{
  ℕ, ◌+◌, ◌≤◌, ◌<◌, ◌≡◌, ◌∙◌, refl, ℤ, pos, true, Option, some, List, [], ◌∷◌, ◌++◌, length,
  length-slice, Buf, slice, store, memcpy, memcpy-memcpy, store-slice, slice-store,
  slice-memcpy-store, arith,
}
use libeos.Spi.Machine.{Bus, Sys, Act, put_send}
use libeos.Spi.Chip.{send_buffer, write_from, spi_transfer}
use libeos.Spi.Chip.Transfer.{spi_transfer-write}
use libeos.Spi.Memory.{command, cs_transfer, write_part, fill_send, count_sent}
use libeos.Spi.Memory.Behaviour.{MemoryChip, Quiet, Encodes, decode}
use libeos.Spi.Memory.Selecting.{Steady, cs_transfer-Triple}
use libeos.Spi.Triple.{Triple, Ends, Never, Triple-bind, Triple-then, Triple-modify}

module _ {W : Type 0} {bus : Bus W} {addr_len capacity slack : ℕ}
    (c : MemoryChip bus addr_len capacity slack) (addr_bytes : ℕ → List ℕ)
    (enc : Encodes addr_bytes addr_len capacity) (source : Buf) (before : Buf) (start : ℕ) where
  -- The callbacks are quiet, the first `done` bytes of the caller's buffer `source` are in the
  -- chip from `start` on, over what it held before, and `k` of them are counted.
  pub record Holds (done k : ℕ) (enable disable : Option (W → W)) (w : W) (len : ℕ) (b : Buf)
      : Type 0 where
    pub quiet_enable : Quiet c enable
    pub quiet_disable : Quiet c disable
    pub holds : c.mem w ≡ memcpy before start source 0 done
    pub count : len ≡ k
    pub unread : b ≡ source

  abbrev pub Stored : (done k : ℕ) → Sys W → Type 0
  Stored done k s = Holds done k s.enable s.disable s.world s.send_len s.data_buf

  -- The chip is ready for a command.
  abbrev pub Ready : ℕ → Sys W → Type 0
  Ready k s = Stored k k s × (c.busy s.world ≡ 0)

  -- The chip may be busy with a write.
  abbrev pub Busy : (done k : ℕ) → Sys W → Type 0
  Busy done k s = Stored done k s × (c.busy s.world ≤ slack)

  pub Holds-Quiet :
      {done k len : ℕ} {e d : Option (W → W)} {w : W} {b : Buf} (f : W → W)
      → Quiet c (some f)
      → Holds done k e d w len b
      → Holds done k e d (f w) len b
  Holds-Quiet f q h = record {
    quiet_enable = h.quiet_enable;
    quiet_disable = h.quiet_disable;
    holds = (q _).0 ∙ h.holds;
    count = h.count;
    unread = h.unread;
  }

  -- The bytes about to be written by a transfer of `n`.
  abbrev Framed : (k n : ℕ) → List ℕ → Sys W → Type 0
  Framed k n bytes s = Ready k s × (slice s.send_buf 0 n ≡ bytes)

  abbrev Enabled : ℕ → Sys W → Type 0
  Enabled k s = Ready k s × (c.write_enabled s.world ≡ true)

  Steady-Framed : (k n : ℕ) (bytes : List ℕ) → Steady c (Framed k n bytes)
  Steady-Framed k n bytes = record {
    quiet_enable = λ s h. h.0.0.quiet_enable;
    quiet_disable = λ s h. h.0.0.quiet_disable;
    survives = λ f event s q h. ((Holds-Quiet f q h.0.0, (q _).2 ∙ h.0.1), h.1);
  }

  Steady-Enabled : (k n : ℕ) (ret : ℤ) → Steady c (λ s. (ret ≡ pos n) × Enabled k s)
  Steady-Enabled k n ret = record {
    quiet_enable = λ s h. h.1.0.0.quiet_enable;
    quiet_disable = λ s h. h.1.0.0.quiet_disable;
    survives =
        λ f event s q h. (h.0, ((Holds-Quiet f q h.1.0.0, (q _).2 ∙ h.1.0.1), (q _).1 ∙ h.1.1));
  }

  -- The write enable command.
  enable-at :
      (k : ℕ) (s : Sys W)
      → Framed k 1 (0x06 ∷ []) s
      → Ends (λ ret s'. (ret ≡ pos 1) × Enabled k s') Never (write_from bus send_buffer 1 s)
  unfolding write_from
  enable-at k s ((h, ready), frame) =
      let (ret, on, mem, busy) = c.enable_write s.fd s.world in
      rw frame (
        ret,
        (
          (
            record {
              quiet_enable = h.quiet_enable;
              quiet_disable = h.quiet_disable;
              holds = mem ∙ h.holds;
              count = h.count;
              unread = h.unread;
            },
            busy ∙ ready,
          ),
          on,
        ),
      )

  enable-Triple :
      (k : ℕ) → Triple (Ready k) (command bus 0x06) (λ ret s. (ret ≡ pos 1) × Enabled k s) Never
  unfolding command put_send
  enable-Triple k =
      Triple-then {Q = Framed k 1 (0x06 ∷ [])}
        (Triple-modify _ (λ s h. (h, slice-store s.send_buf 0 (0x06 ∷ []))))
        (cs_transfer-Triple c (Steady-Framed k 1 _) (Steady-Enabled k 1)
          (record { at = λ s h. rw (spi_transfer-write bus s 1 (omega arith)) (enable-at k s h) })
          (λ m s r. cc (r.0)))

  -- The write command, with the data behind the address.
  abbrev Loaded : (k addr n : ℕ) → Sys W → Type 0
  Loaded k addr n s =
      Enabled k s
      × (slice s.send_buf 0 (n + addr_len + 1) ≡ 0x02 ∷ (addr_bytes addr ++ slice source k n))

  Steady-Loaded : (k addr n : ℕ) → Steady c (Loaded k addr n)
  Steady-Loaded k addr n = record {
    quiet_enable = λ s h. h.0.0.0.quiet_enable;
    quiet_disable = λ s h. h.0.0.0.quiet_disable;
    survives =
        λ f event s q h. (((Holds-Quiet f q h.0.0.0, (q _).2 ∙ h.0.0.1), (q _).1 ∙ h.0.1), h.1);
  }

  abbrev Written : (done k : ℕ) → ℤ → Sys W → Type 0
  Written done k ret s = ((m : ℕ) × (ret ≡ pos m)) × Busy done k s

  Steady-Written : (done k : ℕ) (ret : ℤ) → Steady c (Written done k ret)
  Steady-Written done k ret = record {
    quiet_enable = λ s h. h.1.0.quiet_enable;
    quiet_disable = λ s h. h.1.0.quiet_disable;
    survives = λ f event s q h. (h.0, (Holds-Quiet f q h.1.0, rw ((q s.world).2) h.1.1));
  }

  write-at :
      (k n : ℕ) (s : Sys W)
      → 0 < n
      → start + k + n ≤ capacity
      → Loaded k (start + k) n s
      → Ends (Written (k + n) k) Never (write_from bus send_buffer (n + addr_len + 1) s)
  unfolding write_from
  write-at k n s p fits (((h, ready), on), frame) =
      let bytes = addr_bytes (start + k) in
      let items = slice source k n in
      let v = enc.value (start + k) (omega arith) in
      let room : decode bytes + length items ≤ capacity =
        omega (arith, v, length-slice source k n) in
      let (ret, mem, busy) =
        c.write_data s.fd bytes items s.world (enc.width (start + k)) room on ready in
      rw frame (
        (_, ret),
        (
          record {
            quiet_enable = h.quiet_enable;
            quiet_disable = h.quiet_disable;
            holds =
                mem
                ∙ (λ i. store (h.holds i) (v i) items)
                ∙ store-slice (memcpy before start source 0 k) source (start + k) k n
                ∙ memcpy-memcpy before source start k n;
            count = h.count;
            unread = h.unread;
          },
          busy,
        ),
      )

  -- The command is at the front of the buffer, over whatever was there.
  abbrev Headed : (k addr : ℕ) → Sys W → Type 0
  Headed k addr s = Enabled k s × ((b : Buf) × (s.send_buf ≡ store b 0 (0x02 ∷ addr_bytes addr)))

  head-Triple :
      (k addr : ℕ) (ret : ℤ)
      → Triple
          (λ s. (ret ≡ pos 1) × Enabled k s)
          (put_send (0x02 ∷ addr_bytes addr))
          (λ _. Headed k addr)
          Never
  unfolding put_send
  head-Triple k addr ret = record { at = λ s h. (h.1, (s.send_buf, refl)) }

  fill-Loaded :
      (k n : ℕ) (s : Sys W)
      → Headed k (start + k) s
      → Loaded k (start + k) n (fill_send (addr_len + 1) n s)
  fill-Loaded k n s (e, (b, command_at)) =
      let xs = 0x02 ∷ addr_bytes (start + k) in
      let h = e.0.0 in
      let at : addr_len + 1 ≡ length xs = omega (arith, enc.width (start + k)) in
      let all : n + addr_len + 1 ≡ length xs + n = omega (arith, enc.width (start + k)) in
      (
        e,
        (λ i. slice (memcpy (command_at i) (at i) (h.unread i) (h.count i) n) 0 (all i))
            ∙ slice-memcpy-store b source xs k n,
      )

  -- What a wait does: the chip is ready at its end.
  abbrev pub Waits : Act W (Unit {0}) → Type 0
  Waits wait =
      (done k : ℕ) → Triple (Busy done k) wait (λ _ s. Stored done k s × (c.busy s.world ≡ 0)) Never

  transfer-Triple :
      (k n : ℕ)
      → 0 < n
      → start + k + n ≤ capacity
      → Triple
          (Loaded k (start + k) n)
          (cs_transfer (spi_transfer bus send_buffer 0 (n + addr_len + 1)))
          (Written (k + n) k)
          Never
  transfer-Triple k n p fits =
      cs_transfer-Triple c (Steady-Loaded k (start + k) n) (Steady-Written (k + n) k)
        (record {
          at = λ s h.
              rw (spi_transfer-write bus s (n + addr_len + 1) (omega arith))
                (write-at k n s p fits h);
        })
        (λ m s r. cc (r.0.1))

  wait-Triple :
      {wait : Act W (Unit {0})}
      → Waits wait
      → (done k : ℕ) (ret : ℤ)
      → Triple (Written done k ret) wait (λ _ s. Stored done k s × (c.busy s.world ≡ 0)) Never
  wait-Triple waits done k ret = record { at = λ s w. (waits done k).at s w.1 }

  count_sent-Ready :
      (k n : ℕ) (s : Sys W)
      → Stored (k + n) k s × (c.busy s.world ≡ 0)
      → Ready (k + n) (count_sent n s)
  count_sent-Ready k n s (h, ready) = (
    record {
      quiet_enable = h.quiet_enable;
      quiet_disable = h.quiet_disable;
      holds = h.holds;
      count = λ i. h.count i + n;
      unread = h.unread;
    },
    ready,
  )

  -- One round stores the next `n` bytes.
  pub write_part-Triple :
      {wait : Act W (Unit {0})}
      → Waits wait
      → (k n : ℕ) → 0 < n
      → start + k + n ≤ capacity
      → Triple
          (Ready k)
          (write_part bus addr_len addr_bytes wait (start + k) n)
          (λ _. Ready (k + n))
          Never
  unfolding write_part
  write_part-Triple waits k n p fits = Triple-bind (enable-Triple k) λ ret.
      Triple-then (head-Triple k (start + k) ret) (
        Triple-then {Q = Loaded k (start + k) n}
          (Triple-modify (fill_send (addr_len + 1) n) (fill-Loaded k n))
          (Triple-bind (transfer-Triple k n p fits) λ ret'.
            Triple-then (wait-Triple waits (k + n) k ret')
              (Triple-modify (count_sent n) (count_sent-Ready k n))))
