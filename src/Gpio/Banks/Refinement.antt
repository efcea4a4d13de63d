-- ===== src/Gpio/Banks/Refinement.antt =====
-- The 128 pins of the LS1021 and the T104X implement the abstract pins of Gpio/Refinement.antt.
use libeos.Prelude.{
  ℕ, ◌-◌, ◌/◌, ◌%◌, ◌^◌, bit, ◌≤◌, ◌≡◌, ◌≢◌, ◌∙◌, ap, ℤ, Bool, not, List, [], ◌∷◌, All, ◌==◌,
  if◌then◌else◌, arith,
}
use libeos.Prelude.Method.{ok, Method}
use libeos.Prelude.Words.{Words, IsRegisters}
use libeos.Gpio.{Shifter}
use libeos.Gpio.Refinement.{Pins, Command, set_direction, set_status, Allowed, update, replay}
use libeos.Gpio.Banks.{
  Variant, eos_set_gpio_direction, eos_get_gpio_direction, eos_set_gpio_status, eos_get_gpio_status,
}
use libeos.Gpio.Banks.Setting.{
  IsVariant, IsWindow, at, reg, pin, get_at_lem, reg-seen, new_value, new_value-lt, pin-stored,
  reg-stored_ne,
}
use libeos.Gpio.Banks.Runs.{set_status_lem, set_direction_lem}

module _ (shifter : Shifter) (variant : Variant) {S : Type 0} (w : Words S) (prepare : S → S) where
  abbrev pub perform : Command → Method S ℤ
  perform (set_direction n d) = eos_set_gpio_direction shifter variant w prepare n d
  perform (set_status n d) = eos_set_gpio_status shifter variant w prepare n d

  unfoldable pub run : List Command → S → S
  run [] s = s
  run (c ∷ commands) s = run commands (perform c s).1

module _ (shifter : Shifter) (variant : Variant) (v : IsVariant variant) {S : Type 0} {w : Words S}
    (regs : IsRegisters w (2 ^ 32)) (prepare : S → S) (win : IsWindow variant regs prepare) where
  open regs use {Ready, seen, stored}

  abbrev pub pin_at : (offset m : ℕ) → S → ℕ
  pin_at offset m s = pin shifter variant v regs prepare win offset m s

  -- The registers hold these pins: the directions at 0, their opposites at 0x18, the statuses at
  -- 0x8.
  pub record Shows (pins : Pins) (s : S) : Type 0 where
    pub ready : Ready s
    pub directions : (m : ℕ) → m ≤ 127 → pin_at 0 m s ≡ pins.direction m
    pub opposites : (m : ℕ) → m ≤ 127 → pin_at 0x18 m s ≡ 1 - pins.direction m
    pub statuses : (m : ℕ) → m ≤ 127 → pin_at 0x8 m s ≡ pins.status m

  abbrev value_at : (offset m : ℕ) → S → ℕ
  value_at offset m s =
      reg shifter variant v regs prepare win (at shifter variant v regs prepare win offset m) s

  -- The register at `o` with pin `n` set or cleared.
  abbrev write_pin : (o n : ℕ) (clear : Bool) (s : S) → S → S
  write_pin o n clear s t =
      stored (at shifter variant v regs prepare win o n)
        (variant.to_device (new_value shifter variant v regs prepare win o n clear s)) t

  value-seen : (o m : ℕ) (s : S) → value_at o m (seen s) ≡ value_at o m s
  value-seen o m s =
      reg-seen shifter variant v regs prepare win (at shifter variant v regs prepare win o m) s

  value-write_pin_ne :
      (o o' n m : ℕ) (clear : Bool) (s t : S)
      → n ≤ 127
      → m ≤ 127
      → o ≤ 0x18
      → o' ≤ 0x18
      → o' / 4 ≢ o / 4
      → value_at o' m (write_pin o n clear s t) ≡ value_at o' m t
  value-write_pin_ne o o' n m clear s t p q r r' differ =
      reg-stored_ne shifter variant v regs prepare win o o' n m _ t p q r r' differ
        (new_value-lt shifter variant v regs prepare win o n clear s)

  abbrev pin_of : (m : ℕ) → ℕ → ℕ
  pin_of m k = bit (31 - m % 32) k

  -- Pin `m` after pin `n` was set or cleared: it is `f` of the abstract view.
  pin-write_pin :
      (o n m : ℕ) (clear : Bool) (s t : S) (f : ℕ)
      → n ≤ 127
      → m ≤ 127
      → o ≤ 0x18
      → value_at o m t ≡ value_at o m s
      → pin_at o m s ≡ f
      → pin_at o m (write_pin o n clear s t) ≡ (if m == n then (if clear then 0 else 1) else f)
  pin-write_pin o n m clear s t f p q r alike e =
      pin-stored shifter variant v regs prepare win o n m clear s t p q r alike
      ∙ ap (λ k. if m == n then (if clear then 0 else 1) else k) e

  pub set_status-Shows :
      (n d : ℕ) (pins : Pins) (s : S)
      → n ≤ 127
      → d ≤ 1
      → Shows pins s
      → Shows
          (record pins { status = update pins.status n d })
          (eos_set_gpio_status shifter variant w prepare n d s).1
  set_status-Shows n d pins s p q h =
      rw (set_status_lem shifter variant v regs prepare win n d s p h.ready) record {
        ready = regs.stored-Ready _ _ _ (regs.seen-Ready s h.ready);
        directions = λ m r.
            ap (pin_of m) (
              value-write_pin_ne 0x8 0 n m (d == 0) s (seen s) p r (omega arith) (omega arith)
                (omega arith)
              ∙ value-seen 0 m s)
            ∙ h.directions m r;
        opposites = λ m r.
            ap (pin_of m) (
              value-write_pin_ne 0x8 0x18 n m (d == 0) s (seen s) p r (omega arith) (omega arith)
                (omega arith)
              ∙ value-seen 0x18 m s)
            ∙ h.opposites m r;
        statuses = λ m r.
            pin-write_pin 0x8 n m (d == 0) s (seen s) (pins.status m) p r (omega arith)
              (value-seen 0x8 m s) (h.statuses m r)
            ∙ ground arith;
      }

  pub set_direction-Shows :
      (n d : ℕ) (pins : Pins) (s : S)
      → n ≤ 127
      → d ≤ 1
      → Shows pins s
      → Shows
          (record pins { direction = update pins.direction n d })
          (eos_set_gpio_direction shifter variant w prepare n d s).1
  set_direction-Shows n d pins s p q h =
      let once = seen s in
      let twice = seen once in
      let t = write_pin 0 n (d == 0) s twice in
      let ready = regs.seen-Ready once (regs.seen-Ready s h.ready) in
      rw (set_direction_lem shifter variant v regs prepare win n d s p q h.ready) record {
        ready = regs.stored-Ready _ _ _ (regs.stored-Ready _ _ _ ready);
        directions = λ m r.
            ap (pin_of m) (
              value-write_pin_ne 0x18 0 n m (not (d == 0)) once t p r (omega arith) (omega arith)
                (omega arith))
            ∙ pin-write_pin 0 n m (d == 0) s twice (pins.direction m) p r (omega arith)
                (value-seen 0 m once ∙ value-seen 0 m s) (h.directions m r)
            ∙ ground arith;
        opposites = λ m r.
            pin-write_pin 0x18 n m (not (d == 0)) once t (1 - pins.direction m) p r (omega arith)
              (value-write_pin_ne 0 0x18 n m (d == 0) s twice p r (omega arith) (omega arith)
                  (omega arith)
                ∙ value-seen 0x18 m once)
              (ap (pin_of m) (value-seen 0x18 m s) ∙ h.opposites m r)
            ∙ ground arith;
        statuses = λ m r.
            ap (pin_of m) (
              value-write_pin_ne 0x18 0x8 n m (not (d == 0)) once t p r (omega arith) (omega arith)
                (omega arith)
              ∙ value-write_pin_ne 0 0x8 n m (d == 0) s twice p r (omega arith) (omega arith)
                  (omega arith)
              ∙ value-seen 0x8 m once
              ∙ value-seen 0x8 m s)
            ∙ h.statuses m r;
      }

  run-Shows :
      (commands : List Command) (pins : Pins) (s : S)
      → All (Allowed 127) commands
      → Shows pins s
      → Shows (replay commands pins) (run shifter variant w prepare commands s)
  unfolding run replay
  run-Shows [] pins s allowed h = h
  run-Shows (set_direction n d ∷ commands) pins s allowed h =
      run-Shows commands _ _ allowed.1 (set_direction-Shows n d pins s allowed.0.0 allowed.0.1 h)
  run-Shows (set_status n d ∷ commands) pins s allowed h =
      run-Shows commands _ _ allowed.1 (set_status-Shows n d pins s allowed.0.0 allowed.0.1 h)

  -- After any sequence of settings of pins 0 to 127 to 0 or 1, from registers that hold `pins`,
  -- a get of a pin's direction or status returns 0 and brings what the same sequence of updates of
  -- one pin at a time makes of `pins`, and the pin's bit in the register at 0x18 of its bank is
  -- the opposite of its direction.
  pub run_implements_pins :
      (commands : List Command) (pins : Pins) (s : S) (m : ℕ)
      → All (Allowed 127) commands
      → Shows pins s
      → m ≤ 127
      → let t = run shifter variant w prepare commands s in
        let result = replay commands pins in
        ((eos_get_gpio_direction shifter variant w prepare m t).0 ≡ ok (result.direction m))
        × ((eos_get_gpio_status shifter variant w prepare m t).0 ≡ ok (result.status m))
        × (pin_at 0x18 m t ≡ 1 - result.direction m)
  unfolding eos_get_gpio_direction eos_get_gpio_status
  run_implements_pins commands pins s m allowed h p =
      let t = run shifter variant w prepare commands s in
      let g = run-Shows commands pins s allowed h in
      (
        ap (λ r. r.0) (get_at_lem shifter variant v regs prepare win 0 m t p (omega arith) g.ready)
            ∙ ap ok (g.directions m p),
        ap (λ r. r.0)
              (get_at_lem shifter variant v regs prepare win 0x8 m t p (omega arith) g.ready)
            ∙ ap ok (g.statuses m p),
        g.opposites m p,
      )
