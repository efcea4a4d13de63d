-- ===== src/Gpio/Refinement.antt =====
-- What a client of the pins can rely on: a direction and a status for each pin, set one at a time.
use libeos.Prelude.{ℕ, ◌-◌, ◌^◌, ◌≤◌, ◌≡◌, ◌∙◌, ap, ℤ, List, [], ◌∷◌, All, ◌==◌, if◌then◌else◌, bit}
use libeos.Prelude.Method.{ok, Method}
use libeos.Prelude.Words.{Words, IsRegisters}
use libeos.Gpio.{
  Shifter, eos_set_gpio_direction, eos_get_gpio_direction, eos_set_gpio_status, eos_get_gpio_status,
}
use libeos.Gpio.Settings.{
  changed, change_pin_lem, changed-bit, changed-ne, changed-Ready, get_direction_lem,
  get_status_lem,
}

-- The abstract view.
pub record Pins : Type 0 where
  pub direction : ℕ → ℕ
  pub status : ℕ → ℕ

pub data Command : Type 0 where
  set_direction : (gpio_num direction : ℕ) → Command
  set_status : (gpio_num status : ℕ) → Command

-- A setting to 0 or 1 of a pin up to `last`.
abbrev pub Allowed : (last : ℕ) → Command → Type 0
Allowed last (set_direction n d) = (n ≤ last) × (d ≤ 1)
Allowed last (set_status n d) = (n ≤ last) × (d ≤ 1)

abbrev pub update : (ℕ → ℕ) → ℕ → ℕ → ℕ → ℕ
update f n d m = if m == n then d else f m

unfoldable pub replay : List Command → Pins → Pins
replay [] pins = pins
replay (set_direction n d ∷ commands) pins =
    replay commands (record pins { direction = update pins.direction n d })
replay (set_status n d ∷ commands) pins =
    replay commands (record pins { status = update pins.status n d })

module _ (shifter : Shifter) {S : Type 0} (w : Words S) (dir dat : ℕ) where
  abbrev pub perform : Command → Method S ℤ
  perform (set_direction n d) = eos_set_gpio_direction shifter w dir dat n d
  perform (set_status n d) = eos_set_gpio_status shifter w dir dat n d

  unfoldable pub run : List Command → S → S
  run [] s = s
  run (c ∷ commands) s = run commands (perform c s).1

module _ (shifter : Shifter) {S : Type 0} {w : Words S} (regs : IsRegisters w (2 ^ 32))
    (dir dat : ℕ) (dir_valid : regs.Valid dir) (dat_valid : regs.Valid dat)
    (apart : regs.Apart dir dat) (apart' : regs.Apart dat dir) where
  open regs use {Ready, cell}

  -- The registers hold these pins, pin `m` in bit 31 - m.
  pub record Shows (pins : Pins) (s : S) : Type 0 where
    pub ready : Ready s
    pub directions : (m : ℕ) → m ≤ 31 → bit (31 - m) (cell dir s) ≡ pins.direction m
    pub statuses : (m : ℕ) → m ≤ 31 → bit (31 - m) (cell dat s) ≡ pins.status m

  changed-update :
      (a n d : ℕ) (s : S) (f : ℕ → ℕ)
      → n ≤ 31
      → d ≤ 1
      → ((m : ℕ) → m ≤ 31 → bit (31 - m) (cell a s) ≡ f m)
      → (m : ℕ) → m ≤ 31
      → bit (31 - m) (cell a (changed shifter regs a n d s)) ≡ update f n d m
  changed-update a n d s f p q shows m r =
      changed-bit shifter regs a n m d s p r q ∙ ap (λ t. if m == n then d else t) (shows m r)

  -- After an allowed command the registers hold the pins with the one change.
  pub set_direction-Shows :
      (n d : ℕ) (pins : Pins) (s : S)
      → n ≤ 31
      → d ≤ 1
      → Shows pins s
      → Shows
          (record pins { direction = update pins.direction n d })
          (eos_set_gpio_direction shifter w dir dat n d s).1
  unfolding eos_set_gpio_direction
  set_direction-Shows n d pins s p q h =
      rw (change_pin_lem shifter regs dir n d s q dir_valid h.ready) record {
        ready = changed-Ready shifter regs dir n d s h.ready;
        directions = changed-update dir n d s pins.direction p q h.directions;
        statuses =
            λ m r. ap (bit (31 - m)) (changed-ne shifter regs dir dat n d s apart) ∙ h.statuses m r;
      }

  pub set_status-Shows :
      (n d : ℕ) (pins : Pins) (s : S)
      → n ≤ 31
      → d ≤ 1
      → Shows pins s
      → Shows
          (record pins { status = update pins.status n d })
          (eos_set_gpio_status shifter w dir dat n d s).1
  unfolding eos_set_gpio_status
  set_status-Shows n d pins s p q h =
      rw (change_pin_lem shifter regs dat n d s q dat_valid h.ready) record {
        ready = changed-Ready shifter regs dat n d s h.ready;
        directions = λ m r.
            ap (bit (31 - m)) (changed-ne shifter regs dat dir n d s apart') ∙ h.directions m r;
        statuses = changed-update dat n d s pins.status p q h.statuses;
      }

  run-Shows :
      (commands : List Command) (pins : Pins) (s : S)
      → All (Allowed 31) commands
      → Shows pins s
      → Shows (replay commands pins) (run shifter w dir dat commands s)
  unfolding run replay
  run-Shows [] pins s allowed h = h
  run-Shows (set_direction n d ∷ commands) pins s allowed h =
      run-Shows commands _ _ allowed.1 (set_direction-Shows n d pins s allowed.0.0 allowed.0.1 h)
  run-Shows (set_status n d ∷ commands) pins s allowed h =
      run-Shows commands _ _ allowed.1 (set_status-Shows n d pins s allowed.0.0 allowed.0.1 h)

  -- For the pins of a processor whose two registers can be reached and are apart (P204X, P2020, P1020
  -- and MINIMPC8308): after any sequence of settings of pins 0 to 31 to 0 or 1, from registers that hold `pins`,
  -- a get of a pin's direction or status returns 0 and brings what the same sequence of updates of
  -- one pin at a time makes of `pins`.
  pub run_refines :
      (commands : List Command) (pins : Pins) (s : S) (m : ℕ)
      → All (Allowed 31) commands
      → Shows pins s
      → m ≤ 31
      → let t = run shifter w dir dat commands s in
        ((eos_get_gpio_direction shifter w dir dat m t).0 ≡ ok ((replay commands pins).direction m))
        × ((eos_get_gpio_status shifter w dir dat m t).0 ≡ ok ((replay commands pins).status m))
  run_refines commands pins s m allowed h p =
      let t = run shifter w dir dat commands s in
      let g = run-Shows commands pins s allowed h in
      (
        ap (λ r. r.0) (get_direction_lem shifter regs dir dat dir_valid dat_valid m t p g.ready)
            ∙ ap ok (g.directions m p),
        ap (λ r. r.0) (get_status_lem shifter regs dir dat dir_valid dat_valid m t p g.ready)
            ∙ ap ok (g.statuses m p),
      )
