-- ===== src/Gpio/Drivers.antt =====
-- An interface between the code that uses pins and the functions on them: two calls, and what a
-- client may rely on. The processors' functions implement it.
use libeos.Prelude.{ℕ, ◌^◌, ◌≤◌, ◌≡◌, ap, ℤ, pos}
use libeos.Prelude.Method.{ok, Method}
use libeos.Prelude.Words.{Words, IsRegisters}
use libeos.Gpio.{Shifter, eos_set_gpio_direction, eos_set_gpio_status}
use libeos.Gpio.Settings.{change_pin_lem}
use libeos.Gpio.Refinement.{Pins, update, Shows, set_direction-Shows, set_status-Shows}
use libeos.Gpio.Banks
use libeos.Gpio.Banks.Setting.{IsVariant, IsWindow}
use libeos.Gpio.Banks.Runs.{set_direction_lem, set_status_lem}
use libeos.Gpio.Banks.Refinement

pub record PinDriver (S : Type 0) : Type 0 where
  pub eos_set_gpio_direction : (gpio_num direction : ℕ) → Method S ℤ
  pub eos_set_gpio_status : (gpio_num status : ℕ) → Method S ℤ

-- Settings of the pins up to `last` do what they say. `answer` is the result of
-- eos_set_gpio_direction.
pub record IsPinDriver {S : Type 0} (driver : PinDriver S) (last : ℕ) (answer : ℤ) : Type 1 where
  pub Holds : Pins → S → Type 0
  pub direction_ok :
      (n d : ℕ) (pins : Pins) (s : S)
      → n ≤ last
      → d ≤ 1
      → Holds pins s
      → (driver.eos_set_gpio_direction n d s).0 ≡ ok answer
  pub direction-Holds :
      (n d : ℕ) (pins : Pins) (s : S)
      → n ≤ last
      → d ≤ 1
      → Holds pins s
      → Holds
          (record pins { direction = update pins.direction n d })
          (driver.eos_set_gpio_direction n d s).1
  pub status_ok :
      (n d : ℕ) (pins : Pins) (s : S)
      → n ≤ last
      → d ≤ 1
      → Holds pins s
      → (driver.eos_set_gpio_status n d s).0 ≡ ok (pos 0)
  pub status-Holds :
      (n d : ℕ) (pins : Pins) (s : S)
      → n ≤ last
      → d ≤ 1
      → Holds pins s
      → Holds (record pins { status = update pins.status n d }) (driver.eos_set_gpio_status n d s).1

module _ (shifter : Shifter) {S : Type 0} (w : Words S) (dir dat : ℕ) where
  abbrev pub pins_32 : PinDriver S
  pins_32 = record {
    eos_set_gpio_direction = eos_set_gpio_direction shifter w dir dat;
    eos_set_gpio_status = eos_set_gpio_status shifter w dir dat;
  }

module _ (shifter : Shifter) {S : Type 0} {w : Words S} (regs : IsRegisters w (2 ^ 32))
    (dir dat : ℕ) (dir_valid : regs.Valid dir) (dat_valid : regs.Valid dat)
    (apart : regs.Apart dir dat) (apart' : regs.Apart dat dir) where
  pub set_direction_ok :
      (n d : ℕ) (s : S)
      → d ≤ 1
      → regs.Ready s
      → (eos_set_gpio_direction shifter w dir dat n d s).0 ≡ ok (pos 0)
  unfolding eos_set_gpio_direction
  set_direction_ok n d s p ready =
      ap (λ r. r.0) (change_pin_lem shifter regs dir n d s p dir_valid ready)

  pub set_status_ok :
      (n d : ℕ) (s : S)
      → d ≤ 1
      → regs.Ready s
      → (eos_set_gpio_status shifter w dir dat n d s).0 ≡ ok (pos 0)
  unfolding eos_set_gpio_status
  set_status_ok n d s p ready =
      ap (λ r. r.0) (change_pin_lem shifter regs dat n d s p dat_valid ready)

  -- The P204X, P2020, P1020 and MPC8308.
  abbrev pub pins_32-IsPinDriver : IsPinDriver (pins_32 shifter w dir dat) 31 (pos 0)
  pins_32-IsPinDriver = record {
    Holds = Shows shifter regs dir dat dir_valid dat_valid apart apart';
    direction_ok = λ n d pins s p q h. set_direction_ok n d s q h.ready;
    direction-Holds = set_direction-Shows shifter regs dir dat dir_valid dat_valid apart apart';
    status_ok = λ n d pins s p q h. set_status_ok n d s q h.ready;
    status-Holds = set_status-Shows shifter regs dir dat dir_valid dat_valid apart apart';
  }

module _ (shifter : Shifter) (variant : Banks.Variant) {S : Type 0} (w : Words S)
    (prepare : S → S) where
  abbrev pub pins_128 : PinDriver S
  pins_128 = record {
    eos_set_gpio_direction = Banks.eos_set_gpio_direction shifter variant w prepare;
    eos_set_gpio_status = Banks.eos_set_gpio_status shifter variant w prepare;
  }

module _ (shifter : Shifter) (variant : Banks.Variant) (v : IsVariant variant) {S : Type 0}
    {w : Words S} (regs : IsRegisters w (2 ^ 32)) (prepare : S → S)
    (win : IsWindow variant regs prepare) where
  -- The LS1021 and the T104X.
  abbrev pub pins_128-IsPinDriver :
      IsPinDriver (pins_128 shifter variant w prepare) 127 variant.fallen
  pins_128-IsPinDriver = record {
    Holds = Refinement.Shows shifter variant v regs prepare win;
    direction_ok = λ n d pins s p q h.
        ap (λ r. r.0) (set_direction_lem shifter variant v regs prepare win n d s p q h.ready);
    direction-Holds = Refinement.set_direction-Shows shifter variant v regs prepare win;
    status_ok = λ n d pins s p q h.
        ap (λ r. r.0) (set_status_lem shifter variant v regs prepare win n d s p h.ready);
    status-Holds = Refinement.set_status-Shows shifter variant v regs prepare win;
  }
