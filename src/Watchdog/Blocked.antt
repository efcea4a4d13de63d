-- ===== src/Watchdog/Blocked.antt =====
-- Feeding the watchdog by a pin, where eos_set_gpio_direction does not return 0.
use libeos.Prelude.{
  ℕ, zero, suc, ◌≤◌, ◌≡◌, refl, ap, ◌∙◌, fun_ext, ℤ, minus_one, is_zero, true, false, ◌==◌, arith,
}
use libeos.Prelude.Method.{returned, continue_with, >>=-ok}
use libeos.Gpio.Drivers.{PinDriver, IsPinDriver}
use libeos.Gpio.Refinement.{Pins, update}
use libeos.Watchdog.{Dog, calls, set_output_once, eos_soft_feed_dog}
use libeos.Watchdog.Feeding.{calls_lem, feeds, update-update}

-- The pins with `feed_gpio` an output.
abbrev pub with_output : (feed_gpio : ℕ) → Pins → Pins
with_output f pins = record pins { direction = update pins.direction f 1 }

module _ {S : Type 0} (driver : PinDriver S) (last : ℕ) (answer : ℤ)
    (laws : IsPinDriver driver last answer) (f : ℕ) (inside : f ≤ last)
    (fails : is_zero answer ≡ false) where
  open laws use {Holds}

  -- Nothing is counted, and the next call sets the direction again.
  pub record Stuck (pins : Pins) (count : ℕ) (d : Dog S) : Type 0 where
    pub off : d.set_signal ≡ 0
    pub counted : d.eos_feed_dog_count ≡ count
    pub holds : Holds pins d.pins

  blocks :
      (pins : Pins) (d : Dog S)
      → d.set_signal ≡ 0
      → Holds pins d.pins
      → eos_soft_feed_dog driver f d
        ≡ (returned minus_one, record d { pins = (driver.eos_set_gpio_direction f 1 d.pins).1 })
  unfolding eos_soft_feed_dog set_output_once
  blocks pins d off h =
      let on : (d.set_signal == 0) ≡ true = rw off refl in
      let t : Dog S = record d { pins = (driver.eos_set_gpio_direction f 1 d.pins).1 } in
      let gone : set_output_once driver f d ≡ (returned minus_one, t) = rw on (
        >>=-ok (calls (driver.eos_set_gpio_direction f 1)) _ (
          calls_lem (driver.eos_set_gpio_direction f 1) d answer
            (laws.direction_ok f 1 pins d.pins inside (omega arith) h))
        ∙ rw fails refl) in
      ap (continue_with _) gone

  stays :
      (pins : Pins) (count : ℕ) (d : Dog S)
      → Stuck pins count d
      → ((eos_soft_feed_dog driver f d).0 ≡ returned minus_one)
        × Stuck (with_output f pins) count (eos_soft_feed_dog driver f d).1
  stays pins count d g =
      let runs = blocks pins d g.off g.holds in
      (
        ap (λ r. r.0) runs,
        coe 1 0 (i. Stuck (with_output f pins) count (runs i).1) record {
          off = g.off;
          counted = g.counted;
          holds = laws.direction-Holds f 1 pins d.pins inside (omega arith) g.holds;
        },
      )

  twice : (pins : Pins) → with_output f (with_output f pins) ≡ with_output f pins
  twice pins =
      ap (λ g. record { direction = g; status = pins.status })
        (fun_ext (λ m. update-update pins.direction f 1 1 m))

  pub feeds-Stuck :
      (n : ℕ) (pins : Pins) (d : Dog S)
      → d.set_signal ≡ 0
      → Holds pins d.pins
      → ((eos_soft_feed_dog driver f (feeds driver f n d)).0 ≡ returned minus_one)
        × Stuck (with_output f pins) d.eos_feed_dog_count (feeds driver f (suc n) d)
  unfolding feeds
  feeds-Stuck zero pins d off h =
      stays pins d.eos_feed_dog_count d (record { off = off; counted = refl; holds = h })
  feeds-Stuck (suc n) pins d off h =
      let before = (feeds-Stuck n pins d off h).1 in
      let more =
        stays (with_output f pins) d.eos_feed_dog_count (feeds driver f (suc n) d) before in
      (
        more.0,
        coe 0 1 (i. Stuck (twice pins i) d.eos_feed_dog_count (feeds driver f (suc (suc n)) d))
            more.1,
      )
