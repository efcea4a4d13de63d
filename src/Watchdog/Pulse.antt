-- ===== src/Watchdog/Pulse.antt =====
-- What the watchdog sees on its pin when eos_soft_feed_dog is called again and again.
use libeos.Prelude.{
  ℕ, suc, refl, ◌+◌, ◌%◌, ◌^◌, ◌≤◌, ◌≡◌, ap, ◌∙◌, pos, minus_one, is_zero, false, ◌==◌,
  if◌then◌else◌, arith,
}
use libeos.Prelude.Method.{ok, returned}
use libeos.Prelude.Words.{Words, IsRegisters}
use libeos.Gpio.{Shifter, eos_get_gpio_direction, eos_get_gpio_status}
use libeos.Gpio.Settings.{get_direction_lem, get_status_lem}
use libeos.Gpio.Refinement.{Pins, Shows}
use libeos.Gpio.Banks
use libeos.Gpio.Banks.Setting.{IsVariant, IsWindow, get_at_lem}
use libeos.Gpio.Banks.Refinement
use libeos.Gpio.Drivers.{pins_32, pins_32-IsPinDriver, pins_128, pins_128-IsPinDriver}
use libeos.Watchdog.{Dog, eos_soft_feed_dog}
use libeos.Watchdog.Feeding.{feeds, fed, feeds-Fed}
use libeos.Watchdog.Blocked.{feeds-Stuck}

fed-status :
    (f c n m : ℕ) (pins : Pins)
    → (fed f ((c + n) % 2 ^ 32) pins).status m ≡ (if m == f then (c + n + 1) % 2 else pins.status m)
unfolding fed
fed-status f c n m pins =
    let e : ((c + n) % 2 ^ 32 + 1) % 2 ≡ (c + n + 1) % 2 = omega arith in rw e refl

fed-direction :
    (f k m : ℕ) (pins : Pins)
    → (fed f k pins).direction m ≡ (if m == f then 1 else pins.direction m)
unfolding fed
fed-direction f k m pins = refl

module _ (shifter : Shifter) {S : Type 0} {w : Words S} (regs : IsRegisters w (2 ^ 32))
    (dir dat : ℕ) (dir_valid : regs.Valid dir) (dat_valid : regs.Valid dat)
    (apart : regs.Apart dir dat) (apart' : regs.Apart dat dir) where
  -- For the P204X and the P2020, from registers that hold `pins`, before the first feed: every
  -- feed returns 0. After the feed number n + 1 the watchdog's pin is an output, its status is 1
  -- where the count is even and 0 where it is odd, so that each feed turns it over; every other
  -- pin keeps its direction and its status.
  pub eos_soft_feed_dog_alternates :
      (n f m : ℕ) (pins : Pins) (d : Dog S)
      → f ≤ 31
      → m ≤ 31
      → d.set_signal ≡ 0
      → Shows shifter regs dir dat dir_valid dat_valid apart apart' pins d.pins
      → let driver = pins_32 shifter w dir dat in
        let t = (feeds driver f (suc n) d).pins in
        ((eos_soft_feed_dog driver f (feeds driver f n d)).0 ≡ ok (pos 0))
        × ((eos_get_gpio_direction shifter w dir dat m t).0
            ≡ ok (if m == f then 1 else pins.direction m))
        × ((eos_get_gpio_status shifter w dir dat m t).0
            ≡ ok (if m == f then (d.eos_feed_dog_count + suc n + 1) % 2 else pins.status m))
  eos_soft_feed_dog_alternates n f m pins d p q off h =
      let driver = pins_32 shifter w dir dat in
      let laws = pins_32-IsPinDriver shifter regs dir dat dir_valid dat_valid apart apart' in
      let t = (feeds driver f (suc n) d).pins in
      let (done, g) = feeds-Fed driver 31 (pos 0) laws f p n pins d refl off h in
      let shows = g.holds in
      (
        done,
        ap (λ r. r.0) (get_direction_lem shifter regs dir dat dir_valid dat_valid m t q shows.ready)
            ∙ ap ok (shows.directions m q ∙ fed-direction f _ m pins),
        ap (λ r. r.0) (get_status_lem shifter regs dir dat dir_valid dat_valid m t q shows.ready)
            ∙ ap ok (shows.statuses m q ∙ fed-status f d.eos_feed_dog_count (suc n) m pins),
      )

module _ (shifter : Shifter) (variant : Banks.Variant) (v : IsVariant variant) {S : Type 0}
    {w : Words S} (regs : IsRegisters w (2 ^ 32)) (prepare : S → S)
    (win : IsWindow variant regs prepare) where
  -- For the LS1021 and the T104X, where eos_set_gpio_direction ends without a `return` and what its
  -- caller then finds is not 0: every feed returns -1 and is not counted, and no pin's status ever
  -- changes.
  pub eos_soft_feed_dog_blocked :
      (n f m : ℕ) (pins : Pins) (d : Dog S)
      → is_zero variant.fallen ≡ false
      → f ≤ 127
      → m ≤ 127
      → d.set_signal ≡ 0
      → Refinement.Shows shifter variant v regs prepare win pins d.pins
      → let driver = pins_128 shifter variant w prepare in
        let t = feeds driver f (suc n) d in
        ((eos_soft_feed_dog driver f (feeds driver f n d)).0 ≡ returned minus_one)
        × (t.eos_feed_dog_count ≡ d.eos_feed_dog_count)
        × ((Banks.eos_get_gpio_status shifter variant w prepare m t.pins).0 ≡ ok (pins.status m))
  unfolding Banks.eos_get_gpio_status
  eos_soft_feed_dog_blocked n f m pins d fails p q off h =
      let driver = pins_128 shifter variant w prepare in
      let laws = pins_128-IsPinDriver shifter variant v regs prepare win in
      let t = (feeds driver f (suc n) d).pins in
      let (done, g) = feeds-Stuck driver 127 variant.fallen laws f p fails n pins d off h in
      let shows = g.holds in
      (
        done,
        g.counted,
        ap (λ r. r.0)
              (get_at_lem shifter variant v regs prepare win 0x8 m t q (omega arith) shows.ready)
            ∙ ap ok (shows.statuses m q),
      )
