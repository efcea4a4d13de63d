-- ===== src/Watchdog/Feeding.antt =====
-- Feeding the watchdog by a pin, over any processor's pins.
use libeos.Prelude.{
  ℕ, zero, suc, ◌+◌, ◌%◌, ◌^◌, ◌≤◌, ◌≡◌, refl, ap, ◌∙◌, fun_ext, ℤ, pos, true, false, ◌==◌,
  if◌then◌else◌, arith,
}
use libeos.Prelude.Method.{ok, Method, answered, finish, >>=-ok}
use libeos.Gpio.Drivers.{PinDriver, IsPinDriver}
use libeos.Gpio.Refinement.{Pins, update}
use libeos.Watchdog.{Dog, with_pins, calls, set_output_once, eos_soft_feed_dog}

module _ {S : Type 0} where
  pub calls_lem :
      (m : Method S ℤ) (d : Dog S) (ret : ℤ)
      → (m d.pins).0 ≡ ok ret
      → calls m d ≡ (ok ret, record d { pins = (m d.pins).1 })
  unfolding calls
  calls_lem m d ret e = ap (λ e'. with_pins d (answered (finish (e', (m d.pins).1)) d.pins)) e

  -- Calls of eos_soft_feed_dog, one after the other.
  unfoldable pub feeds : PinDriver S → (feed_gpio : ℕ) → ℕ → Dog S → Dog S
  feeds driver feed_gpio zero d = d
  feeds driver feed_gpio (suc n) d =
      (eos_soft_feed_dog driver feed_gpio (feeds driver feed_gpio n d)).1

-- The pins after the feed with which the count is `k`.
unfoldable pub fed : (feed_gpio k : ℕ) → Pins → Pins
fed feed_gpio k pins = record {
  direction = update pins.direction feed_gpio 1;
  status = update pins.status feed_gpio ((k + 1) % 2);
}

pub update-update : (f : ℕ → ℕ) (n a b m : ℕ) → update (update f n a) n b m ≡ update f n b m
update-update f n a b m = ground arith

fed-update :
    (f k v : ℕ) (pins : Pins)
    → Path Pins
        (record (fed f k pins) { status = update (fed f k pins).status f v })
        (record { direction = update pins.direction f 1; status = update pins.status f v })
unfolding fed
fed-update f k v pins =
    ap (λ g. record { direction = update pins.direction f 1; status = g })
      (fun_ext (λ m. update-update pins.status f ((k + 1) % 2) v m))

module _ {S : Type 0} (driver : PinDriver S) (last : ℕ) (answer : ℤ)
    (laws : IsPinDriver driver last answer) (f : ℕ) (inside : f ≤ last) where
  open laws use {Holds}

  -- The count one up.
  abbrev next : ℕ → ℕ
  next k = (k + 1) % 2 ^ 32

  abbrev signal : ℕ → ℕ
  signal k = if k % 2 == 0 then 1 else 0

  -- A feed from where the pin is an output.
  feed_on :
      (d t : Dog S) (pins : Pins)
      → set_output_once driver f d ≡ (ok tt, t)
      → Holds pins t.pins
      → eos_soft_feed_dog driver f d ≡ (
        ok (pos 0),
        record t {
          eos_feed_dog_count = next t.eos_feed_dog_count;
          pins = (driver.eos_set_gpio_status f (signal (next t.eos_feed_dog_count)) t.pins).1;
        },
      )
  unfolding eos_soft_feed_dog
  feed_on d t pins e h =
      let v = signal (next t.eos_feed_dog_count) in
      >>=-ok (set_output_once driver f) _ e
      ∙ calls_lem (driver.eos_set_gpio_status f v)
          (record t { eos_feed_dog_count = next t.eos_feed_dog_count }) (pos 0)
          (laws.status_ok f v pins t.pins inside (ground arith) h)

  -- Once the pin is an output, and `k` calls have been counted.
  pub record Fed (pins : Pins) (k : ℕ) (d : Dog S) : Type 0 where
    pub is_output : d.set_signal ≡ 1
    pub counted : d.eos_feed_dog_count ≡ k
    pub holds : Holds (fed f k pins) d.pins

  signal-parity : (k : ℕ) → signal k ≡ (k + 1) % 2
  signal-parity k = ground arith

  -- The pin is set, from pins `now` where it is an output.
  set_signal-Fed :
      (now pins : Pins) (k : ℕ) (t : Dog S)
      → t.set_signal ≡ 1
      → t.eos_feed_dog_count ≡ k
      → Holds now t.pins
      → ((v : ℕ)
          → Path Pins
              (record now { status = update now.status f v })
              (record { direction = update pins.direction f 1; status = update pins.status f v }))
      → Fed pins (next k) (record t {
        eos_feed_dog_count = next t.eos_feed_dog_count;
        pins = (driver.eos_set_gpio_status f (signal (next t.eos_feed_dog_count)) t.pins).1;
      })
  unfolding fed
  set_signal-Fed now pins k t on count h same = record {
    is_output = on;
    counted = ap next count;
    holds =
        let v = signal (next t.eos_feed_dog_count) in
        let e : v ≡ (next k + 1) % 2 = ap (λ c. signal (next c)) count ∙ signal-parity (next k) in
        coe 0 1
          (i.
            Holds
              (record {
                direction = update pins.direction f 1;
                status = update pins.status f (e i);
              })
              (driver.eos_set_gpio_status f v t.pins).1)
          (coe 0 1 (i. Holds (same v i) (driver.eos_set_gpio_status f v t.pins).1)
            (laws.status-Holds f v now t.pins inside (ground arith) h));
  }

  again :
      (pins : Pins) (k : ℕ) (d : Dog S)
      → Fed pins k d
      → ((eos_soft_feed_dog driver f d).0 ≡ ok (pos 0))
        × Fed pins (next k) (eos_soft_feed_dog driver f d).1
  unfolding set_output_once
  again pins k d g =
      let off : (d.set_signal == 0) ≡ false = rw g.is_output refl in
      let runs = feed_on d d (fed f k pins) (rw off refl) g.holds in
      (
        ap (λ r. r.0) runs,
        coe 1 0 (i. Fed pins (next k) (runs i).1) (
            set_signal-Fed (fed f k pins) pins k d g.is_output g.counted g.holds
              (λ v. fed-update f k v pins)),
      )

  -- The first feed makes the pin an output.
  first :
      (pins : Pins) (d : Dog S)
      → answer ≡ pos 0
      → d.set_signal ≡ 0
      → Holds pins d.pins
      → ((eos_soft_feed_dog driver f d).0 ≡ ok (pos 0))
        × Fed pins (next d.eos_feed_dog_count) (eos_soft_feed_dog driver f d).1
  unfolding set_output_once
  first pins d works off h =
      let on : (d.set_signal == 0) ≡ true = rw off refl in
      let s = (driver.eos_set_gpio_direction f 1 d.pins).1 in
      let t : Dog S = record d { set_signal = 1; pins = s } in
      let now = laws.direction-Holds f 1 pins d.pins inside (omega arith) h in
      let done : set_output_once driver f d ≡ (ok tt, t) = rw on (
        >>=-ok (calls (driver.eos_set_gpio_direction f 1)) _ (
          calls_lem (driver.eos_set_gpio_direction f 1) d (pos 0)
            (laws.direction_ok f 1 pins d.pins inside (omega arith) h ∙ ap ok works))) in
      let runs = feed_on d t (record pins { direction = update pins.direction f 1 }) done now in
      (
        ap (λ r. r.0) runs,
        coe 1 0 (i. Fed pins (next d.eos_feed_dog_count) (runs i).1) (
            set_signal-Fed (record pins { direction = update pins.direction f 1 }) pins
              d.eos_feed_dog_count t refl refl now (λ v. refl)),
      )

  -- After the feeds, where eos_set_gpio_direction returns 0.
  pub feeds-Fed :
      (n : ℕ) (pins : Pins) (d : Dog S)
      → answer ≡ pos 0
      → d.set_signal ≡ 0
      → Holds pins d.pins
      → ((eos_soft_feed_dog driver f (feeds driver f n d)).0 ≡ ok (pos 0))
        × Fed pins ((d.eos_feed_dog_count + suc n) % 2 ^ 32) (feeds driver f (suc n) d)
  unfolding feeds
  feeds-Fed zero pins d works off h = first pins d works off h
  feeds-Fed (suc n) pins d works off h =
      let k = (d.eos_feed_dog_count + suc n) % 2 ^ 32 in
      let more = again pins k (feeds driver f (suc n) d) (feeds-Fed n pins d works off h).1 in
      let e : next k ≡ (d.eos_feed_dog_count + suc (suc n)) % 2 ^ 32 = omega arith in
      (more.0, coe 0 1 (i. Fed pins (e i) (feeds driver f (suc (suc n)) d)) more.1)
