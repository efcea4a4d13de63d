-- ===== src/Spi/Memory/GivingUp.antt =====
-- The wait for a chip that never gets ready.
use libeos.Prelude.{ℕ, ℤ, zero, suc, ◌+◌, ◌≡◌, refl, ap, ◌∙◌, pos, minus_one, List, [], ◌∷◌, arith}
use libeos.Spi.Machine.{Bus, Sys, Act, Event, waited, ok, returned, emit, unlock_spi, ◌>>=◌}
use libeos.Spi.Memory.{wait_us, fail, check, poll, wait_ready}

-- How often a trace waits.
unfoldable pub waits : List Event → ℕ
waits [] = 0
waits (waited us ∷ log) = suc (waits log)
waits (event ∷ log) = waits log

shift : (n k : ℕ) → suc n + suc k ≡ n + suc (suc k)
shift n k = omega arith

-- A step whose outcome is known.
bind-ok :
    {W A B : Type 0} (m : Act W A) (f : A → Act W B) (s : Sys W) (a : A)
    → (m s).0 ≡ ok a
    → (m >>= f) s ≡ f a (m s).1
bind-ok m f s a e = ap (λ r. elim r [ ok b ↦ f b (m s).1 | returned n ↦ (returned n, (m s).1) ]) e

module _ {W : Type 0} (bus : Bus W) (status : Act W ℤ) (us : ℕ)
    (busy : (s : Sys W) → (status s).0 ≡ ok (pos 1))
    (still : (s : Sys W) → waits (status s).1.log ≡ waits s.log) where
  poll-waits :
      (left : ℕ) (s : Sys W)
      → let (r, t) = poll bus status us left (pos 1) s in
        (r ≡ returned minus_one) × (waits t.log ≡ waits s.log + suc left)
  unfolding poll wait_us fail unlock_spi waits check
  poll-waits zero s = (refl, omega arith)
  poll-waits (suc left) s =
      let s1 = emit (waited us) (record s { world = bus.usleep us s.world }) in
      let e : poll bus status us (suc left) (pos 1) s
          ≡ poll bus status us left (pos 1) (status s1).1 =
        bind-ok status (λ ret. check ret >>= poll bus status us left) s1 (pos 1) (busy s1) in
      let (r, t) = poll-waits left (status s1).1 in
      rw e (r, t ∙ ap (λ k. k + suc left) (still s1) ∙ shift (waits s.log) left)

  -- Where every look at the status finds the chip busy, and does not wait itself: the wait ends
  -- after 256 pauses, and the method that waits returns -1.
  pub wait_ready_gives_up :
      (s : Sys W)
      → let (r, t) = wait_ready bus status us s in
        (r ≡ returned minus_one) × (waits t.log ≡ waits s.log + 256)
  unfolding wait_ready check
  wait_ready_gives_up s =
      let e : wait_ready bus status us s ≡ poll bus status us 0xff (pos 1) (status s).1 =
        bind-ok status (λ ret. check ret >>= poll bus status us 0xff) s (pos 1) (busy s) in
      let (r, t) = poll-waits 0xff (status s).1 in rw e (r, t ∙ ap (λ k. k + 256) (still s))
