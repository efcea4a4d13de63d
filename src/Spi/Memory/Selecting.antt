-- ===== src/Spi/Memory/Selecting.antt =====
-- A transfer between quiet callbacks, for any assertions that a quiet callback leaves alone.
use libeos.Prelude.{ℕ, ◌∷◌, ℤ, pos, negsuc, Option, none, some}
use libeos.Spi.Machine.{Bus, Sys, Act, Event, select, deselect, callback, call_enable, call_disable}
use libeos.Spi.Memory.{selected, check, cs_transfer}
use libeos.Spi.Memory.Behaviour.{MemoryChip, Quiet}
use libeos.Spi.Triple.{Triple, Never, Triple-bind, Triple-then, Triple-pure}

module _ {W : Type 0} {bus : Bus W} {addr_len capacity slack : ℕ}
    (c : MemoryChip bus addr_len capacity slack) where
  -- `P` says that the callbacks are quiet, and survives a quiet callback.
  pub record Steady (P : Sys W → Type 0) : Type 0 where
    pub quiet_enable : (s : Sys W) → P s → Quiet c s.enable
    pub quiet_disable : (s : Sys W) → P s → Quiet c s.disable
    pub survives :
        (f : W → W) (event : Event) (s : Sys W)
        → Quiet c (some f)
        → P s
        → P (record s { world = f s.world; log = event ∷ s.log })

  callback-keeps :
      {P : Sys W → Type 0}
      → Steady P
      → (cb : Option (W → W)) (event : Event) (s : Sys W) → Quiet c cb
      → P s
      → P (callback cb event s)
  unfolding callback
  callback-keeps steady none event s q h = h
  callback-keeps steady (some f) event s q h = steady.survives f event s q h

  enable-Triple : {P : Sys W → Type 0} → Steady P → Triple P call_enable (λ _. P) Never
  unfolding call_enable
  enable-Triple steady = record {
    at = λ s h. callback-keeps steady s.enable select s (steady.quiet_enable s h) h;
  }

  disable-Triple : {P : Sys W → Type 0} → Steady P → Triple P call_disable (λ _. P) Never
  unfolding call_disable
  disable-Triple steady = record {
    at = λ s h. callback-keeps steady s.disable deselect s (steady.quiet_disable s h) h;
  }

  module _ {P : Sys W → Type 0} {Q : ℤ → Sys W → Type 0} {transfer : Act W ℤ} (before : Steady P)
      (after : (ret : ℤ) → Steady (Q ret)) (moves : Triple P transfer Q Never) where
    pub selected-Triple : Triple P (selected transfer) Q Never
    unfolding selected
    selected-Triple =
        Triple-then (enable-Triple before)
          (Triple-bind moves λ ret. Triple-then (disable-Triple (after ret)) (Triple-pure ret))

    -- With a result that is not negative, the method goes on.
    pub cs_transfer-Triple :
        ((n : ℕ) (s : Sys W) → ¬ Q (negsuc n) s) → Triple P (cs_transfer transfer) Q Never
    unfolding cs_transfer
    cs_transfer-Triple ok_result = Triple-bind selected-Triple (check-Triple ok_result)
      where
        check-Triple :
            ((n : ℕ) (s : Sys W) → ¬ Q (negsuc n) s)
            → (ret : ℤ) → Triple (Q ret) (check ret) Q Never
        check-Triple no_error (pos n) = record { at = λ s h. h }
        check-Triple no_error (negsuc n) = record { at = λ s h. absurd (no_error n s h) }
