-- ===== src/Spi/Session.antt =====
-- The life of a chip object: its constructor, cs_init, and any methods after it.
use libeos.Prelude.{ℤ, pos, Bool, ◌≡◌, Option, none, some, List, [], ◌∷◌, arith}
use libeos.Spi.Machine.{Sys, Act, call}
use libeos.Spi.Discipline.{idle, In, Steps, phase, is_some}
use libeos.Spi.Chip.{construct, cs_init}
use libeos.Spi.Triple.{Triple-call}

-- The methods of one class are a type `M`, and `invoke` runs one.
pub session : {W M : Type 0} → (M → Act W ℤ) → List M → Sys W → Sys W
session invoke [] s = s
session invoke (m ∷ ms) s = session invoke ms (call (invoke m) s).1

-- The object after its constructor and cs_init.
abbrev pub started : {W : Type 0} → Option (W → W) → Option (W → W) → Sys W → Sys W
started e d s = (call (cs_init e d) (construct s)).1

module _ {W : Type 0} where
  started-In :
      (e d : Option (W → W)) (s : Sys W)
      → (call (cs_init e d) (construct s)).0 ≡ pos 0
      → s.log ≡ []
      → In (is_some e) idle (started e d s)
  unfolding cs_init construct
  started-In none none s h l = ground arith
  started-In none (some g) s h l = ground arith
  started-In (some f) none s h l = ground arith
  started-In (some f) (some g) s h l = ground arith

  module _ {M : Type 0} (invoke : M → Act W ℤ) where
    session-In :
        {wired : Bool}
        → ((m : M) → Steps wired idle (invoke m) idle)
        → (ms : List M) (s : Sys W) → In wired idle s
        → In wired idle (session invoke ms s)
    unfolding session
    session-In keep [] s h = h
    session-In {wired} keep (m ∷ ms) s h =
        session-In keep ms _ (Triple-call (λ _. In wired idle) (keep m) s h)

    -- After a cs_init that succeeded, every method ends with the lock free and the chip
    -- deselected, if every single method keeps the discipline.
    pub session_idle :
        (e d : Option (W → W))
        → ((m : M) → Steps (is_some e) idle (invoke m) idle)
        → (ms : List M) (s : Sys W) → (call (cs_init e d) (construct s)).0 ≡ pos 0
        → s.log ≡ []
        → phase (is_some e) (session invoke ms (started e d s)).log ≡ idle
    session_idle e d keep ms s h l =
        (session-In keep ms (started e d s) (started-In e d s h l)).at_phase
