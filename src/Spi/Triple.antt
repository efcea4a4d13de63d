-- ===== src/Spi/Triple.antt =====
-- Hoare triples over the code that may return early: what holds if it goes on, and what holds if
-- the method returns.
use libeos.Prelude.{ℤ, Bool, true, false, ◌≡◌, refl, if◌then◌else◌}
use libeos.Spi.Machine.{
  Sys, Outcome, ok, returned, Act, pure, return_int, gets, modify, ◌>>=◌, ◌>>◌, result, call,
}

abbrev pub Ends :
    {W A : Type 0} → (A → Sys W → Type 0) → (ℤ → Sys W → Type 0) → Outcome A × Sys W → Type 0
Ends Q R (ok a, s) = Q a s
Ends Q R (returned n, s) = R n s

-- From a state with `P`, `m` goes on with `Q` or returns with `R`.
pub record Triple {W A : Type 0} (P : Sys W → Type 0) (m : Act W A) (Q : A → Sys W → Type 0)
    (R : ℤ → Sys W → Type 0) : Type 0 where
  pub at : (s : Sys W) → P s → Ends Q R (m s)

-- No early return.
abbrev pub Never : {W : Type 0} → ℤ → Sys W → Type 0
Never n s = ⊥

module _ {W : Type 0} {R : ℤ → Sys W → Type 0} where
  step :
      {A B : Type 0} {Q : A → Sys W → Type 0} {S : B → Sys W → Type 0} {k : A → Act W B}
      → ((a : A) → Triple (Q a) (k a) S R)
      → (r : Outcome A) (s : Sys W) → Ends Q R (r, s)
      → Ends S R (elim r [ ok a ↦ k a s | returned n ↦ (returned n, s) ])
  step next (ok a) s h = (next a).at s h
  step next (returned n) s h = h

  pub Triple-bind :
      {A B : Type 0} {P : Sys W → Type 0} {Q : A → Sys W → Type 0} {S : B → Sys W → Type 0}
      {m : Act W A} {k : A → Act W B}
      → Triple P m Q R
      → ((a : A) → Triple (Q a) (k a) S R)
      → Triple P (m >>= k) S R
  Triple-bind {m} first next = record { at = λ s h. step next (m s).0 (m s).1 (first.at s h) }

  -- A step whose value is not used.
  pub Triple-then :
      {A B : Type 0} {P Q : Sys W → Type 0} {S : B → Sys W → Type 0} {m : Act W A} {k : Act W B}
      → Triple P m (λ _. Q) R
      → Triple Q k S R
      → Triple P (m >> k) S R
  Triple-then first next = Triple-bind first (λ _. next)

  pub Triple-pure : {A : Type 0} {Q : A → Sys W → Type 0} (a : A) → Triple (Q a) (pure a) Q R
  Triple-pure a = record { at = λ s h. h }

  pub Triple-return :
      {A : Type 0} {P : Sys W → Type 0} {Q : A → Sys W → Type 0} (n : ℤ)
      → ((s : Sys W) → P s → R n s)
      → Triple P (return_int n) Q R
  Triple-return n keep = record { at = keep }

  pub Triple-modify :
      {P : Sys W → Type 0} {Q : Unit {0} → Sys W → Type 0} (f : Sys W → Sys W)
      → ((s : Sys W) → P s → Q tt (f s))
      → Triple P (modify f) Q R
  Triple-modify f keep = record { at = keep }

  pub Triple-gets :
      {A : Type 0} {P : Sys W → Type 0} {Q : A → Sys W → Type 0} (f : Sys W → A)
      → ((s : Sys W) → P s → Q (f s) s)
      → Triple P (gets f) Q R
  Triple-gets f keep = record { at = keep }

  pub Triple-if :
      {A : Type 0} {P : Sys W → Type 0} {Q : A → Sys W → Type 0} (b : Bool) {m n : Act W A}
      → (b ≡ true → Triple P m Q R)
      → (b ≡ false → Triple P n Q R)
      → Triple P (if b then m else n) Q R
  Triple-if true then_part else_part = then_part refl
  Triple-if false then_part else_part = else_part refl

  pub Triple-weaken :
      {A : Type 0} {P P' : Sys W → Type 0} {Q : A → Sys W → Type 0} {m : Act W A}
      → ((s : Sys W) → P' s → P s)
      → Triple P m Q R
      → Triple P' m Q R
  Triple-weaken weaken t = record { at = λ s h. t.at s (weaken s h) }

module _ {W : Type 0} (S : ℤ → Sys W → Type 0) where
  finish : (r : Outcome ℤ) (s : Sys W) → Ends S S (r, s) → S (result (r, s)).0 (result (r, s)).1
  finish (ok n) s h = h
  finish (returned n) s h = h

  -- The result of a whole method, whichever way it ends.
  pub Triple-call :
      {P : Sys W → Type 0} {m : Act W ℤ}
      → Triple P m S S
      → (s : Sys W) → P s
      → S (call m s).0 (call m s).1
  Triple-call {m} t s h = finish (m s).0 (m s).1 (t.at s h)

module _ {W : Type 0} (Q : ℤ → Sys W → Type 0) where
  reached :
      (r : Outcome ℤ) (s : Sys W) → Ends Q Never (r, s) → Q (result (r, s)).0 (result (r, s)).1
  reached (ok n) s h = h
  reached (returned n) s h = absurd h

  -- The result of a method that does not return early.
  pub Triple-result :
      {P : Sys W → Type 0} {m : Act W ℤ}
      → Triple P m Q Never
      → (s : Sys W) → P s
      → Q (call m s).0 (call m s).1
  Triple-result {m} t s h = reached (m s).0 (m s).1 (t.at s h)
