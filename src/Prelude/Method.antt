-- ===== src/Prelude/Method.antt =====
-- Functions that work on a state and may return early, or go wrong.
use mathlib.Core.Path.{◌≡◌, ap}
use mathlib.Core.Option.{Option, none, some}
use libeos.Prelude.Int.{ℤ, minus_one, is_neg, is_minus_one}
use libeos.Prelude.Tests.{if◌then◌else◌}

-- A piece of a function goes on with a value, returns an `int`, or follows a NULL pointer.
pub data Ending (A : Type 0) : Type 0 where
  ok : A → Ending A
  returned : ℤ → Ending A
  crashed : Ending A

abbrev pub Method : Type 0 → Type 0 → Type 0
Method S A = S → Ending A × S

module _ {S A : Type 0} where
  abbrev pub pure : A → Method S A
  pure a s = (ok a, s)

  -- `return n;`
  abbrev pub return_int : ℤ → Method S A
  return_int n s = (returned n, s)

  -- A NULL pointer is followed.
  abbrev pub crash : Method S A
  crash s = (crashed, s)

  -- A call whose result is `none` where it follows a NULL pointer.
  abbrev pub answered : Option (A × S) → S → Ending A × S
  answered none s = (crashed, s)
  answered (some (a, t)) s = (ok a, t)

abbrev pub modify : {S : Type 0} → (S → S) → Method S (Unit {0})
modify f s = (ok tt, f s)

abbrev pub continue_with : {S A B : Type 0} → (A → Method S B) → Ending A × S → Ending B × S
continue_with f (ok a, s) = f a s
continue_with f (returned n, s) = (returned n, s)
continue_with f (crashed, s) = (crashed, s)

infixl 5 ◌>>=◌ ◌>>◌
abbrev pub ◌>>=◌ : {S A B : Type 0} → Method S A → (A → Method S B) → Method S B
◌>>=◌ m f s = continue_with f (m s)

abbrev pub ◌>>◌ : {S A B : Type 0} → Method S A → Method S B → Method S B
m >> k = m >>= λ _. k

module _ {S : Type 0} where
  -- if(-1 == ret) { return -1; }
  abbrev pub check : ℤ → Method S (Unit {0})
  check ret = if is_minus_one ret then return_int minus_one else pure tt

  -- if(ret < 0) { return -1; }
  abbrev pub check_neg : ℤ → Method S (Unit {0})
  check_neg ret = if is_neg ret then return_int minus_one else pure tt

  -- What a whole function that returns an `int` comes to, and the state after it.
  abbrev pub finish : Ending ℤ × S → Option (ℤ × S)
  finish (ok n, s) = some (n, s)
  finish (returned n, s) = some (n, s)
  finish (crashed, s) = none

  abbrev pub call : Method S ℤ → S → Option (ℤ × S)
  call m s = finish (m s)

-- A step whose ending is known.
pub >>=-ok :
    {S A B : Type 0} (m : Method S A) (f : A → Method S B) {s t : S} {a : A}
    → m s ≡ (ok a, t)
    → (m >>= f) s ≡ f a t
>>=-ok m f e = ap (continue_with f) e
