-- ===== src/Shared/Effects.antt =====
-- Methods that change a state and may raise. What was written before a raise stays written, so the
-- state comes back beside an error too.
use facebook_clone.Prelude.{Bool, Option, none, some, if◌then◌else◌}
use facebook_clone.Shared.Errors.{Error, Result, ok, err}

abbrev pub Effect : Type 0 → Type 0 → Type 0
Effect S A = S → Result A × S

module _ {S A : Type 0} where
  abbrev pub pure : A → Effect S A
  pure a s = (ok a, s)

  abbrev pub raise : Error → Effect S A
  raise e s = (err e, s)

  abbrev pub lift : Result A → Effect S A
  lift r s = (r, s)

  -- A query.
  abbrev pub gets : (S → Result A) → Effect S A
  gets f s = (f s, s)

  -- `if x is None: raise`, then `x`
  abbrev pub or_raise : Option A → Error → Effect S A
  or_raise none e s = (err e, s)
  or_raise (some a) e s = (ok a, s)

module _ {S : Type 0} where
  -- `if c: raise`
  abbrev pub raise_if : Bool → Error → Effect S Unit
  raise_if c e s = (if c then err e else ok tt, s)

  -- A statement that cannot raise.
  abbrev pub modify : (S → S) → Effect S Unit
  modify f s = (ok tt, f s)

module _ {S A B : Type 0} where
  infixl 5 ◌>>=◌ ◌>>◌
  abbrev pub ◌>>=◌ : Effect S A → (A → Effect S B) → Effect S B
  ◌>>=◌ m f s = let (r, t) = m s in elim r [ ok a ↦ f a t | err e ↦ (err e, t) ]

  abbrev pub ◌>>◌ : Effect S A → Effect S B → Effect S B
  m >> k = m >>= λ _. k
