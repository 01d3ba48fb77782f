-- ===== src/Effects.antt =====
-- Python's exceptions and mutable state: an action returns or raises, and hands back the state that
-- it left either way, since what was written before a raise stays written. `atomic` is Django's
-- `transaction.atomic()`, which takes the database part of the state back on a raise.
use healthgrid.Prelude.{Bool, true, false, Option, none, some}
use healthgrid.Results.{Exn, Result, ok, raise}

abbrev pub Exec {ℓ} : Type ℓ → Type ℓ → Type ℓ
Exec S A = S → Result A × S

module _ {ℓ} {S A : Type ℓ} where
  abbrev pub pure : A → Exec S A
  pure a s = (ok a, s)

  abbrev pub throw : Exn → Exec S A
  throw e s = (raise e, s)

  abbrev pub lift : Result A → Exec S A
  lift r s = (r, s)

  abbrev pub gets : (S → A) → Exec S A
  gets f s = (ok (f s), s)

module _ {ℓ} {S A B : Type ℓ} where
  abbrev pub continue : Result A → (A → Exec S B) → S → Result B × S
  continue (ok a) f s = f a s
  continue (raise e) f s = (raise e, s)

  infixl 5 ◌>>=◌ ◌>>◌
  abbrev pub ◌>>=◌ : Exec S A → (A → Exec S B) → Exec S B
  ◌>>=◌ m f s = let (r, s') = m s in continue r f s'

  abbrev pub ◌>>◌ : Exec S A → Exec S B → Exec S B
  m >> k = m >>= λ _. k

abbrev pub modify : {S : Type 0} → (S → S) → Exec S (Unit {0})
modify f s = (ok tt, f s)

-- `if not test: raise e`
abbrev pub guard : {S : Type 0} → Bool → Exn → Exec S (Unit {0})
guard true e s = (ok tt, s)
guard false e s = (raise e, s)

-- `if test: …`
abbrev pub when : {S : Type 0} → Bool → Exec S (Unit {0}) → Exec S (Unit {0})
when true m s = m s
when false m s = (ok tt, s)

-- `get_object_or_404`, and other lookups that raise when nothing is found
abbrev pub or_raise : {S A : Type 0} → Option A → Exn → Exec S A
or_raise none e s = (raise e, s)
or_raise (some a) e s = (ok a, s)

-- On a raise the state is `restore before after`.
abbrev pub settle {ℓ} : {S A : Type ℓ} → (S → S → S) → S → Result A × S → Result A × S
settle restore before (ok a, after) = (ok a, after)
settle restore before (raise e, after) = (raise e, restore before after)

abbrev pub atomic {ℓ} : {S A : Type ℓ} → (S → S → S) → Exec S A → Exec S A
atomic restore m s = settle restore s (m s)
