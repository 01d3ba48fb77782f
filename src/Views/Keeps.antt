-- ===== src/Views/Keeps.antt =====
-- Actions that keep a property of the part of the state that a module owns, with a property of what
-- they return.
use healthgrid.Prelude.{Bool, true, false, ◌≡◌, refl, if◌then◌else◌}
use healthgrid.Results.{Exn, Result, ok, raise, Post}
use healthgrid.Effects.{Exec, pure, gets, guard, continue, ◌>>=◌, ◌>>◌}
use healthgrid.Models.Accounts.{AccessTables}
use healthgrid.Models.Audit.{AuditLog}
use healthgrid.Models.Instances.{RdsInstance}
use healthgrid.Views.{ViewState, Flash, Request, flash, log_audit, require_instance_access}

abbrev pub Any : {A : Type 0} → A → Type 0
Any a = Unit

module _ {T : Type 0} (Good : T → Type 0) where
  -- Whether the action returns or raises, its part of the state keeps the property.
  abbrev pub Keeps : {A : Type 0} → (A → Type 0) → Exec (ViewState T) A → Type 0
  Keeps Q m = (s : ViewState T) → Good s.target → Good (m s).1.target × Post Q (m s).0

  pub Keeps-bind :
      {A B : Type 0} (Q : A → Type 0) (R : B → Type 0) (m : Exec (ViewState T) A)
      (f : A → Exec (ViewState T) B)
      → Keeps Q m
      → ((a : A) → Q a → Keeps R (f a))
      → Keeps R (m >>= f)
  Keeps-bind {A} {B} Q R m f hm hf s h = go (m s).0 (hm s h).1
    where
      go :
          (r : Result A)
          → Post Q r
          → Good (continue r f (m s).1).1.target × Post R (continue r f (m s).1).0
      go (ok a) q = hf a q (m s).1 (hm s h).0
      go (raise e) q = ((hm s h).0, tt)

  pub Keeps-pure : {A : Type 0} (Q : A → Type 0) (a : A) → Q a → Keeps Q (pure a)
  Keeps-pure Q a q s h = (h, q)

  -- What is read of a good state.
  pub Keeps-gets :
      {A : Type 0} (Q : A → Type 0) (f : ViewState T → A)
      → ((s : ViewState T) → Good s.target → Q (f s))
      → Keeps Q (gets f)
  Keeps-gets Q f hf s h = (h, hf s h)

  pub Keeps-flash : (m : Flash) → Keeps Any (flash m)
  Keeps-flash m s h = (h, tt)

  pub Keeps-log_audit : (l : AuditLog) → Keeps Any (log_audit l)
  Keeps-log_audit l s h = (h, tt)

  pub Keeps-if :
      {A : Type 0} (Q : A → Type 0) (b : Bool) (m n : Exec (ViewState T) A)
      → (b ≡ true → Keeps Q m)
      → (b ≡ false → Keeps Q n)
      → Keeps Q (if b then m else n)
  Keeps-if Q true m n hm hn = hm refl
  Keeps-if Q false m n hm hn = hn refl

  -- A test that may raise, and what follows it.
  pub Keeps-guard :
      {A : Type 0} (Q : A → Type 0) (b : Bool) (e : Exn) (m : Exec (ViewState T) A)
      → Keeps Q m
      → Keeps Q (guard b e >> m)
  Keeps-guard Q true e m hm = hm
  Keeps-guard Q false e m hm = λ s h. (h, tt)

  Keeps-access :
      {A : Type 0} (Q : A → Type 0) (v o : Bool) (e : Exn) (m : Exec (ViewState T) A)
      → Keeps Q m
      → Keeps Q ((guard v e >> guard o e) >> m)
  Keeps-access Q true true e m hm = hm
  Keeps-access Q true false e m hm = λ s h. (h, tt)
  Keeps-access Q false o e m hm = λ s h. (h, tt)

  pub Keeps-require_instance_access :
      {A : Type 0} (Q : A → Type 0) (t : AccessTables) (q : Request) (r : RdsInstance)
      (write : Bool) (m : Exec (ViewState T) A)
      → Keeps Q m
      → Keeps Q (require_instance_access t q.user r write >> m)
  Keeps-require_instance_access Q t q r write m = Keeps-access Q _ _ _ m
