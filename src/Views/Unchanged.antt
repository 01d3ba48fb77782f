-- ===== src/Views/Unchanged.antt =====
-- Lemmas on handlers that leave the tables or the server that they own as they are.
use healthgrid.Prelude.{
  String, Bool, true, false, not, ◌||◌, nat_eq, if◌then◌else◌, ◌≡◌, refl, ◌∙◌, Bool-cases, inl, inr,
}
use healthgrid.Results.{Exn, Result, ok, raise, permission_denied}
use healthgrid.Effects.{Exec, guard, continue, ◌>>=◌, ◌>>◌}
use healthgrid.Models.Accounts.{User, AccessTables}
use healthgrid.Models.Audit.{AuditAction}
use healthgrid.Models.Instances.{RdsInstance}
use healthgrid.Access.{can_view_instance, can_operate_instance}
use healthgrid.Mfa.{MfaLibrary}
use healthgrid.Views.{ViewState, Request, require_instance_access, check_mfa, require_action_mfa}

-- The action leaves the part of the state that its module owns as it is.
abbrev pub Same : {T A : Type 0} → Exec (ViewState T) A → ViewState T → Type 0
Same m s = (m s).1.target ≡ s.target

pub guard-Same :
    {T A : Type 0} (b : Bool) (e : Exn) (k : Exec (ViewState T) A) (s : ViewState T)
    → (b ≡ true → Same k s)
    → Same (guard b e >> k) s
guard-Same true e k s rest = rest refl
guard-Same false e k s rest = refl

pub access-Same :
    {T A : Type 0} (t : AccessTables) (u : User) (r : RdsInstance) (k : Exec (ViewState T) A)
    (s : ViewState T)
    → (can_view_instance t u r ≡ true → can_operate_instance t u r ≡ true → Same k s)
    → Same (require_instance_access t u r true >> k) s
access-Same {T} {A} t u r k s rest = go (can_view_instance t u r) (can_operate_instance t u r) rest
  where
    go :
        (v o : Bool)
        → (v ≡ true → o ≡ true → Same k s)
        → Same ((guard v permission_denied >> guard (not true || o) permission_denied) >> k) s
    go true true rest = rest refl refl
    go true false rest = refl
    go false o rest = refl

pub bind-Same :
    {T A B : Type 0} (m : Exec (ViewState T) A) (f : A → Exec (ViewState T) B) (s : ViewState T)
    → Same m s
    → ((a : A) → (m s).0 ≡ ok a → Same (f a) (m s).1)
    → Same (m >>= f) s
bind-Same {T} {A} m f s kept rest = go (m s).0 rest
  where
    go :
        (res : Result A)
        → ((a : A) → res ≡ ok a → Same (f a) (m s).1)
        → (continue res f (m s).1).1.target ≡ s.target
    go (ok a) rest = rest a refl ∙ kept
    go (raise e) rest = kept

pub bind-ok :
    {T A B : Type 0} (m : Exec (ViewState T) A) (f : A → Exec (ViewState T) B) (s : ViewState T)
    (b : B)
    → ((m >>= f) s).0 ≡ ok b
    → (a : A) × ((m s).0 ≡ ok a) × ((f a (m s).1).0 ≡ ok b)
bind-ok {T} {A} m f s b e = go (m s).0 e
  where
    go :
        (res : Result A)
        → (continue res f (m s).1).0 ≡ ok b
        → (a : A) × (res ≡ ok a) × ((f a (m s).1).0 ≡ ok b)
    go (ok a) e = (a, refl, e)
    go (raise x) e = cc

pub if-Same :
    {T A : Type 0} (b : Bool) (m n : Exec (ViewState T) A) (s : ViewState T)
    → (b ≡ true → Same m s)
    → (b ≡ false → Same n s)
    → Same (if b then m else n) s
if-Same true m n s hm hn = hm refl
if-Same false m n s hm hn = hn refl

module _ (lib : MfaLibrary) (q : Request) where
  pub mfa-Same :
      {T : Type 0} (r : RdsInstance) (action : AuditAction) (detail : String) (s : ViewState T)
      → Same (require_action_mfa lib q r action detail) s
  unfolding require_action_mfa check_mfa
  mfa-Same {T} r action detail s = elim (Bool-cases (check_mfa lib q s).0) [
    | inl yes_ ↦ rw yes_ refl
    | inr no_ ↦ rw no_ refl
  ]

  pub mfa-ok :
      {T : Type 0} (r : RdsInstance) (action : AuditAction) (detail : String) (s : ViewState T)
      → (require_action_mfa lib q r action detail s).0 ≡ ok true
      → (check_mfa lib q s).0 ≡ true
  unfolding require_action_mfa
  mfa-ok {T} r action detail s e = elim (Bool-cases (check_mfa lib q s).0) [
    | inl yes_ ↦ yes_
    | inr no_ ↦
        let refused : (require_action_mfa {T = T} lib q r action detail s).0 ≡ ok false =
          rw no_ refl in
        cc
  ]
