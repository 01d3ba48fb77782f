-- ===== src/Prelude/Tables/Adds.antt =====
-- A table that only gets new rows.
use mathlib.Core.Path.{◌≡◌, sym, ap, ◌∙◌}
use mathlib.Core.List.{List, [], ◌++◌, append-nil, append_assoc}
use healthgrid.Prelude.Lists.{All}
use healthgrid.Prelude.Tables.{All-append}

module _ {ℓ κ} {A : Type ℓ} (P : A → Type κ) where
  -- The rows after `before` are new, and each has the property.
  abbrev pub Adds : List A → List A → Type (ℓ ⊔ κ)
  Adds before after = (new : List A) × (after ≡ before ++ new) × All P new

  pub Adds-none : (xs : List A) → Adds xs xs
  Adds-none xs = ([], sym (append-nil xs), tt)

  pub Adds-trans : (xs ys zs : List A) → Adds xs ys → Adds ys zs → Adds xs zs
  Adds-trans xs ys zs (new, e, h) (more, f, g) =
      (new ++ more, f ∙ ap (λ l. l ++ more) e ∙ append_assoc xs new more, All-append P new more h g)
