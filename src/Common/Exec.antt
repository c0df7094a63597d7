-- ===== src/Common/Exec.antt =====
-- Calls that change a state: what was changed before an error stays changed, so the state comes
-- back beside the error too.
use body_image.Common.Results.{Done, Outcome, ok, err, panic, hang, map_err}

abbrev pub Exec {ℓ κ μ} : Type ℓ → Type κ → Type μ → Type (ℓ ⊔ κ ⊔ μ)
Exec S E A = S → Outcome E A × S

module _ {ℓ κ μ ν} {S : Type ℓ} {E : Type κ} {A : Type μ} {B : Type ν} where
  abbrev pub continue : Outcome E A → (A → Exec S E B) → Exec S E B
  continue (ok a) f s = f a s
  continue (err e) f s = (err e, s)
  continue panic f s = (panic, s)
  continue hang f s = (hang, s)

  infixl 5 ◌>>=◌
  abbrev pub ◌>>=◌ : Exec S E A → (A → Exec S E B) → Exec S E B
  ◌>>=◌ m f s = let (r, s') = m s in continue r f s'

infixl 5 ◌>>◌
abbrev pub ◌>>◌ {ℓ κ ν} :
    {S : Type ℓ} {E : Type κ} {B : Type ν} → Exec S E (Done) → Exec S E B → Exec S E B
m >> n = m >>= λ _. n

module _ {ℓ κ μ} {S : Type ℓ} {E : Type κ} {A : Type μ} where
  -- A call that does not touch the state.
  abbrev pub lift : Outcome E A → Exec S E A
  lift r s = (r, s)

  abbrev pub pure : A → Exec S E A
  pure a s = (ok a, s)

-- The error conversion of `?`.
abbrev pub convert {ℓ κ ν μ} :
    {S : Type ℓ} {E : Type κ} {F : Type ν} {A : Type μ} → (E → F) → Exec S E A → Exec S F A
convert f m s = let (r, s') = m s in (map_err f r, s')
