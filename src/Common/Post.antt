-- ===== src/Common/Post.antt =====
-- What holds after a call on a state, by how the call ended.
use body_image.Common.Results.{Outcome, ok, err, panic, hang, assert, map_err}
use body_image.Common.Exec.{Exec, continue}
use mathlib.Core.Bool.{Bool, true, false}
use mathlib.Core.Path.{◌≡◌, refl}

module _ {S E A : Type 0} where
  -- `Q` of a value and the state, `Fails` of an error, `Stops` of a panic; the call ends.
  abbrev pub After : (E → Type 0) → Type 0 → (A → S → Type 0) → Outcome E A → S → Type 0
  After Fails Stops Q (ok a) s = Q a s
  After Fails Stops Q (err e) s = Fails e
  After Fails Stops Q panic s = Stops
  After Fails Stops Q hang s = ⊥

module _ {S E A B : Type 0} (Fails : E → Type 0) (Stops : Type 0) where
  pub continue-After :
      (Q : A → S → Type 0) (Q' : B → S → Type 0) (r : Outcome E A) (f : A → Exec S E B) (s : S)
      → After Fails Stops Q r s
      → ((a : A) (t : S) → Q a t → After Fails Stops Q' (f a t).0 (f a t).1)
      → After Fails Stops Q' (continue r f s).0 (continue r f s).1
  continue-After Q Q' (ok a) f s h k = k a s h
  continue-After Q Q' (err e) f s h k = h
  continue-After Q Q' panic f s h k = h
  continue-After Q Q' hang f s h k = h

module _ {S E A : Type 0} (Fails : E → Type 0) (Stops : Type 0) where
  pub After-mono :
      (Q Q' : A → S → Type 0) (r : Outcome E A) (s : S)
      → After Fails Stops Q r s
      → ((a : A) (t : S) → Q a t → Q' a t)
      → After Fails Stops Q' r s
  After-mono Q Q' (ok a) s h k = k a s h
  After-mono Q Q' (err e) s h k = h
  After-mono Q Q' panic s h k = h
  After-mono Q Q' hang s h k = h

  pub convert-After :
      {F : Type 0} (Fails' : F → Type 0) (Q : A → S → Type 0) (g : E → F)
      → ((e : E) → Fails e → Fails' (g e))
      → (r : Outcome E A) (s : S) → After Fails Stops Q r s
      → After Fails' Stops Q (map_err g r) s
  convert-After Fails' Q g k (ok a) s h = h
  convert-After Fails' Q g k (err e) s h = k e h
  convert-After Fails' Q g k panic s h = h
  convert-After Fails' Q g k hang s h = h

-- An assertion leaves the state alone, and a failing one stops the call.
pub assert-After :
    {S E : Type 0} (Fails : E → Type 0) (Stops : Type 0) (b : Bool) (s : S)
    → (b ≡ false → Stops)
    → After Fails Stops (λ _ t. (b ≡ true) × (t ≡ s)) (assert b) s
assert-After Fails Stops true s k = (refl, refl)
assert-After Fails Stops false s k = k refl
