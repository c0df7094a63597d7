-- ===== src/Io/Copied.antt =====
-- `copy` takes all that a reader serves to an output that appends.
use body_image.Common.{
  ℕ, zero, suc, ◌<◌, refl, ap, [], ◌∷◌, ◌++◌, length, length-append, append-nil, append_assoc, Done,
  Outcome, ok, err, panic, hang, arith,
}
use body_image.Common.Exec.{Exec}
use body_image.Common.Post.{After, continue-After}
use body_image.Io.Stream.{
  Bytes, IoError, interrupted, unexpected_eof, invalid_input, other, Read, Write,
}
use body_image.Io.Copy.{copy, copy_next}
use body_image.Io.Laws.{Answers, Serves, reads_left}

-- An output that appends: `holds w c` says that `w` holds `c` and takes more behind it.
pub record Appends {W : Type 0} (P : IoError → Type 0) (wr : Write W) : Type 1 where
  pub holds : W → Bytes → Type 0
  pub appends :
      (b c : Bytes) (w : W)
      → holds w c
      → After P ⊥ (λ _ w'. holds w' (c ++ b)) (wr.write_all b w).0 (wr.write_all b w).1

module _ {R W : Type 0} (P : IoError → Type 0) (rd : Read R) (sv : Serves P rd) (wr : Write W)
    (ap' : Appends P wr) where
  open sv use {view, waits, answers}
  open ap' use {holds, appends}

  abbrev Copies : ℕ → (R → Exec W IoError Done) → Type 0
  Copies fuel go =
      (r : R) (c : Bytes) (w : W)
      → reads_left sv r < fuel
      → holds w c
      → After P ⊥ (λ _ w'. holds w' (c ++ view r)) (go r w).0 (go r w).1

  copy_next-After :
      (fuel n : ℕ) (go : R → Exec W IoError Done)
      → Copies fuel go
      → (r : R) (c : Bytes) (w : W) (res : Outcome IoError Bytes) (r' : R)
      → Answers P view waits n r res r'
      → reads_left sv r < suc fuel
      → holds w c
      → After P ⊥
          (λ _ w'. holds w' (c ++ view r))
          (copy_next rd wr go res r' w).0
          (copy_next rd wr go res r' w).1
  copy_next-After fuel n go good r c w (ok []) r' a lt h = rw (a.2 refl, append-nil c) h
  copy_next-After fuel n go good r c w (ok (x ∷ xs)) r' a lt h =
      continue-After P ⊥ (λ _ t. holds t (c ++ x ∷ xs)) (λ _ t. holds t (c ++ view r)) _ _ _
        (appends (x ∷ xs) c w h)
        (λ _ t k.
          rw (a.0, ← append_assoc c (x ∷ xs) (view r'))
            (good r' (c ++ x ∷ xs) t
              (omega (arith, ap length a.0, length-append (x ∷ xs) (view r'))) k))
  copy_next-After fuel n go good r c w (err interrupted) r' a lt h =
      rw (← a.0) (good r' c w (omega (arith, ap length a.0)) h)
  copy_next-After fuel n go good r c w (err unexpected_eof) r' a lt h = a
  copy_next-After fuel n go good r c w (err invalid_input) r' a lt h = a
  copy_next-After fuel n go good r c w (err (other e)) r' a lt h = a
  copy_next-After fuel n go good r c w panic r' a lt h = absurd a
  copy_next-After fuel n go good r c w hang r' a lt h = absurd a

  -- With fuel for all calls of `read`, the copy ends: the output has taken all that the reader had
  -- left, or an error of the reader or of the output came back.
  pub copy-After : (fuel : ℕ) → Copies fuel (copy rd wr fuel)
  unfolding copy
  copy-After zero r c w lt h = absurd (omega arith)
  copy-After (suc fuel) r c w lt h =
      copy_next-After fuel 0x2000 _ (copy-After fuel) r c w _ _ (answers 0x2000 r (omega arith)) lt
        h
