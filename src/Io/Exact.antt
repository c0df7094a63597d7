-- ===== src/Io/Exact.antt =====
-- `read_exact` takes the front of what the reader serves.
use body_image.Common.{
  ℕ, zero, suc, ◌+◌, ◌-◌, ◌≤◌, ◌<◌, ◌≡◌, refl, sym, ap, ◌∙◌, [], ◌∷◌, ◌++◌, List, length, drop,
  length-append, append-nil, append_assoc, Outcome, ok, err, panic, hang, arith,
}
use body_image.Common.Exec.{Exec}
use body_image.Common.Post.{After, After-mono}
use body_image.Io.Stream.{Bytes, IoError, interrupted, unexpected_eof, invalid_input, other, Read}
use body_image.Io.Copy.{read_exact, exact_next}
use body_image.Io.Laws.{Answers, Serves, reads_left}

-- The longer of two beginnings of one list goes on behind the shorter.
split_front :
    {A : Type 0} (xs ys b rest : List A)
    → xs ++ ys ≡ b ++ rest
    → length xs ≤ length b
    → (b' : List A) × (b ≡ xs ++ b') × (ys ≡ b' ++ rest)
split_front [] ys b rest e le = (b, refl, e)
split_front (x ∷ xs) ys [] rest e le = absurd (omega arith)
split_front (x ∷ xs) ys (y ∷ b) rest e le =
    let head : x ≡ y = cc in
    let (b', p, q) = split_front xs ys b rest (ap (drop 1) e) (omega arith) in (b', cc, q)

module _ (P : IoError → Type 0) {R : Type 0} (rd : Read R) (sv : Serves P rd) where
  open sv use {view, waits, answers}

  -- What a call for the bytes `b` in front of `rest` leaves.
  abbrev pub Took : Bytes → Bytes → ℕ → Bytes → R → Type 0
  Took b rest w out r = (out ≡ b) × (view r ≡ rest) × (waits r ≤ w)

  abbrev ExactGood : ℕ → (ℕ → Bytes → Exec R IoError Bytes) → Type 0
  ExactGood fuel go =
      (n : ℕ) (got b rest : Bytes) (r : R)
      → view r ≡ b ++ rest
      → length b ≡ n
      → reads_left sv r < fuel
      → After P ⊥ (Took (got ++ b) rest (waits r)) (go n got r).0 (go n got r).1

  exact_next-Took :
      (fuel : ℕ) (go : ℕ → Bytes → Exec R IoError Bytes)
      → ExactGood fuel go
      → (n : ℕ) (got b rest : Bytes) (r : R) (res : Outcome IoError Bytes) (r' : R)
      → Answers P view waits (suc n) r res r'
      → view r ≡ b ++ rest
      → length b ≡ suc n
      → reads_left sv r < suc fuel
      → After P ⊥
          (Took (got ++ b) rest (waits r))
          (exact_next rd go (suc n) got res r').0
          (exact_next rd go (suc n) got res r').1
  exact_next-Took fuel go good n got b rest r (ok []) r' a e l lt =
      let none_left : length (view r) ≡ 0 = ap length (a.2 refl) in
      let some_left : length (view r) ≡ length b + length rest =
        ap length e ∙ length-append b rest in
      absurd (omega (arith, none_left, some_left, l))
  exact_next-Took fuel go good n got b rest r (ok (c ∷ cs)) r' a e l lt =
      let (b', p, q) =
        split_front (c ∷ cs) (view r') b rest (sym (a.0) ∙ e) (omega (arith, a.1, l)) in
      let size : length b ≡ length (c ∷ cs) + length b' = ap length p ∙ length-append (c ∷ cs) b' in
      let left : length (view r) ≡ length (c ∷ cs) + length (view r') =
        ap length (a.0) ∙ length-append (c ∷ cs) (view r') in
      let rec =
        good (suc n - length (c ∷ cs)) (got ++ c ∷ cs) b' rest r' q (omega (arith, size, l))
          (omega (arith, left, a.3)) in
      After-mono P ⊥ (Took ((got ++ c ∷ cs) ++ b') rest (waits r')) (Took (got ++ b) rest (waits r))
        _ _ rec
        (λ out t k. (
          k.0 ∙ append_assoc got (c ∷ cs) b' ∙ ap (λ z. got ++ z) (sym p),
          k.1,
          omega (arith, k.2, a.3),
        ))
  exact_next-Took fuel go good n got b rest r (err interrupted) r' a e l lt =
      After-mono P ⊥ (Took (got ++ b) rest (waits r')) (Took (got ++ b) rest (waits r)) _ _
        (good (suc n) got b rest r' (a.0 ∙ e) l (omega (arith, a.1, ap length (a.0))))
        (λ out t k. (k.0, k.1, omega (arith, k.2, a.1)))
  exact_next-Took fuel go good n got b rest r (err unexpected_eof) r' a e l lt = a
  exact_next-Took fuel go good n got b rest r (err invalid_input) r' a e l lt = a
  exact_next-Took fuel go good n got b rest r (err (other x)) r' a e l lt = a
  exact_next-Took fuel go good n got b rest r panic r' a e l lt = a
  exact_next-Took fuel go good n got b rest r hang r' a e l lt = a

  -- Of a reader that has at least `n` bytes, `read_exact` returns the first `n` and leaves the
  -- others, however the reader cuts them; it fails only by an error of the reader.
  pub read_exact-Took :
      (fuel n : ℕ) (got b rest : Bytes) (r : R)
      → view r ≡ b ++ rest
      → length b ≡ n
      → reads_left sv r < fuel
      → After P ⊥
          (Took (got ++ b) rest (waits r))
          (read_exact rd fuel n got r).0
          (read_exact rd fuel n got r).1
  unfolding read_exact
  read_exact-Took fuel zero got [] rest r e l lt = (sym (append-nil got), e, omega arith)
  read_exact-Took fuel zero got (x ∷ b) rest r e l lt = absurd (omega arith)
  read_exact-Took zero (suc n) got b rest r e l lt = absurd (omega arith)
  read_exact-Took (suc fuel) (suc n) got b rest r e l lt =
      exact_next-Took fuel (read_exact rd fuel)
        (λ m g b' rest' r' e' l' lt'. read_exact-Took fuel m g b' rest' r' e' l' lt') n got b rest r
        _ _ (answers (suc n) r (omega arith)) e l lt
