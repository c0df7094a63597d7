-- ===== src/Cli/Window.antt =====
-- Which records the sub-commands handle.
use body_image.Common.{
  ℕ, zero, suc, ◌+◌, ◌-◌, ◌^◌, u64, ◌<◌, ◌≡◌, refl, ◌∙◌, ap, true, false, ltb, ltb→lt, ltb-false→le,
  Bool-cases, inl, inr, List, [], ◌∷◌, length, take, drop, drop_all, take_all, ◌≤◌, Option, none,
  some, Done, Outcome, ok, err, panic, hang, arith,
}
use body_image.Common.Exec.{Exec, ◌>>◌, continue, pure}
use body_image.Cli.Flags.{CliError, StartPos, offset_pos, index_pos}
use body_image.Cli.{skips, cp_next, cp_loop, cat_next, cat_loop}

-- The records from the start on, of which the count is the last: both count from the first.
abbrev pub window : {A : Type 0} → StartPos → ℕ → List A → List A
window (index_pos s) c recs = drop s (take c recs)
window (offset_pos o) c recs = take c recs

-- The same, when `i` records have been read.
abbrev window_at : {A : Type 0} → ℕ → StartPos → ℕ → List A → List A
window_at i (index_pos s) c recs = drop (s - i) (take (c - i) recs)
window_at i (offset_pos o) c recs = take (c - i) recs

-- The reader gives the records, with its position behind each, and then no more.
abbrev pub Lists :
    {R Rec : Type 0} → Exec R CliError (Option Rec) → (R → ℕ) → R → List (Rec × ℕ) → Type 0
Lists {R} next position r [] = (r' : R) × (next r ≡ (ok none, r'))
Lists {R} next position r ((x, p) ∷ xs) =
    (r' : R) × (next r ≡ (ok (some x), r')) × (position r' ≡ p) × Lists next position r' xs

module _ {W Rec : Type 0} (emit : ℕ → Rec → Exec W CliError Done) where
  -- Each record with the position behind the one before; the first with `at`.
  unfoldable pub emit_from : ℕ → List (Rec × ℕ) → Exec W CliError Done
  emit_from at [] = pure tt
  emit_from at ((x, p) ∷ xs) = emit at x >> emit_from p xs

continue_eq :
    {W : Type 0} (r : Outcome CliError Done) (f g : Exec W CliError Done) (w : W)
    → ((v : W) → f v ≡ g v)
    → continue r (λ _. f) w ≡ continue r (λ _. g) w
continue_eq (ok _) f g w h = h w
continue_eq (err e) f g w h = refl
continue_eq panic f g w h = refl
continue_eq hang f g w h = refl

module _ {A : Type 0} where
  drop-take_next :
      (n k : ℕ) (x : A) (xs : List A) → drop (suc n) (take k (x ∷ xs)) ≡ drop n (take (k - 1) xs)
  drop-take_next n zero x xs = rw (drop_all {A = A} n [] (omega arith)) refl
  drop-take_next n (suc k) x xs = let e : suc k - 1 ≡ k = omega arith in rw e refl

  window-nil : (i : ℕ) (start : StartPos) (c : ℕ) → window_at {A = A} i start c [] ≡ []
  window-nil i (index_pos s) c =
      rw (take_all {A = A} (c - i) [] (omega arith), drop_all {A = A} (s - i) [] (omega arith)) refl
  window-nil i (offset_pos o) c = take_all {A = A} (c - i) [] (omega arith)

  window_skip :
      (i : ℕ) (start : StartPos) (c : ℕ) (x : A) (xs : List A)
      → skips start i ≡ true
      → window_at i start c (x ∷ xs) ≡ window_at (i + 1) start c xs
  window_skip i (index_pos s) c x xs h =
      let less : i < s = ltb→lt i s h in
      let a : s - i ≡ suc (s - (i + 1)) = omega (arith, less) in
      let b : c - (i + 1) ≡ c - i - 1 = omega arith in
      rw (a, b) (drop-take_next (s - (i + 1)) (c - i) x xs)
  window_skip i (offset_pos o) c x xs h = cc

  window_stop :
      (i : ℕ) (start : StartPos) (c : ℕ) (xs : List A) → c < i + 1 → window_at i start c xs ≡ []
  window_stop i (index_pos s) c xs h =
      let a : c - i ≡ 0 = omega (arith, h) in rw (a, drop_all {A = A} (s - i) [] (omega arith)) refl
  window_stop i (offset_pos o) c xs h = let a : c - i ≡ 0 = omega (arith, h) in rw a refl

  window_take :
      (i : ℕ) (start : StartPos) (c : ℕ) (x : A) (xs : List A)
      → skips start i ≡ false
      → i < c
      → window_at i start c (x ∷ xs) ≡ x ∷ window_at (i + 1) start c xs
  window_take i (index_pos s) c x xs h l =
      let past : s ≤ i = ltb-false→le i s h in
      let a : s - i ≡ 0 = omega (arith, past) in
      let a' : s - (i + 1) ≡ 0 = omega (arith, past) in
      let b : c - i ≡ suc (c - (i + 1)) = omega (arith, l) in rw (a, a', b) refl
  window_take i (offset_pos o) c x xs h l =
      let b : c - i ≡ suc (c - (i + 1)) = omega (arith, l) in rw b refl

  window_at-window :
      (start : StartPos) (c : ℕ) (recs : List A) → window_at 0 start c recs ≡ window start c recs
  window_at-window (index_pos s) c recs =
      let a : s - 0 ≡ s = omega arith in let b : c - 0 ≡ c = omega arith in rw (a, b) refl
  window_at-window (offset_pos o) c recs = let b : c - 0 ≡ c = omega arith in rw b refl

module _ {R W Rec : Type 0} (next : Exec R CliError (Option Rec)) (position : R → ℕ)
    (start : StartPos) (count : ℕ) where
  module _ (emit : ℕ → Rec → Exec W CliError Done) where
    cat_some :
        (go : ℕ → ℕ → Exec W CliError Done) (i at p : ℕ) (x : Rec) (xs : List (Rec × ℕ)) (w : W)
        → u64 (i + 1) ≡ i + 1
        → ((a : ℕ) (v : W) → go (i + 1) a v ≡ emit_from emit a (window_at (i + 1) start count xs) v)
        → cat_next next start count position emit go i at p (ok (some x)) w
          ≡ emit_from emit at (window_at i start count ((x, p) ∷ xs)) w
    unfolding emit_from
    cat_some go i at p x xs w next_i ih = elim (Bool-cases (skips start i)) [
      | inl before ↦ rw (before, next_i, window_skip i start count (x, p) xs before) (ih at w)
      | inr inside ↦ elim (Bool-cases (ltb count (i + 1))) [
        | inl past ↦
            rw (inside, next_i, past, window_stop i start count ((x, p) ∷ xs) (ltb→lt _ _ past))
              refl
        | inr some_left ↦
            rw
              (
                inside,
                next_i,
                some_left,
                window_take i start count (x, p) xs inside
                    (omega (arith, ltb-false→le count (i + 1) some_left)),
              )
              (continue_eq _ _ _ _ (λ v. ih p v))
      ]
    ]

    cat_lem :
        (fuel i at : ℕ) (r : R) (recs : List (Rec × ℕ)) (w : W)
        → Lists next position r recs
        → length recs < fuel
        → i + length recs < 2 ^ 64
        → cat_loop next start count position emit fuel i at r w
          ≡ emit_from emit at (window_at i start count recs) w
    unfolding cat_loop emit_from
    cat_lem zero i at r recs w l lt few = absurd (omega arith)
    cat_lem (suc fuel) i at r [] w (r', e) lt few =
        rw (e, window-nil {A = Rec × ℕ} i start count) refl
    cat_lem (suc fuel) i at r ((x, p) ∷ xs) w (r', e, q, l) lt few =
        rw (e, q)
          (cat_some (λ j a. cat_loop next start count position emit fuel j a r') i at p x xs w
            (omega arith) (λ a v. cat_lem fuel (i + 1) a r' xs v l (omega arith) (omega arith)))

    -- If the reader gives the records `recs`, fewer than 2 ^ 64, and then no more, and the fuel is
    -- for one read more, `cat` handles these of them: with a start index `s`, those from index `s`
    -- on and below index `count`, so that the skipped records count too; with a start offset, the
    -- first `count`. It handles them in order, up to the first error. The offset that it gives with
    -- each is the position behind the one before, but with the first it is the position of the
    -- reader before any record was skipped.
    pub cat_loop-window :
        (fuel at : ℕ) (r : R) (recs : List (Rec × ℕ)) (w : W)
        → Lists next position r recs
        → length recs < fuel
        → length recs < 2 ^ 64
        → cat_loop next start count position emit fuel 0 at r w
          ≡ emit_from emit at (window start count recs) w
    cat_loop-window fuel at r recs w l lt few =
        cat_lem fuel 0 at r recs w l lt (omega arith)
        ∙ ap (λ xs. emit_from emit at xs w) (window_at-window start count recs)

  module _ (emit : Rec → Exec W CliError Done) where
    cp_some :
        (go : ℕ → Exec W CliError Done) (i at p : ℕ) (x : Rec) (xs : List (Rec × ℕ)) (w : W)
        → u64 (i + 1) ≡ i + 1
        → ((a : ℕ) (v : W)
            → go (i + 1) v ≡ emit_from (λ _. emit) a (window_at (i + 1) start count xs) v)
        → cp_next next start count emit go i (ok (some x)) w
          ≡ emit_from (λ _. emit) at (window_at i start count ((x, p) ∷ xs)) w
    unfolding emit_from
    cp_some go i at p x xs w next_i ih = elim (Bool-cases (skips start i)) [
      | inl before ↦ rw (before, next_i, window_skip i start count (x, p) xs before) (ih at w)
      | inr inside ↦ elim (Bool-cases (ltb count (i + 1))) [
        | inl past ↦
            rw (inside, next_i, past, window_stop i start count ((x, p) ∷ xs) (ltb→lt _ _ past))
              refl
        | inr some_left ↦
            rw
              (
                inside,
                next_i,
                some_left,
                window_take i start count (x, p) xs inside
                    (omega (arith, ltb-false→le count (i + 1) some_left)),
              )
              (continue_eq _ _ _ _ (λ v. ih p v))
      ]
    ]

    cp_lem :
        (fuel i at : ℕ) (r : R) (recs : List (Rec × ℕ)) (w : W)
        → Lists next position r recs
        → length recs < fuel
        → i + length recs < 2 ^ 64
        → cp_loop next start count emit fuel i r w
          ≡ emit_from (λ _. emit) at (window_at i start count recs) w
    unfolding cp_loop emit_from
    cp_lem zero i at r recs w l lt few = absurd (omega arith)
    cp_lem (suc fuel) i at r [] w (r', e) lt few =
        rw (e, window-nil {A = Rec × ℕ} i start count) refl
    cp_lem (suc fuel) i at r ((x, p) ∷ xs) w (r', e, q, l) lt few = rw e (
        cp_some (λ j. cp_loop next start count emit fuel j r') i at p x xs w (omega arith)
          (λ a v. cp_lem fuel (i + 1) a r' xs v l (omega arith) (omega arith)))

    -- If the reader gives the records `recs`, fewer than 2 ^ 64, and then no more, and the fuel is
    -- for one read more, `cp` writes these of them to the output: with a start index `s`, those
    -- from index `s` on and below index `count`, so that the skipped records count too; with a
    -- start offset, the first `count`. It writes them in order, up to the first error.
    pub cp_loop-window :
        (fuel at : ℕ) (r : R) (recs : List (Rec × ℕ)) (w : W)
        → Lists next position r recs
        → length recs < fuel
        → length recs < 2 ^ 64
        → cp_loop next start count emit fuel 0 r w
          ≡ emit_from (λ _. emit) at (window start count recs) w
    cp_loop-window fuel at r recs w l lt few =
        cp_lem fuel 0 at r recs w l lt (omega arith)
        ∙ ap (λ xs. emit_from (λ _. emit) at xs w) (window_at-window start count recs)
