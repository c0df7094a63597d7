-- ===== src/Examples/Commands.antt =====
-- The theorems on the sub-commands at a list of three records.
use body_image.Common.{ℕ, ◌≡◌, refl, List, [], ◌∷◌, ◌++◌, Option, none, some, Done, ok, arith}
use body_image.Common.Exec.{Exec}
use body_image.Cli.{cat_loop, cp_loop}
use body_image.Cli.Flags.{CliError, index_pos}
use body_image.Cli.Window.{window, Lists, emit_from, cat_loop-window, cp_loop-window}

-- A reader is the records that are left with the positions behind them, and its position.
abbrev Listing : Type 0
Listing = List (ℕ × ℕ) × ℕ

abbrev pop : List (ℕ × ℕ) → ℕ → Option ℕ × Listing
pop [] at = (none, ([], at))
pop ((x, p) ∷ rest) at = (some x, (rest, p))

abbrev pop_next : Exec Listing CliError (Option ℕ)
pop_next r = let (x, r') = pop r.0 r.1 in (ok x, r')

abbrev print : ℕ → ℕ → Exec (List (ℕ × ℕ)) CliError Done
print at x w = (ok tt, w ++ ((at, x) ∷ []))

abbrev copied : ℕ → Exec (List ℕ) CliError Done
copied x w = (ok tt, w ++ (x ∷ []))

abbrev listed : List (ℕ × ℕ)
listed = (100, 10) ∷ (101, 20) ∷ (102, 30) ∷ []

three-Lists : Lists pop_next (λ r. r.1) (listed, 0) listed
three-Lists = (_, refl, refl, (_, refl, refl, (_, refl, refl, (_, refl))))

cat_loop-window_example :
    cat_loop pop_next (index_pos 1) 2 (λ r. r.1) print 4 0 0 (listed, 0) []
    ≡ emit_from print 0 (window (index_pos 1) 2 listed) []
cat_loop-window_example =
    cat_loop-window pop_next (λ r. r.1) (index_pos 1) 2 print 4 0 (listed, 0) listed [] three-Lists
      (omega arith) (omega arith)

cp_loop-window_example :
    cp_loop pop_next (index_pos 1) 2 copied 4 0 (listed, 0) []
    ≡ emit_from (λ _. copied) 0 (window (index_pos 1) 2 listed) []
cp_loop-window_example =
    cp_loop-window pop_next (λ r. r.1) (index_pos 1) 2 copied 4 0 (listed, 0) listed [] three-Lists
      (omega arith) (omega arith)

-- With a start index of 1 and a count of 2, one record comes out, with the offset of the first.
cat_run :
    cat_loop pop_next (index_pos 1) 2 (λ r. r.1) print 4 0 0 (listed, 0) [] ≡ (ok tt, (0, 101) ∷ [])
unfolding cat_loop
cat_run = refl
