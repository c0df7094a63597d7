-- ===== src/Examples/Script.antt =====
-- A reader that plays a script of answers.
use body_image.Common.{
  ℕ, zero, suc, ◌<◌, ◌≡◌, refl, sym, ◌∙◌, ap, List, [], ◌∷◌, ◌++◌, take, drop, length-take,
  take-append-drop, append_assoc, Outcome, ok, err, arith,
}
use body_image.Io.{Bytes, IoError, interrupted, Read}
use body_image.Io.Laws.{Answers, Serves}

-- Bytes that come in one piece, if the buffer has room, and interruptions.
pub data Event : Type 0 where
  chunk : ℕ → Bytes → Event
  interrupt : Event

abbrev pub Script : Type 0
Script = List Event

abbrev pub view : Script → Bytes
view [] = []
view (chunk b bs ∷ s) = (b ∷ bs) ++ view s
view (interrupt ∷ s) = view s

abbrev pub waits : Script → ℕ
waits [] = 0
waits (chunk b bs ∷ s) = waits s
waits (interrupt ∷ s) = suc (waits s)

abbrev unread : Bytes → Script → Script
unread [] s = s
unread (b ∷ bs) s = chunk b bs ∷ s

abbrev play : ℕ → Script → Outcome IoError Bytes × Script
play n [] = (ok [], [])
play n (chunk b bs ∷ s) = (ok (take n (b ∷ bs)), unread (drop n (b ∷ bs)) s)
play n (interrupt ∷ s) = (err interrupted, s)

abbrev pub script_read : Read Script
script_read = record { read = play }

view-unread : (b : Bytes) (s : Script) → view (unread b s) ≡ b ++ view s
view-unread [] s = refl
view-unread (b ∷ bs) s = refl

waits-unread : (b : Bytes) (s : Script) → waits (unread b s) ≡ waits s
waits-unread [] s = refl
waits-unread (b ∷ bs) s = refl

pub play-Answers :
    (P : IoError → Type 0) (n : ℕ) (s : Script)
    → 0 < n
    → let (r, s') = play n s in Answers P view waits n s r s'
play-Answers P zero s h = absurd (omega arith)
play-Answers P (suc n) [] h = (refl, omega arith, λ _. refl, omega arith)
play-Answers P (suc n) (chunk b bs ∷ s) h = (
  ap (λ t. b ∷ (t ++ view s)) (sym (take-append-drop n bs))
      ∙ ap (λ t. b ∷ t)
          (append_assoc (take n bs) (drop n bs) (view s)
            ∙ ap (λ t. take n bs ++ t) (sym (view-unread (drop n bs) s))),
  omega (arith, length-take n bs),
  λ e. cc,
  rw waits-unread (omega arith),
)
play-Answers P (suc n) (interrupt ∷ s) h = (refl, omega arith)

abbrev pub script_Serves : (P : IoError → Type 0) → Serves P script_read
script_Serves P = record { view = view; waits = waits; answers = play-Answers P }
