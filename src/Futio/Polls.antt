-- ===== src/Futio/Polls.antt =====
-- Any stream of body-image-futio/src/stream.rs, polled again and again.
use body_image.Common.{
  ◌≡◌, refl, sym, ap, ◌∙◌, [], ◌++◌, append-nil, append_assoc, Option, none, some, Outcome, ok, err,
  panic, hang,
}
use mathlib.Core.Path.{subst}
use body_image.Common.Exec.{Exec}
use body_image.Io.{Bytes, IoError}
use body_image.Storage.{Storage}
use body_image.Futio.Crates.{Poll, ready, pending}
use body_image.Futio.Buf.{OutputBuf}

module _ ⦃st : Storage⦄ {S B : Type 0} ⦃ob : OutputBuf B⦄
    (poll : Exec S IoError (Poll (Option B))) where
  -- `PollsTo s given s'`: polls that did not fail lead from `s` to `s'`, and `given` is what their
  -- items hold.
  pub data PollsTo (s : S) : Bytes → S → Type 0 where
    at_start : PollsTo s [] s
    an_item :
        {given : Bytes} {s' s'' : S} (x : B)
        → PollsTo s given s'
        → poll s' ≡ (ok (ready (some x)), s'')
        → PollsTo s (given ++ ob.buf_chunk x) s''
    a_wait :
        {given : Bytes} {s' s'' : S}
        → PollsTo s given s'
        → poll s' ≡ (ok pending, s'')
        → PollsTo s given s''

module _ ⦃st : Storage⦄ {B : Type 0} ⦃ob : OutputBuf B⦄ (P : IoError → Type 0) where
  -- How the next poll ends, once `given` of `all` is out.
  abbrev pub Continues : (all given : Bytes) → Outcome IoError (Poll (Option B)) → Type 0
  Continues all given (ok (ready none)) = given ≡ all
  Continues all given (ok (ready (some x))) =
      (more : Bytes) × (all ≡ (given ++ ob.buf_chunk x) ++ more)
  Continues all given (ok pending) = Unit
  Continues all given (err e) = P e
  Continues all given panic = ⊥
  Continues all given hang = ⊥

  module _ {S : Type 0} (Has : S → Bytes → Type 0) where
    -- What one poll gives of `rest`, for a stream that has `rest` in front of it.
    abbrev pub PollGives : Bytes → Outcome IoError (Poll (Option B)) → S → Type 0
    PollGives rest (ok (ready none)) s = (rest ≡ []) × Has s rest
    PollGives rest (ok (ready (some x))) s =
        (more : Bytes) × (rest ≡ ob.buf_chunk x ++ more) × Has s more
    PollGives rest (ok pending) s = Has s rest
    PollGives rest (err e) s = P e
    PollGives rest panic s = ⊥
    PollGives rest hang s = ⊥

    gives-Continues :
        (all given rest : Bytes) (r : Outcome IoError (Poll (Option B))) (s : S)
        → all ≡ given ++ rest
        → PollGives rest r s
        → Continues all given r
    gives-Continues all given rest (ok (ready none)) s e h =
        sym (e ∙ ap (λ z. given ++ z) (h.0) ∙ append-nil given)
    gives-Continues all given rest (ok (ready (some x))) s e (more, cut, on) =
        (more, e ∙ ap (λ z. given ++ z) cut ∙ sym (append_assoc given (ob.buf_chunk x) more))
    gives-Continues all given rest (ok pending) s e h = tt
    gives-Continues all given rest (err x) s e h = h
    gives-Continues all given rest panic s e h = h
    gives-Continues all given rest hang s e h = h

    module _ (poll : Exec S IoError (Poll (Option B)))
        (gives : (s : S) (rest : Bytes) → Has s rest → PollGives rest (poll s).0 (poll s).1) where
      left_lem :
          (s s' : S) (all given : Bytes)
          → Has s all
          → PollsTo poll s given s'
          → (rest : Bytes) × (all ≡ given ++ rest) × Has s' rest
      left_lem s s' all _ h at_start = (all, refl, h)
      left_lem s s' all _ h (an_item {given = given} {s' = s1} x y e) =
          let (rest, split, left) = left_lem s s1 all given h y in
          let (more, cut, on) = subst (λ q. PollGives rest q.0 q.1) e (gives s1 rest left) in
          (
            more,
            split ∙ ap (λ z. given ++ z) cut ∙ sym (append_assoc given (ob.buf_chunk x) more),
            on,
          )
      left_lem s s' all _ h (a_wait {given = given} {s' = s1} y e) =
          let (rest, split, left) = left_lem s s1 all given h y in
          (rest, split, subst (λ q. PollGives rest q.0 q.1) e (gives s1 rest left))

      -- If every poll gives the front of what the stream has, any polls do so one after the other.
      pub PollsTo-Continues :
          (s s' : S) (all given : Bytes)
          → Has s all
          → PollsTo poll s given s'
          → Continues all given (poll s').0
      PollsTo-Continues s s' all given h y =
          let (rest, split, left) = left_lem s s' all given h y in
          gives-Continues all given rest _ _ split (gives s' rest left)
