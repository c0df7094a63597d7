-- ===== src/Barc/Head/Reading.antt =====
-- The record head, written to a stream and read from one that cuts its bytes as it likes.
use body_image.Common.{
  ℕ, inl, inr, zero, suc, ◌+◌, ◌-◌, ◌<◌, ◌≡◌, refl, sym, ◌∙◌, ap, [], ◌∷◌, ◌++◌, length, take,
  length-append, append-nil, append_assoc, take_all, take_front, leb, leb→le, le→leb, leb-false→lt,
  ==_ne, Bool-cases, if◌then◌else◌, ◌==◌, none, some, Outcome, ok, err, panic, hang, map_ok, arith,
}
use body_image.Common.Exec.{Exec, convert, continue, lift}
use body_image.Io.{Bytes, IoError, interrupted, unexpected_eof, invalid_input, other, Read, Write}
use body_image.Io.Laws.{Answers, Serves, reads_left}
use body_image.Barc.Errors.{BarcError, io, read_incomplete_rec_head}
use body_image.Barc.Types.{RecordHead, v2_head_size, v2_max_record, v2_max_hblock, v2_max_req_body}
use body_image.Barc.Format.{format_head}
use body_image.Barc.Format.RoundTrip.{
  InRange, in_range, in_range→InRange, InRange→in_range, length-format_head, parse_head-format_head,
}
use body_image.Barc.Head.{
  write_all_len, write_record_head, head_next, head_of, read_record_head_buf, read_record_head,
}

-- How `read_record_head_buf` answers of the bytes `whole` that stood before the reader.
abbrev HeadBuf : (IoError → Type 0) → Bytes → Bytes → Outcome BarcError Bytes → Type 0
HeadBuf P whole rest (ok buf) = (buf ≡ take v2_head_size whole) × (buf ++ rest ≡ whole)
HeadBuf P whole rest (err (io e)) = P e
HeadBuf P whole rest (err _) = ⊥
HeadBuf P whole rest panic = ⊥
HeadBuf P whole rest hang = ⊥

module _ (P : IoError → Type 0) {R : Type 0} (rd : Read R) (sv : Serves P rd) where
  open sv use {view, waits, answers}

  abbrev BufGood : ℕ → (Bytes → Exec R BarcError Bytes) → Type 0
  BufGood fuel go =
      (got : Bytes) (r : R)
      → length got < v2_head_size
      → reads_left sv r < fuel
      → let (res, r') = go got r in HeadBuf P (got ++ view r) (view r') res

  head_next-HeadBuf :
      (fuel : ℕ) (go : Bytes → Exec R BarcError Bytes)
      → BufGood fuel go
      → (got : Bytes) (r : R) (res : Outcome IoError Bytes) (r' : R)
      → Answers P view waits (v2_head_size - length got) r res r'
      → length got < v2_head_size
      → reads_left sv r < suc fuel
      → let (res', r'') = head_next rd go got res r' in HeadBuf P (got ++ view r) (view r'') res'
  head_next-HeadBuf fuel go good got r (ok []) r' a short lt =
      rw (a.2 refl, append-nil got)
        (
          sym (take_all v2_head_size got (omega arith)),
          ap (λ t. got ++ t) (sym a.0 ∙ a.2 refl) ∙ append-nil got,
        )
  head_next-HeadBuf fuel go good got r (ok (b ∷ bs)) r' a short lt =
      let c : Bytes = b ∷ bs in
      let split : length (view r) ≡ length c + length (view r') =
        ap length a.0 ∙ length-append c (view r') in
      let join : got ++ view r ≡ (got ++ c) ++ view r' =
        ap (λ t. got ++ t) a.0 ∙ sym (append_assoc got c (view r')) in
      elim (Bool-cases (leb v2_head_size (length (got ++ c)))) [
        | inl full ↦
            rw (full, join)
              (
                sym (
                    take_front v2_head_size (got ++ c) (view r')
                      (omega (arith, length-append got c, leb→le _ _ full))),
                refl,
              )
        | inr more ↦
            rw (more, join) (good (got ++ c) r' (leb-false→lt _ _ more) (omega (arith, split)))
      ]
  head_next-HeadBuf fuel go good got r (err interrupted) r' a short lt =
      rw (← a.0) (good got r' short (omega (arith, ap length a.0)))
  head_next-HeadBuf fuel go good got r (err unexpected_eof) r' a short lt = a
  head_next-HeadBuf fuel go good got r (err invalid_input) r' a short lt = a
  head_next-HeadBuf fuel go good got r (err (other c)) r' a short lt = a
  head_next-HeadBuf fuel go good got r panic r' a short lt = a
  head_next-HeadBuf fuel go good got r hang r' a short lt = a

  read_record_head_buf-HeadBuf : (fuel : ℕ) → BufGood fuel (read_record_head_buf rd fuel)
  unfolding read_record_head_buf
  read_record_head_buf-HeadBuf zero got r short lt = absurd (omega arith)
  read_record_head_buf-HeadBuf (suc fuel) got r short lt =
      head_next-HeadBuf fuel (read_record_head_buf rd fuel) (read_record_head_buf-HeadBuf fuel) got
        r _ _ (answers (v2_head_size - length got) r (omega arith)) short lt

append_cancel : (a b c : Bytes) → a ++ b ≡ a ++ c → b ≡ c
append_cancel [] b c e = e
append_cancel (x ∷ a) b c e = append_cancel a b c (ap tail_of e)
  where
    tail_of : Bytes → Bytes
    tail_of [] = []
    tail_of (y ∷ ys) = ys

head_of-format_head : (h : RecordHead) → InRange h → head_of (format_head h) ≡ ok (some h)
head_of-format_head h range =
    rw (length-format_head h range) (ap (map_ok some) (parse_head-format_head h range))

head_of_short :
    (b : Bytes)
    → length b < v2_head_size
    → head_of b ≡ (if length b == 0 then ok none else err (read_incomplete_rec_head (length b)))
head_of_short b short = rw (==_ne (length b) v2_head_size (omega arith)) refl

module _ {W : Type 0} (wr : Write W) where
  open wr use {write_all}

  accepted :
      (h : RecordHead) (w : W)
      → InRange h
      → write_record_head wr h w ≡ convert io (write_all (format_head h)) w
  unfolding write_record_head write_all_len
  accepted h w r =
      rw
        (
          le→leb h.len v2_max_record r.len,
          le→leb h.meta v2_max_hblock r.meta,
          le→leb h.req_h v2_max_hblock r.req_h,
          le→leb h.req_b v2_max_req_body r.req_b,
          le→leb h.res_h v2_max_hblock r.res_h,
        )
        (ground (arith, length-format_head h r))

  refused : (h : RecordHead) (w : W) → ¬ (InRange h) → write_record_head wr h w ≡ (panic, w)
  unfolding write_record_head
  refused h w r = ground arith

module _ {R : Type 0} (rd : Read R) (sv : Serves (λ _. ⊥) rd) where
  open sv use {view}

  head_result :
      (whole : Bytes) (res : Outcome BarcError Bytes) (r' : R)
      → HeadBuf (λ _. ⊥) whole (view r') res
      → let (out, r'') = continue res (λ buf. lift (head_of buf)) r' in
        (out ≡ head_of (take v2_head_size whole)) × (take v2_head_size whole ++ view r'' ≡ whole)
  head_result whole (ok buf) r' (e, j) = rw (← e) (refl, j)
  head_result whole (err (io e)) r' h = absurd h
  head_result whole (err _) r' h = absurd h
  head_result whole panic r' h = absurd h
  head_result whole hang r' h = absurd h

  -- From a reader that does not fail, with fuel for every call of `read`, `read_record_head` takes
  -- the first 54 bytes, or all if there are fewer, however the reader cuts them and however often
  -- it is interrupted, and answers by them alone.
  pub read_record_head_lem :
      (fuel : ℕ) (r : R)
      → reads_left sv r < fuel
      → let (out, r') = read_record_head rd fuel r in
        (out ≡ head_of (take v2_head_size (view r)))
        × (take v2_head_size (view r) ++ view r' ≡ view r)
  unfolding read_record_head
  read_record_head_lem fuel r lt =
      head_result (view r) _ _
        (read_record_head_buf-HeadBuf (λ _. ⊥) rd sv fuel [] r (omega arith) lt)

  -- The line of a head in the ranges that `write_record_head` asserts is read back by
  -- `read_record_head`, field by field, from the front of a stream that does not fail, with fuel
  -- for every call of `read`, and the reader then stands at what follows it.
  pub read-format_head :
      (fuel : ℕ) (h : RecordHead) (rest : Bytes) (r : R)
      → InRange h
      → view r ≡ format_head h ++ rest
      → reads_left sv r < fuel
      → let (out, r') = read_record_head rd fuel r in (out ≡ ok (some h)) × (view r' ≡ rest)
  read-format_head fuel h rest r range e lt =
      let line = length-format_head h range in
      let first : take v2_head_size (view r) ≡ format_head h =
        ap (take v2_head_size) e ∙ take_front v2_head_size (format_head h) rest line in
      let (a, j) = read_record_head_lem fuel r lt in
      (
        a ∙ ap head_of first ∙ head_of-format_head h range,
        append_cancel (format_head h) _ rest
            (ap (λ t. t ++ view (read_record_head rd fuel r).1) (sym first) ∙ j ∙ e),
      )

  -- From a reader that does not fail, with fuel for every call of `read`: at the end of the input
  -- there is no head, and a head that is cut short is an error that tells how many bytes there
  -- were.
  pub read_record_head_short :
      (fuel : ℕ) (r : R)
      → length (view r) < v2_head_size
      → reads_left sv r < fuel
      → (read_record_head rd fuel r).0 ≡ (
          if length (view r) == 0
          then ok none
          else err (read_incomplete_rec_head (length (view r))))
  read_record_head_short fuel r short lt =
      (read_record_head_lem fuel r lt).0
      ∙ ap head_of (take_all v2_head_size (view r) (omega arith))
      ∙ head_of_short (view r) short

module _ {W : Type 0} (wr : Write W) where
  open wr use {write_all}

  -- A head within the ranges that are asserted is written as its line, in one call of
  -- `write_all`, whose error is passed on; every other head stops the program before anything is
  -- written.
  pub write_record_head_lem :
      (h : RecordHead) (w : W)
      → write_record_head wr h w
        ≡ (if in_range h then convert io (write_all (format_head h)) w else (panic, w))
  write_record_head_lem h w = elim (Bool-cases (in_range h)) [
    | inl good ↦ rw good (accepted wr h w (in_range→InRange h good))
    | inr bad ↦ rw bad (refused wr h w (λ r. cc (bad, InRange→in_range h r)))
  ]
