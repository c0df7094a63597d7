-- ===== src/Image/ReadFrom/Whole.antt =====
-- `read_from` returns all that the reader serves, within the limits.
use body_image.Common.{
  ℕ, zero, suc, ◌+◌, ◌^◌, ◌≤◌, ◌<◌, ◌≡◌, refl, sym, ◌≢◌, [], ◌++◌, length, false, length-append,
  append-nil, append_assoc, Done, Outcome, ok, err, panic, hang, arith, ltb, ltb→lt, ltb-false→le,
  ◌==◌, u64, nil_of_length, ==→eq, ==_false→pos, Bool-cases, inl, inr, ap, ◌∙◌,
}
use body_image.Io.{Bytes, IoError, Read, File}
use body_image.Io.Laws.{EndsWith, Serves, reads_left}
use body_image.Storage.{Storage}
use body_image.Image.Errors.{BodyError, io, body_too_long, future_proof}
use body_image.Image.Sink.{BodySink, is_ram, sink_in, with_fs, with_ram}
use body_image.Image.State.{BodyImage}
use body_image.Image.Tune.{Tunables}
use body_image.Image.Prepared.{ImageHolds}
use body_image.Image.Content.{
  Holds, InFile, MakesFiles, push-Leaves, write_all-Leaves, write_back-InFile,
}
use body_image.Image.ReadFrom.{
  read_to_body_fs, spill, spill_next, eof_next, eof_loop, with_fs_next, read_from,
}
use body_image.Image.ReadFrom.Steps.{
  BufferLaws, Reads, Reads-mono, prepare-Reads, after-Reads, fs_loop-Reads,
}
use body_image.Image.ReadFrom.Fill.{write_all-is_ram, Filled, fill-Filled}

module _ (P : IoError → Type 0) ⦃st : Storage⦄ (bl : BufferLaws st) {R : Type 0} (rd : Read R)
    (sv : Serves P rd) (tune : Tunables) where
  open st use {BytesMut, chunk_len, buf_bytes, put, remaining_mut, with_capacity}
  open sv use {view, waits, answers}

  -- A sink in the file state, and the rest of the input.
  read_to_body_fs-Reads :
      (fuel : ℕ) (body : BodySink) (r : R) (pre : Bytes)
      → is_ram body ≡ false
      → Holds P body pre
      → reads_left sv r < fuel
      → length pre + length (view r) < 2 ^ 64
      → Reads P tune.max_body
          (length pre + tune.max_body)
          (pre ++ view r)
          (read_to_body_fs rd tune fuel body r)
  unfolding read_to_body_fs
  read_to_body_fs-Reads fuel body r pre file h lt fits = rw file (
      fs_loop-Reads P bl rd sv tune fuel 0 _ body r pre _ lt (bl.fresh tune.buffer_size_fs) h
        (omega arith) (omega arith) fits (omega arith))

  spill_next-Reads :
      (fuel : ℕ) (b pre : Bytes) (done : Outcome BodyError Done) (body : BodySink) (r : R)
      → InFile P pre done body
      → reads_left sv r < fuel
      → length pre + length b + length (view r) < 2 ^ 64
      → Reads P tune.max_body
          (length pre + length b + tune.max_body)
          ((pre ++ b) ++ view r)
          (spill_next rd tune fuel b done body r)
  spill_next-Reads fuel b pre (ok _) body r h lt fits =
      after-Reads P tune.max_body _ _ (pre ++ b) _ _ _
        (write_all-Leaves P b pre body h.0 (omega arith))
        λ h'. rw (← length-append pre b) (
          read_to_body_fs-Reads fuel _ r (pre ++ b) (write_all-is_ram b body h.1) h' lt
            (omega (arith, length-append pre b)))
  spill_next-Reads fuel b pre (err (io e)) body r h lt fits = h.0
  spill_next-Reads fuel b pre (err (body_too_long n)) body r h lt fits = absurd h
  spill_next-Reads fuel b pre (err future_proof) body r h lt fits = h
  spill_next-Reads fuel b pre panic body r h lt fits = h
  spill_next-Reads fuel b pre hang body r h lt fits = h

  module _ (mf : MakesFiles P st) where
    spill-Reads :
        (fuel : ℕ) (b pre : Bytes) (body : BodySink) (r : R)
        → Holds P body pre
        → reads_left sv r < fuel
        → length pre + length b + length (view r) < 2 ^ 64
        → Reads P tune.max_body
            (length pre + length b + tune.max_body)
            ((pre ++ b) ++ view r)
            (spill rd tune fuel b body r)
    unfolding spill
    spill-Reads fuel b pre body r h lt fits =
        spill_next-Reads fuel b pre _ _ r (write_back-InFile P tune.temp_dir body pre mf h) lt fits

    abbrev EofGood : ℕ → (ℕ → BodySink → R → Outcome BodyError BodyImage) → Type 0
    EofGood fuel go =
        (size : ℕ) (body : BodySink) (r : R) (pre : Bytes)
        → reads_left sv r + 1 < fuel
        → Holds P body pre
        → size ≡ length pre
        → size ≤ tune.max_body
        → length pre + length (view r) < 2 ^ 64
        → Reads P tune.max_body (tune.max_body + tune.max_body) (pre ++ view r) (go size body r)

    eof_next-Reads :
        (fuel : ℕ) (go : ℕ → BodySink → R → Outcome BodyError BodyImage)
        → EofGood fuel go
        → (size : ℕ) (body : BodySink) (r : R) (pre : Bytes) (res : Outcome BodyError BytesMut)
          (r' : R)
        → Filled P bl rd sv tune (waits r) (view r) res r'
        → reads_left sv r + 1 < suc fuel
        → Holds P body pre
        → size ≡ length pre
        → size ≤ tune.max_body
        → length pre + length (view r) < 2 ^ 64
        → Reads P tune.max_body
            (tune.max_body + tune.max_body)
            (pre ++ view r)
            (eof_next rd tune go (spill rd tune fuel) size body res r')
    eof_next-Reads fuel go good size body r pre (ok buf) r' a lt h eq le fits =
        let b : Bytes = buf_bytes buf in
        let split : length (view r) ≡ length b + length (view r') =
          ap length a.0 ∙ length-append b (view r') in
        let size' : ℕ = u64 (size + length b) in
        let held : pre ++ view r ≡ (pre ++ b) ++ view r' =
          ap (λ t. pre ++ t) a.0 ∙ sym (append_assoc pre b (view r')) in
        elim (Bool-cases (length b == 0)) [
          | inl end ↦
              (let nothing : view r ≡ [] =
                  nil_of_length (view r)
                    (omega (arith, split, ==→eq _ _ end, ap length (a.2 (==→eq _ _ end)))) in
                rw (end, nothing, append-nil pre) (prepare-Reads P _ _ body pre h (omega arith)))
          | inr some_read ↦ rw some_read (elim (Bool-cases (ltb tune.max_body size')) [
            | inl over ↦
                rw over (omega (arith, length-append pre (view r), ltb→lt tune.max_body size' over))
            | inr under ↦ rw under (elim (Bool-cases (ltb tune.max_body_ram size')) [
              | inl big ↦
                  rw (big, held)
                    (Reads-mono P tune.max_body _ _ _ _
                      (omega (arith, ltb-false→le tune.max_body size' under))
                      (spill-Reads fuel b pre body r' h
                        (omega (arith, split, ==_false→pos _ some_read)) (omega (arith, split))))
              | inr small ↦
                  rw (small, held)
                    (after-Reads P tune.max_body _ _ (pre ++ b) _ _ _
                      (push-Leaves P b pre body h (omega (arith, split)))
                      (λ h'.
                        good size' _ r' (pre ++ b) (omega (arith, split, ==_false→pos _ some_read))
                          h' (omega (arith, split, length-append pre b))
                          (ltb-false→le tune.max_body size' under)
                          (omega (arith, split, length-append pre b))))
            ])
          ])
        ]
    eof_next-Reads fuel go good size body r pre (err (io e)) r' a lt h eq le fits = a
    eof_next-Reads fuel go good size body r pre (err (body_too_long n)) r' a lt h eq le fits =
        absurd a
    eof_next-Reads fuel go good size body r pre (err future_proof) r' a lt h eq le fits = a
    eof_next-Reads fuel go good size body r pre panic r' a lt h eq le fits = a
    eof_next-Reads fuel go good size body r pre hang r' a lt h eq le fits = a

    eof_loop-Reads : (fuel : ℕ) → EofGood fuel (eof_loop rd tune fuel)
    unfolding eof_loop
    eof_loop-Reads zero size body r pre lt h eq le fits = absurd (omega arith)
    eof_loop-Reads (suc fuel) size body r pre lt h eq le fits =
        eof_next-Reads fuel (eof_loop rd tune fuel) (eof_loop-Reads fuel) size body r pre _ _
          (rw (bl.fresh tune.buffer_size_ram) at (
            fill-Filled P bl rd sv tune fuel (with_capacity tune.buffer_size_ram) r (waits r)
              (omega arith) (omega arith)))
          lt h eq le fits

    with_fs_next-Reads :
        (fuel : ℕ) (made : Outcome IoError File) (r : R)
        → ((f : File) → made ≡ ok f → EndsWith P f [])
        → ((e : IoError) → made ≡ err e → P e)
        → (made ≢ panic) × (made ≢ hang)
        → reads_left sv r < fuel
        → length (view r) < 2 ^ 64
        → Reads P tune.max_body tune.max_body (view r) (with_fs_next rd tune fuel (sink_in made) r)
    with_fs_next-Reads fuel (ok f) r made refused returns lt fits =
        Reads-mono P tune.max_body _ _ _ _ (omega arith) (
          read_to_body_fs-Reads fuel _ r [] (unfold is_ram in refl)
            (record { state = made f refl; len = refl }) lt (omega arith))
    with_fs_next-Reads fuel (err e) r made refused returns lt fits = refused e refl
    with_fs_next-Reads fuel panic r made refused returns lt fits = absurd (returns.0 refl)
    with_fs_next-Reads fuel hang r made refused returns lt fits = absurd (returns.1 refl)

    with_ram-Holds : (n : ℕ) → Holds P (with_ram n) []
    unfolding with_ram
    with_ram-Holds n = elim (Bool-cases (n == 0)) [
      | inl z ↦ rw z (record { state = refl; len = refl })
      | inr nz ↦ rw nz (record { state = refl; len = refl })
    ]

    -- For an input of less than 2 ^ 64 bytes and fuel for every call of `read` that the reader can
    -- still answer, `read_from` ends and does not panic. An image that it returns holds exactly
    -- the bytes that the reader served, has their number as its length, and is at most twice
    -- `max_body` long. It reports `BodyTooLong` only of an input longer than `max_body`, and any
    -- other error is one of the reader or the file system.
    pub read_from-Reads :
        (fuel len_estimate : ℕ) (r : R)
        → reads_left sv r + 1 < fuel
        → length (view r) < 2 ^ 64
        → Reads P tune.max_body
            (tune.max_body + tune.max_body)
            (view r)
            (read_from rd tune fuel len_estimate r)
    unfolding read_from with_fs
    read_from-Reads fuel len_estimate r lt fits =
        elim (Bool-cases (ltb tune.max_body_ram len_estimate)) [
          | inl large ↦ rw large (
              Reads-mono P tune.max_body _ _ _ _ (omega arith) (
                with_fs_next-Reads fuel (st.tempfile_in tune.temp_dir) r (mf.made tune.temp_dir)
                  (mf.refused tune.temp_dir) (mf.returns tune.temp_dir) (omega arith) fits))
          | inr small ↦ rw small (
              eof_loop-Reads fuel 0 _ r [] lt (with_ram-Holds len_estimate) refl (omega arith)
                (omega arith))
        ]

-- What `Reads` says where no error is possible but the limit.
Reads-complete :
    ⦃st : Storage⦄ (max bound : ℕ) (whole : Bytes) (r : Outcome BodyError BodyImage)
    → length whole ≤ max
    → Reads (λ _. ⊥) max bound whole r
    → (i : BodyImage) × (r ≡ ok i) × ImageHolds i whole
Reads-complete max bound whole (ok i) le h = (i, refl, h.0)
Reads-complete max bound whole (err (io e)) le h = absurd h
Reads-complete max bound whole (err (body_too_long n)) le h = absurd (omega arith)
Reads-complete max bound whole (err future_proof) le h = absurd h
Reads-complete max bound whole panic le h = absurd h
Reads-complete max bound whole hang le h = absurd h

-- If neither the reader nor the file system fails, and there is fuel for every call of `read`,
-- every input of at most `max_body` and less than 2 ^ 64 bytes is read whole: `read_from` returns
-- an image with its bytes and its length, whatever the estimate was, however the reader cuts the
-- input, and however often it is interrupted.
pub read_from_complete :
    ⦃st : Storage⦄ (bl : BufferLaws st) {R : Type 0} (rd : Read R) (sv : Serves (λ _. ⊥) rd)
    (tune : Tunables)
    → MakesFiles (λ _. ⊥) st
    → (fuel len_estimate : ℕ) (r : R) → reads_left sv r + 1 < fuel
    → length (sv.view r) < 2 ^ 64
    → length (sv.view r) ≤ tune.max_body
    → (i : BodyImage) × (read_from rd tune fuel len_estimate r ≡ ok i) × ImageHolds i (sv.view r)
read_from_complete bl rd sv tune mf fuel len_estimate r lt fits le =
    Reads-complete tune.max_body _ (sv.view r) _ le
      (read_from-Reads (λ _. ⊥) bl rd sv tune mf fuel len_estimate r lt fits)
