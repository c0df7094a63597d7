-- ===== src/Image/ReadFrom/Steps.antt =====
-- One call of `read`, and the two loops of `read_from`, against the bytes that the reader serves.
use body_image.Common.{
  ◌∙◌, ltb→lt, ltb-false→le, ℕ, zero, suc, ◌+◌, ◌^◌, ◌≤◌, ◌<◌, ◌≡◌, refl, [], ◌∷◌, ◌++◌, length,
  length-append, append-nil, append_assoc, Done, Outcome, ok, err, panic, hang, arith, ltb, u64,
  Bool-cases, inl, inr, ap,
}
use body_image.Io.{Bytes, IoError, interrupted, unexpected_eof, invalid_input, other, Read}
use body_image.Io.Laws.{Answers, Serves, reads_left}
use body_image.Storage.{Storage}
use body_image.Image.Errors.{BodyError, io, body_too_long, future_proof}
use body_image.Image.Sink.{BodySink}
use body_image.Image.State.{BodyImage, prepare}
use body_image.Image.Tune.{Tunables}
use body_image.Image.Content.{Holds, Leaves, write_all-Leaves}
use body_image.Image.Prepared.{ImageHolds, Prepared, prepare-Prepared}
use body_image.Image.ReadFrom.{after, fs_next, fs_loop}

-- What the program relies on of `bytes::BytesMut`.
pub record BufferLaws (st : Storage) : Type 0 where
  pub fresh : (n : ℕ) → st.buf_bytes (st.with_capacity n) ≡ []
  pub fills : (b : Bytes) (x : st.BytesMut) → st.buf_bytes (st.put b x) ≡ st.buf_bytes x ++ b
  pub cleared : (x : st.BytesMut) → st.buf_bytes (st.clear x) ≡ []
  pub room : (x : st.BytesMut) → 0 < st.chunk_len x

-- The image of `whole`, of at most `bound` bytes; or an error that `max_body` or `P` explains.
abbrev pub Reads :
    ⦃st : Storage⦄
    → (IoError → Type 0)
    → (max_body bound : ℕ) → Bytes
    → Outcome BodyError BodyImage
    → Type 0
Reads P max bound whole (ok i) = ImageHolds i whole × (length whole ≤ bound)
Reads P max bound whole (err (body_too_long n)) = max < length whole
Reads P max bound whole (err (io e)) = P e
Reads P max bound whole (err future_proof) = ⊥
Reads P max bound whole panic = ⊥
Reads P max bound whole hang = ⊥

module _ (P : IoError → Type 0) ⦃st : Storage⦄ where
  Prepared→Reads :
      (max bound : ℕ) (b : Bytes) (r : Outcome BodyError BodyImage)
      → length b ≤ bound
      → Prepared P b r
      → Reads P max bound b r
  Prepared→Reads max bound b (ok i) le h = (h, le)
  Prepared→Reads max bound b (err (io e)) le h = h
  Prepared→Reads max bound b (err (body_too_long n)) le h = absurd h
  Prepared→Reads max bound b (err future_proof) le h = h
  Prepared→Reads max bound b panic le h = h
  Prepared→Reads max bound b hang le h = h

  pub Reads-mono :
      (max bound bound' : ℕ) (b : Bytes) (r : Outcome BodyError BodyImage)
      → bound ≤ bound'
      → Reads P max bound b r
      → Reads P max bound' b r
  Reads-mono max bound bound' b (ok i) le h = (h.0, omega arith)
  Reads-mono max bound bound' b (err (io e)) le h = h
  Reads-mono max bound bound' b (err (body_too_long n)) le h = h
  Reads-mono max bound bound' b (err future_proof) le h = h
  Reads-mono max bound bound' b panic le h = h
  Reads-mono max bound bound' b hang le h = h

  -- The sink is prepared at the end of the input.
  pub prepare-Reads :
      (max bound : ℕ) (body : BodySink) (pre : Bytes)
      → Holds P body pre
      → length pre ≤ bound
      → Reads P max bound pre (prepare body)
  prepare-Reads max bound body pre h le =
      Prepared→Reads max bound pre _ le (prepare-Prepared P body pre h)

  -- Going on with the sink that a call left.
  pub after-Reads :
      (max bound : ℕ) (whole b : Bytes) (r : Outcome IoError Done) (s : BodySink)
      (k : BodySink → Outcome BodyError BodyImage)
      → Leaves P b r s
      → (Holds P s b → Reads P max bound whole (k s))
      → Reads P max bound whole (after (r, s) k)
  after-Reads max bound whole b (ok _) s k h go = go h
  after-Reads max bound whole b (err e) s k h go = h
  after-Reads max bound whole b panic s k h go = h
  after-Reads max bound whole b hang s k h go = h

module _ (P : IoError → Type 0) ⦃st : Storage⦄ (bl : BufferLaws st) {R : Type 0} (rd : Read R)
    (sv : Serves P rd) (tune : Tunables) where
  open st use {BytesMut, chunk_len, buf_bytes, put}
  open sv use {view, waits, answers}

  -- What the loop of `read_to_body_fs` promises for a number of reads that are left.
  abbrev FsGood : ℕ → (ℕ → BytesMut → BodySink → R → Outcome BodyError BodyImage) → Type 0
  FsGood fuel go =
      (size : ℕ) (buf : BytesMut) (body : BodySink) (r : R) (pre : Bytes) (bound : ℕ)
      → reads_left sv r < fuel
      → buf_bytes buf ≡ []
      → Holds P body pre
      → size ≤ tune.max_body
      → size ≤ length pre
      → length pre + length (view r) < 2 ^ 64
      → length pre + tune.max_body ≡ bound + size
      → Reads P tune.max_body bound (pre ++ view r) (go size buf body r)

  fs_next-Reads :
      (fuel : ℕ) (go : ℕ → BytesMut → BodySink → R → Outcome BodyError BodyImage)
      → FsGood fuel go
      → (size n : ℕ) (buf : BytesMut) (body : BodySink) (r : R) (pre : Bytes) (bound : ℕ)
        (res : Outcome IoError Bytes) (r' : R)
      → Answers P view waits n r res r'
      → reads_left sv r < suc fuel
      → buf_bytes buf ≡ []
      → Holds P body pre
      → size ≤ tune.max_body
      → size ≤ length pre
      → length pre + length (view r) < 2 ^ 64
      → length pre + tune.max_body ≡ bound + size
      → Reads P tune.max_body bound (pre ++ view r) (fs_next rd tune go size buf body res r')
  fs_next-Reads fuel go good size n buf body r pre bound (ok []) r' a lt eb h le le' fits eq =
      rw (a.2 refl, append-nil pre) (prepare-Reads P _ _ body pre h (omega arith))
  fs_next-Reads fuel go good size n buf body r pre bound (ok (b ∷ bs)) r' a lt eb h le le' fits eq =
      let c : Bytes = b ∷ bs in
      let split : length (view r) ≡ length c + length (view r') =
        ap length a.0 ∙ length-append c (view r') in
      let held : buf_bytes (put c buf) ≡ c = bl.fills c buf ∙ ap (λ t. t ++ c) eb in
      let size' : ℕ = u64 (size + length c) in
      elim (Bool-cases (ltb tune.max_body size')) [
        | inl over ↦
            rw over (omega (arith, length-append pre (view r), ltb→lt tune.max_body size' over))
        | inr under ↦
            rw (under, held, a.0, ← append_assoc pre c (view r'))
              (after-Reads P tune.max_body bound ((pre ++ c) ++ view r') (pre ++ c) _ _ _
                (write_all-Leaves P c pre body h (omega arith))
                (λ h'.
                  good size' (st.clear (put c buf)) _ r' (pre ++ c) bound (omega arith)
                    (bl.cleared (put c buf)) h' (ltb-false→le tune.max_body size' under)
                    (omega (arith, length-append pre c)) (omega (arith, length-append pre c))
                    (omega (arith, length-append pre c))))
      ]
  fs_next-Reads fuel go good size n buf body r pre bound (err interrupted) r' a lt eb h le le' fits
        eq =
      rw (← a.0) (
        good size buf body r' pre bound (omega (arith, ap length a.0)) eb h le le'
          (omega (arith, ap length a.0)) eq)
  fs_next-Reads fuel go good size n buf body r pre bound (err unexpected_eof) r' a lt eb h le le'
        fits eq =
      a
  fs_next-Reads fuel go good size n buf body r pre bound (err invalid_input) r' a lt eb h le le'
        fits eq =
      a
  fs_next-Reads fuel go good size n buf body r pre bound (err (other c)) r' a lt eb h le le' fits
        eq =
      a
  fs_next-Reads fuel go good size n buf body r pre bound panic r' a lt eb h le le' fits eq = a
  fs_next-Reads fuel go good size n buf body r pre bound hang r' a lt eb h le le' fits eq = a

  -- From any round on, the loop of `read_to_body_fs` ends, and the image holds all that the sink
  -- held and all that was still to be read.
  pub fs_loop-Reads : (fuel : ℕ) → FsGood fuel (fs_loop rd tune fuel)
  unfolding fs_loop
  fs_loop-Reads zero size buf body r pre bound lt eb h le le' fits eq = absurd (omega arith)
  fs_loop-Reads (suc fuel) size buf body r pre bound lt eb h le le' fits eq =
      fs_next-Reads fuel (fs_loop rd tune fuel) (fs_loop-Reads fuel) size (chunk_len buf) buf body r
        pre bound _ _ (answers (chunk_len buf) r (bl.room buf)) lt eb h le le' fits eq
