-- ===== src/Image/ReadFrom/Fill.antt =====
-- `fill` takes what the reader serves until its buffer is full enough, and sinks in files stay there.
use body_image.Common.{
  ℕ, zero, suc, ◌≤◌, ◌<◌, ◌≡◌, refl, sym, [], ◌∷◌, ◌++◌, length, false, length-append, append_assoc,
  Done, Outcome, ok, err, panic, hang, arith, ltb, lt→ltb, Bool-cases, inl, inr, ap, ◌∙◌,
}
use body_image.Io.{Bytes, IoError, interrupted, unexpected_eof, invalid_input, other, Read, File}
use body_image.Io.Laws.{Answers, Serves, reads_left}
use body_image.Storage.{Storage}
use body_image.Image.Errors.{BodyError, io, body_too_long, future_proof}
use body_image.Image.Sink.{SinkState, BodySink, write_all, append_to, written, is_ram}
use body_image.Image.Tune.{Tunables}
use body_image.Image.ReadFrom.{fill, fill_next}
use body_image.Image.ReadFrom.Steps.{BufferLaws}

written-is_ram :
    (n : ℕ) (r : Outcome IoError Done × File) (s : BodySink) → is_ram (written n r s).1 ≡ false
unfolding is_ram
written-is_ram n (ok _, f) s = refl
written-is_ram n (err _, f) s = refl
written-is_ram n (panic, f) s = refl
written-is_ram n (hang, f) s = refl

append_to-is_ram :
    (t : SinkState) (b : Bytes) (n : ℕ)
    → is_ram (record { state = t; len = n }) ≡ false
    → is_ram (append_to t b (record { state = t; len = n })).1 ≡ false
unfolding is_ram
append_to-is_ram (SinkState.ram v) b n h = cc
append_to-is_ram (SinkState.fs_write f) b n h = written-is_ram (length b) _ _

-- A sink in the file state stays there.
pub write_all-is_ram :
    (b : Bytes) (s : BodySink) → is_ram s ≡ false → is_ram (write_all b s).1 ≡ false
unfolding write_all
write_all-is_ram [] s h = h
write_all-is_ram (x ∷ b) s h =
    rw (lt→ltb 0 (suc (length b)) (omega arith)) (append_to-is_ram s.state (x ∷ b) s.len h)

module _ (P : IoError → Type 0) ⦃st : Storage⦄ (bl : BufferLaws st) {R : Type 0} (rd : Read R)
    (sv : Serves P rd) (tune : Tunables) where
  open st use {BytesMut, chunk_len, buf_bytes, put, remaining_mut, with_capacity}
  open sv use {view, waits, answers}

  -- How `fill` leaves its buffer and the reader, of the bytes `whole` in both.
  abbrev pub Filled : ℕ → Bytes → Outcome BodyError BytesMut → R → Type 0
  Filled w whole (ok buf) r =
      (whole ≡ buf_bytes buf ++ view r) × (waits r ≤ w) × (length (buf_bytes buf) ≡ 0 → view r ≡ [])
  Filled w whole (err (io e)) r = P e
  Filled w whole (err (body_too_long n)) r = ⊥
  Filled w whole (err future_proof) r = ⊥
  Filled w whole panic r = ⊥
  Filled w whole hang r = ⊥

  abbrev pub FillGood : ℕ → (BytesMut → R → Outcome BodyError BytesMut × R) → Type 0
  FillGood fuel go =
      (buf : BytesMut) (r : R) (w : ℕ)
      → reads_left sv r < fuel
      → waits r ≤ w
      → let (res, r') = go buf r in Filled w (buf_bytes buf ++ view r) res r'

  fill_next-Filled :
      (fuel : ℕ) (go : BytesMut → R → Outcome BodyError BytesMut × R)
      → FillGood fuel go
      → (n : ℕ) (buf : BytesMut) (r : R) (w : ℕ) (res : Outcome IoError Bytes) (r' : R)
      → Answers P view waits n r res r'
      → reads_left sv r < suc fuel
      → waits r ≤ w
      → let (res', r'') = fill_next rd tune go buf res r' in
        Filled w (buf_bytes buf ++ view r) res' r''
  fill_next-Filled fuel go good n buf r w (ok []) r' a lt le =
      (ap (λ t. buf_bytes buf ++ t) a.0, omega arith, λ _. sym a.0 ∙ a.2 refl)
  fill_next-Filled fuel go good n buf r w (ok (b ∷ bs)) r' a lt le =
      let c : Bytes = b ∷ bs in
      let more : buf_bytes buf ++ view r ≡ buf_bytes (put c buf) ++ view r' =
        rw (a.0, bl.fills c buf, append_assoc (buf_bytes buf) c (view r')) refl in
      elim (Bool-cases (ltb (remaining_mut (put c buf)) 1024)) [
        | inl full ↦ rw full (
          more,
          omega arith,
          λ z. absurd (omega (arith, ap length (bl.fills c buf), length-append (buf_bytes buf) c)),
        )
        | inr free ↦
            rw (free, more)
              (good (put c buf) r' w (omega (arith, ap length a.0, length-append c (view r')))
                (omega arith))
      ]
  fill_next-Filled fuel go good n buf r w (err interrupted) r' a lt le =
      rw (← a.0) (good buf r' w (omega (arith, ap length a.0)) (omega arith))
  fill_next-Filled fuel go good n buf r w (err unexpected_eof) r' a lt le = a
  fill_next-Filled fuel go good n buf r w (err invalid_input) r' a lt le = a
  fill_next-Filled fuel go good n buf r w (err (other c)) r' a lt le = a
  fill_next-Filled fuel go good n buf r w panic r' a lt le = a
  fill_next-Filled fuel go good n buf r w hang r' a lt le = a

  pub fill-Filled : (fuel : ℕ) → FillGood fuel (fill rd tune fuel)
  unfolding fill
  fill-Filled zero buf r w lt le = absurd (omega arith)
  fill-Filled (suc fuel) buf r w lt le =
      fill_next-Filled fuel (fill rd tune fuel) (fill-Filled fuel) (chunk_len buf) buf r w _ _
        (answers (chunk_len buf) r (bl.room buf)) lt le
