-- ===== src/Image/Content.antt =====
-- What a sink and an image hold, and that the operations of the sink keep it.
use body_image.Common.{
  ℕ, suc, ◌+◌, ◌<◌, ◌^◌, ◌≡◌, refl, ◌≢◌, List, [], ◌∷◌, ◌++◌, length, concat, false, length-append,
  append-nil, append_assoc, concat-append, Done, Outcome, ok, err, panic, hang, arith, ltb, lt→ltb,
  if◌then◌else◌,
}
use body_image.Common.Exec.{continue}
use body_image.Io.{Bytes, IoError, File}
use body_image.Io.Laws.{EndsWith, Appended, file_write_all-Appended}
use body_image.Storage.{Storage}
use body_image.Image.Errors.{BodyError, io}
use body_image.Image.Sink.{
  SinkState, BodySink, append_to, written, push, write_all, write_each, write_back, write_back_to,
  written_back, cut_sink, is_ram,
}

-- The bytes of a sink in either state; a file stands at its end.
abbrev pub StateHolds : (IoError → Type 0) → SinkState → Bytes → Type 0
StateHolds P (SinkState.ram v) b = concat v ≡ b
StateHolds P (SinkState.fs_write f) b = EndsWith P f b

pub record Holds (P : IoError → Type 0) (s : BodySink) (b : Bytes) : Type 0 where
  pub state : StateHolds P s.state b
  pub len : s.len ≡ length b

-- How an operation that fails with an `IoError` leaves a sink.
abbrev pub Leaves : (IoError → Type 0) → Bytes → Outcome IoError Done → BodySink → Type 0
Leaves P b (ok _) s = Holds P s b
Leaves P b (err e) s = P e
Leaves P b panic s = ⊥
Leaves P b hang s = ⊥

module _ (P : IoError → Type 0) where
  written-Leaves :
      (r : Outcome IoError Done) (f : File) (s : BodySink) (pre b : Bytes)
      → s.len ≡ length pre
      → length pre + length b < 2 ^ 64
      → Appended P (pre ++ b) r f
      → let (r', s') = written (length b) (r, f) s in Leaves P (pre ++ b) r' s'
  written-Leaves (ok _) f s pre b e fits h = record {
    state = h;
    len = omega (arith, length-append pre b);
  }
  written-Leaves (err e) f s pre b l fits h = h
  written-Leaves panic f s pre b l fits h = h
  written-Leaves hang f s pre b l fits h = h

  append_to-Leaves :
      (t : SinkState) (s : BodySink) (pre b : Bytes)
      → StateHolds P t pre
      → s.len ≡ length pre
      → length pre + length b < 2 ^ 64
      → let (r, s') = append_to t b s in Leaves P (pre ++ b) r s'
  append_to-Leaves (SinkState.ram v) s pre b h l fits = record {
    state = rw (concat-append v (b ∷ []), append-nil b, h);
    len = omega (arith, length-append pre b);
  }
  append_to-Leaves (SinkState.fs_write f) s pre b h l fits =
      written-Leaves _ _ s pre b l fits (file_write_all-Appended P b pre f h)

  -- An empty buffer is not appended: the sink stays as it is.
  unless_empty :
      (b pre : Bytes) (s : BodySink)
      → Holds P s pre
      → length pre + length b < 2 ^ 64
      → let (r, s') = if ltb 0 (length b) then append_to s.state b s else (ok tt, s) in
        Leaves P (pre ++ b) r s'
  unless_empty [] pre s h fits = rw append-nil h
  unless_empty (x ∷ b) pre s h fits =
      rw (lt→ltb 0 (suc (length b)) (omega arith))
        (append_to-Leaves s.state s pre (x ∷ b) h.state h.len fits)

  -- For a sink that holds its bytes, in RAM or in a file at its end, and a new length that fits a
  -- `u64`: after a `push` that succeeds, the sink holds its bytes with the new ones behind them,
  -- and their number as its length. `push` fails only by an error of the file.
  pub push-Leaves :
      (b pre : Bytes) (s : BodySink)
      → Holds P s pre
      → length pre + length b < 2 ^ 64
      → let (r, s') = push b s in Leaves P (pre ++ b) r s'
  unfolding push
  push-Leaves = unless_empty

  pub write_all-Leaves :
      (b pre : Bytes) (s : BodySink)
      → Holds P s pre
      → length pre + length b < 2 ^ 64
      → let (r, s') = write_all b s in Leaves P (pre ++ b) r s'
  unfolding write_all
  write_all-Leaves = unless_empty

  write_each_next :
      (v : List Bytes) (c : Bytes) (b : Bytes) (r : Outcome IoError Done) (f : File)
      → Appended P (c ++ b) r f
      → ((f' : File) (c' : Bytes)
          → EndsWith P f' c'
          → let (r', g) = write_each v f' in Appended P (c' ++ concat v) r' g)
      → let (r', g) = continue r (λ _. write_each v) f in Appended P (c ++ (b ++ concat v)) r' g
  write_each_next v c b (ok _) f h ih = rw (← append_assoc c b (concat v)) (ih f (c ++ b) h)
  write_each_next v c b (err e) f h ih = h
  write_each_next v c b panic f h ih = h
  write_each_next v c b hang f h ih = h

  -- The buffers are appended to the file in their order.
  pub write_each-Appended :
      (v : List Bytes) (c : Bytes) (f : File)
      → EndsWith P f c
      → let (r, f') = write_each v f in Appended P (c ++ concat v) r f'
  unfolding write_each
  write_each-Appended [] c f h = rw append-nil h
  write_each-Appended (b ∷ v) c f h =
      write_each_next v c b _ _ (file_write_all-Appended P b c f h)
        (λ f' c' h'. write_each-Appended v c' f' h')

-- `tempfile_in` gives a new, empty file, or an error of `P`; the faults of the file are of `P`.
pub record MakesFiles (P : IoError → Type 0) (st : Storage) : Type 0 where
  pub made : (dir : Bytes) (f : File) → st.tempfile_in dir ≡ ok f → EndsWith P f []
  pub refused : (dir : Bytes) (e : IoError) → st.tempfile_in dir ≡ err e → P e
  pub returns : (dir : Bytes) → (st.tempfile_in dir ≢ panic) × (st.tempfile_in dir ≢ hang)

-- How `write_back` and `with_fs` leave a sink: in the file, or cut to the empty sink.
abbrev pub InFile : (IoError → Type 0) → Bytes → Outcome BodyError Done → BodySink → Type 0
InFile P b (ok _) s = Holds P s b × (is_ram s ≡ false)
InFile P b (err (io e)) s = P e × (s ≡ cut_sink)
InFile P b (err _) s = ⊥
InFile P b panic s = ⊥
InFile P b hang s = ⊥

module _ (P : IoError → Type 0) where
  written_back-InFile :
      (b : Bytes) (r : Outcome IoError Done) (f : File)
      → Appended P b r f
      → let (r', s') = written_back (length b) (r, f) in InFile P b r' s'
  unfolding is_ram
  written_back-InFile b (ok _) f h = (record { state = h; len = refl }, refl)
  written_back-InFile b (err e) f h = (h, refl)
  written_back-InFile b panic f h = h
  written_back-InFile b hang f h = h

  write_back_to-InFile :
      (t : Outcome IoError File) (v : List Bytes)
      → ((f : File) → t ≡ ok f → EndsWith P f [])
      → ((e : IoError) → t ≡ err e → P e)
      → (t ≢ panic) × (t ≢ hang)
      → let (r, s') = write_back_to (length (concat v)) t v in InFile P (concat v) r s'
  write_back_to-InFile (ok f) v made refused returns =
      written_back-InFile (concat v) _ _ (write_each-Appended P v [] f (made f refl))
  write_back_to-InFile (err e) v made refused returns = (refused e refl, refl)
  write_back_to-InFile panic v made refused returns = absurd (returns.0 refl)
  write_back_to-InFile hang v made refused returns = absurd (returns.1 refl)

  write_back_state :
      ⦃st : Storage⦄ (dir : Bytes) (t : SinkState) (n : ℕ) (b : Bytes)
      → MakesFiles P st
      → Holds P (record { state = t; len = n }) b
      → let (r, s') = write_back dir (record { state = t; len = n }) in InFile P b r s'
  unfolding write_back is_ram
  write_back_state ⦃st⦄ dir (SinkState.ram v) n b m h =
      rw (h.len, ← h.state)
        (write_back_to-InFile (st.tempfile_in dir) v (m.made dir) (m.refused dir) (m.returns dir))
  write_back_state dir (SinkState.fs_write f) n b m h = (h, refl)

  -- If `tempfile_in` gives new, empty files, `write_back` brings every sink, from either state,
  -- into the file state with the bytes that it held; if it fails, the error is one of the file
  -- system and the sink is empty, in RAM.
  pub write_back-InFile :
      ⦃st : Storage⦄ (dir : Bytes) (s : BodySink) (b : Bytes)
      → MakesFiles P st
      → Holds P s b
      → let (r, s') = write_back dir s in InFile P b r s'
  write_back-InFile dir s b m h = write_back_state dir s.state s.len b m h
