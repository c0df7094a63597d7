-- ===== src/Futio/Stream/Whole.antt =====
-- A stream over a prepared image, polled again and again.
use body_image.Common.{
  ℕ, ◌<◌, ◌^◌, ◌+◌, ◌≡◌, refl, sym, ap, ◌∙◌, ◌↔◌, [], ◌++◌, length, length-append, append_assoc,
  append-nil, take, take_all, Bool, true, false, leb→le, le→leb, Option, none, some, Outcome, ok,
  err, panic, hang, arith, nil_of_length,
}
use mathlib.Core.Path.{subst}
use body_image.Io.{Bytes, IoError, File}
use body_image.Io.Laws.{Serves}
use body_image.Storage.{Storage}
use body_image.Image.{ImageState, BodyImage, explode, explode_state}
use body_image.Image.Prepared.{ImageHolds, ImageStateHolds}
use body_image.Futio.Crates.{Runtime, Poll, ready, pending}
use body_image.Futio.Arbiter.{BlockingArbiter}
use body_image.Futio.Tune.{FutioTunables}
use body_image.Futio.Buf.{OutputBuf}
use body_image.Futio.Buf.Outputs.{OutputLaws}
use body_image.Futio.Stream.{AsyncBodyImage, stream_state, new_stream, poll_impl, is_end_stream}
use body_image.Futio.Stream.Gives.{StateLeft, Left, Gives, poll-Gives}

module _ ⦃st : Storage⦄ ⦃rt : Runtime⦄ (B : Type 0) {BA : Type 0} ⦃ob : OutputBuf B⦄
    ⦃ba : BlockingArbiter BA⦄ (fuel : ℕ) where
  -- `Yields s given s'`: polls that did not fail lead from `s` to `s'`, and `given` is what their
  -- items hold.
  pub data Yields (s : AsyncBodyImage BA) : Bytes → AsyncBodyImage BA → Type 0 where
    at_start : Yields s [] s
    an_item :
        {given : Bytes} {s' s'' : AsyncBodyImage BA} (x : B)
        → Yields s given s'
        → poll_impl fuel s' ≡ (ok (ready (some x)), s'')
        → Yields s (given ++ ob.buf_chunk x) s''
    a_wait :
        {given : Bytes} {s' s'' : AsyncBodyImage BA}
        → Yields s given s'
        → poll_impl {B = B} fuel s' ≡ (ok pending, s'')
        → Yields s given s''

module _ ⦃st : Storage⦄ (P : IoError → Type 0) {B : Type 0} ⦃ob : OutputBuf B⦄ where
  -- How the next poll ends, once `given` of `all` is out.
  abbrev pub GoesOn : Bool → (all given : Bytes) → Outcome IoError (Poll (Option B)) → Type 0
  GoesOn may all given (ok (ready none)) = given ≡ all
  GoesOn may all given (ok (ready (some x))) =
      (more : Bytes) × (all ≡ (given ++ ob.buf_chunk x) ++ more)
  GoesOn may all given (ok pending) = may ≡ false
  GoesOn may all given (err e) = P e
  GoesOn may all given panic = ⊥
  GoesOn may all given hang = ⊥

module _ ⦃st : Storage⦄ ⦃rt : Runtime⦄ (P : IoError → Type 0) (sv : Serves P st.slice_read)
    (fuel : ℕ) where
  open sv use {view, waits}

  -- A slice of a file shows its range, and the fuel is enough for its interrupts.
  pub record Slices : Type 0 where
    pub shows : (f : File) (n : ℕ) → view (st.slice_new f 0 n) ≡ take n f.content
    pub patient : (f : File) (n : ℕ) → waits (st.slice_new f 0 n) < fuel

  explode_state-Left :
      (t : ImageState) (n : ℕ) (b : Bytes)
      → Slices
      → n ≡ length b
      → ImageStateHolds t b
      → StateLeft P sv fuel (stream_state (explode_state t n)) b
  explode_state-Left (ImageState.ram v) n b slices e h = h
  explode_state-Left (ImageState.fs_read f) n b slices e h =
      (slices.shows f n ∙ ap (take n) (h.0) ∙ take_all n b (omega (arith, e)), slices.patient f n)
  explode_state-Left (ImageState.fs_read_slice rs) n b slices e h = absurd h
  explode_state-Left (ImageState.mem_map m) n b slices e h = absurd h

  module _ {BA B : Type 0} ⦃ob : OutputBuf B⦄ (laws : OutputLaws P ob)
      ⦃ba : BlockingArbiter BA⦄ where
    pub new-Left :
        (i : BodyImage) (t : FutioTunables) (b : Bytes)
        → Slices
        → ImageHolds i b
        → length b < 2 ^ 64
        → 0 < t.image.buffer_size_fs
        → Left P sv fuel (new_stream {BA = BA} i t) b
    unfolding new_stream explode
    new-Left i t b slices h fits pos = record {
      left = explode_state-Left i.state i.len b slices h.len h.state;
      sum = omega (arith, h.len);
      fits = omega (arith, h.len);
      buffers = pos;
    }

    Yields-Left :
        (s s' : AsyncBodyImage BA) (all given : Bytes)
        → Left P sv fuel s all
        → Yields B fuel s given s'
        → (rest : Bytes) × (all ≡ given ++ rest) × Left P sv fuel s' rest
    Yields-Left s s' all _ h at_start = (all, refl, h)
    Yields-Left s s' all _ h (an_item {given = given} {s' = s1} x y e) =
        let (rest, split, left) = Yields-Left s s1 all given h y in
        let (more, cut, on) =
          subst (λ q. Gives P sv fuel ob (ba.can_block s1.arbiter).0 rest q.0 q.1) e
            (poll-Gives P sv fuel laws rest s1 left) in
        (
          more,
          split ∙ ap (λ z. given ++ z) cut ∙ sym (append_assoc given (ob.buf_chunk x) more),
          on,
        )
    Yields-Left s s' all _ h (a_wait {given = given} {s' = s1} y e) =
        let (rest, split, left) = Yields-Left s s1 all given h y in
        let (may, on) =
          subst (λ q. Gives P sv fuel ob (ba.can_block s1.arbiter).0 rest q.0 q.1) e
            (poll-Gives P sv fuel laws rest s1 left) in
        (rest, split, on)

    Gives-GoesOn :
        (may : Bool) (all given rest : Bytes) (r : Outcome IoError (Poll (Option B)))
        → (s : AsyncBodyImage BA) → all ≡ given ++ rest
        → Gives P sv fuel ob may rest r s
        → GoesOn P may all given r
    Gives-GoesOn may all given rest (ok (ready none)) s e h =
        sym (e ∙ ap (λ z. given ++ z) (h.0) ∙ append-nil given)
    Gives-GoesOn may all given rest (ok (ready (some x))) s e (more, cut, on) =
        (more, e ∙ ap (λ z. given ++ z) cut ∙ sym (append_assoc given (ob.buf_chunk x) more))
    Gives-GoesOn may all given rest (ok pending) s e h = h.0
    Gives-GoesOn may all given rest (err x) s e h = h
    Gives-GoesOn may all given rest panic s e h = h
    Gives-GoesOn may all given rest hang s e h = h

    -- Let an image hold `all`, fewer than 2 ^ 64 bytes, in RAM or in a file, with a slice of a file
    -- serving its range, fuel for more reads than it will interrupt, and a positive buffer size.
    -- However often a stream over the image has been polled, what its items hold is the front of
    -- `all`. The next poll gives what follows there, or ends the stream when `all` is out and not
    -- before, or waits if the arbiter does not allow blocking, or reports an error of the file: it
    -- never panics.
    pub stream-GoesOn :
        (i : BodyImage) (t : FutioTunables) (all given : Bytes) (s : AsyncBodyImage BA)
        → Slices
        → ImageHolds i all
        → length all < 2 ^ 64
        → 0 < t.image.buffer_size_fs
        → Yields B fuel (new_stream i t) given s
        → GoesOn P (ba.can_block s.arbiter).0 all given (poll_impl {B = B} fuel s).0
    stream-GoesOn i t all given s slices h fits pos y =
        let (rest, split, left) =
          Yields-Left (new_stream i t) s all given (new-Left i t all slices h fits pos) y in
        Gives-GoesOn _ all given rest _ _ split (poll-Gives P sv fuel laws rest s left)

    -- For a stream over an image that holds `all`, fewer than 2 ^ 64 bytes, with a slice of a file
    -- serving its range, fuel for more reads than it will interrupt, and a positive buffer size,
    -- after any polls that did not fail: `is_end_stream` is true exactly when all bytes of the
    -- image are out.
    pub stream_end :
        (i : BodyImage) (t : FutioTunables) (all given : Bytes) (s : AsyncBodyImage BA)
        → Slices
        → ImageHolds i all
        → length all < 2 ^ 64
        → 0 < t.image.buffer_size_fs
        → Yields B fuel (new_stream i t) given s
        → (is_end_stream s ≡ true) ↔ (given ≡ all)
    stream_end i t all given s slices h fits pos y =
        let (rest, split, left) =
          Yields-Left (new_stream i t) s all given (new-Left i t all slices h fits pos) y in
        let sizes : length all ≡ length given + length rest =
          ap length split ∙ length-append given rest in
        (
          λ e.
              let out : rest ≡ [] =
                nil_of_length rest (omega (arith, left.sum, leb→le s.len s.consumed e)) in
              sym (split ∙ ap (λ z. given ++ z) out ∙ append-nil given),
          λ e. le→leb s.len s.consumed (omega (arith, left.sum, sizes, ap length e)),
        )
