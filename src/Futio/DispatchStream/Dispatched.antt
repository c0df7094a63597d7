-- ===== src/Futio/DispatchStream/Dispatched.antt =====
-- A stream that dispatches its reads gives exactly the bytes of the image.
use body_image.Common.{
  ℕ, ◌≡◌, refl, sym, ap, Bool, true, Bool-cases, inl, inr, Option, none, some, Outcome, ok, err,
  panic, hang,
}
use mathlib.Core.Path.{subst}
use body_image.Io.{Bytes, IoError}
use body_image.Io.Laws.{Serves}
use body_image.Storage.{Storage}
use body_image.Futio.Crates.{Runtime, Poll, ready, pending, Answer, granted, canceled, not_yet}
use body_image.Futio.Arbiter.{Blocking, StatefulArbiter, stateful_arbiter, set, is_pending, is_void}
use body_image.Futio.Buf.{OutputBuf}
use body_image.Futio.Buf.Outputs.{OutputLaws}
use body_image.Futio.Sink.Allowed.{Unallowed, can_block_in-Unallowed}
use body_image.Futio.Stream.{AsyncBodyImage, poll_impl}
use body_image.Futio.Stream.Asks.{Asks, Waits, Polled, Asks-Polled, poll-Polled}
use body_image.Futio.Stream.Gives.{Left, Gives, poll-Gives}
use body_image.Futio.Polls.{PollGives}
use body_image.Futio.Dispatch.Fulfils.{Dispatches, AnswersWith}
use body_image.Futio.DispatchStream.{
  ReadReturn, DispatchState, DispatchBodyImage, image_back, read_returned, poll_reading,
  read_on_pool, dispatch_read, dispatch_when_pending, poll_in, dispatch_poll_next,
}

module _ ⦃st : Storage⦄ ⦃rt : Runtime⦄ (P : IoError → Type 0) (sv : Serves P st.slice_read)
    (fuel : ℕ) (pool : Dispatches rt) {B : Type 0} ⦃ob : OutputBuf B⦄ where
  open rt use {Dispatched}

  -- What the dispatched read returns: it was allowed.
  pub record Reads (rest : Bytes) (ret : ReadReturn B) : Type 0 where
    pub gives : Gives P sv fuel ob true rest ret.0 ret.1
    pub spent : ret.1.arbiter ≡ record { state = Blocking.void }

  -- The stream has the bytes `rest` in front of it, or its dispatched read has them.
  abbrev pub DispatchLeft : DispatchState B → Bytes → Type 0
  DispatchLeft (DispatchState.image s) rest = Left P sv fuel s rest × Unallowed s.arbiter
  DispatchLeft DispatchState.absent rest = ⊥
  DispatchLeft (DispatchState.reading d) rest = Reads rest (pool.result d)

  -- What one poll gives of `rest`.
  abbrev pub DispatchGives :
      Bytes → Outcome IoError (Poll (Option B)) → DispatchBodyImage B → Type 0
  DispatchGives = PollGives P (λ s. DispatchLeft s.state)

  -- A poll of the inner stream, seen from outside.
  polled_inside :
      (rest : Bytes) (may : Bool) (r : Outcome IoError (Poll (Option B)))
      (i : AsyncBodyImage StatefulArbiter) (s : DispatchBodyImage B)
      → Unallowed i.arbiter
      → Gives P sv fuel ob may rest r i
      → DispatchGives rest r (record s { state = DispatchState.image i })
  polled_inside rest may (ok (ready none)) i s u h = (h.0, (h.1, u))
  polled_inside rest may (ok (ready (some x))) i s u (more, cut, l) = (more, cut, (l, u))
  polled_inside rest may (ok pending) i s u h = (h.1, u)
  polled_inside rest may (err x) i s u h = h
  polled_inside rest may panic i s u h = h
  polled_inside rest may hang i s u h = h

  image_back-Gives :
      (ret : ReadReturn B) (d : Dispatched (ReadReturn B)) (s : DispatchBodyImage B) (rest : Bytes)
      → Reads rest ret
      → let (r, s') = image_back ret d s in DispatchGives rest r s'
  image_back-Gives (res, i) d s rest h =
      let is : is_void i.arbiter.state ≡ true = ap (λ a. is_void a.state) (h.spent) in
      rw is (polled_inside rest true res i s (subst Unallowed (sym h.spent) refl) h.gives)

  module _ (laws : OutputLaws P ob) (cancels : (c : ℕ) → P (rt.canceled_error c)) where
    read_returned-Gives :
        (a : Answer (ReadReturn B)) (ret : ReadReturn B) (d : Dispatched (ReadReturn B))
        (s : DispatchBodyImage B) (rest : Bytes)
        → AnswersWith ret a
        → pool.result d ≡ ret
        → Reads rest ret
        → let (r, s') = read_returned a d s in DispatchGives rest r s'
    read_returned-Gives (granted x) ret d s rest a e h =
        image_back-Gives x d s rest (subst (Reads rest) (sym a) h)
    read_returned-Gives (canceled c) ret d s rest a e h = cancels c
    read_returned-Gives not_yet ret d s rest a e h = subst (Reads rest) (sym e) h

    poll_reading-Gives :
        (d : Dispatched (ReadReturn B)) (s : DispatchBodyImage B) (rest : Bytes)
        → Reads rest (pool.result d)
        → let (r, s') = poll_reading d s in DispatchGives rest r s'
    unfolding poll_reading
    poll_reading-Gives d s rest h =
        read_returned-Gives _ (pool.result d) _ s rest (pool.answers d).0 (pool.answers d).1 h

    allowed-Reads :
        (i : AsyncBodyImage StatefulArbiter) (rest : Bytes)
        → Left P sv fuel i rest
        → Asks i
        → Reads rest (poll_impl fuel (record i { arbiter = set Blocking.once i.arbiter }))
    allowed-Reads i rest l a =
        let allowed : AsyncBodyImage StatefulArbiter = record i {
          arbiter = set Blocking.once i.arbiter;
        } in
        record {
          gives =
              poll-Gives P sv fuel laws rest allowed
                (record { left = l.left; sum = l.sum; fits = l.fits; buffers = l.buffers });
          spent = (Asks-Polled B fuel allowed a).1;
        }

    dispatch_read-Gives :
        (i : AsyncBodyImage StatefulArbiter) (s : DispatchBodyImage B) (rest : Bytes)
        → Left P sv fuel i rest
        → Asks i
        → let (r, s') = dispatch_read fuel i s in DispatchGives rest r s'
    unfolding dispatch_read
    dispatch_read-Gives i s rest l a =
        let (d, made, same) =
          pool.registered
            (λ _. poll_impl {B = B} fuel (record i { arbiter = set Blocking.once i.arbiter })) in
        subst (λ o. let (r, s') = read_on_pool o s in DispatchGives rest r s') (sym made)
          (poll_reading-Gives d _ rest (subst (Reads rest) (sym same) (allowed-Reads i rest l a)))

    when_pending-Gives :
        (r : Outcome IoError (Poll (Option B))) (i : AsyncBodyImage StatefulArbiter)
        (s : DispatchBodyImage B) (rest : Bytes) (may : Bool)
        → Unallowed i.arbiter
        → Waits r i
        → Gives P sv fuel ob may rest r i
        → let (r', s') = dispatch_when_pending fuel r i s in DispatchGives rest r' s'
    when_pending-Gives (ok pending) i s rest may u w h =
        elim (Bool-cases (is_pending i.arbiter.state)) [
          | inl asks ↦ rw asks (dispatch_read-Gives i s rest h.1 w)
          | inr unasked ↦ rw unasked (h.1, u)
        ]
    when_pending-Gives (ok (ready none)) i s rest may u w h =
        polled_inside rest may (ok (ready none)) i s u h
    when_pending-Gives (ok (ready (some x))) i s rest may u w h =
        polled_inside rest may (ok (ready (some x))) i s u h
    when_pending-Gives (err x) i s rest may u w h = h
    when_pending-Gives panic i s rest may u w h = h
    when_pending-Gives hang i s rest may u w h = h

    Polled-poll_in :
        (a : StatefulArbiter) (i : AsyncBodyImage StatefulArbiter) (s : DispatchBodyImage B)
        (rest : Bytes)
        → Left P sv fuel i rest
        → Unallowed a
        → Polled i a (poll_impl {B = B} fuel i)
        → let (r, s') = poll_in fuel (DispatchState.image i) s in DispatchGives rest r s'
    Polled-poll_in a i s rest l u p =
        when_pending-Gives _ (poll_impl {B = B} fuel i).1 s rest _ (subst Unallowed (sym p.1) u)
          (p.2) (poll-Gives P sv fuel laws rest i l)

    poll_in-Gives :
        (state : DispatchState B) (s : DispatchBodyImage B) (rest : Bytes)
        → DispatchLeft state rest
        → let (r, s') = poll_in fuel state s in DispatchGives rest r s'
    poll_in-Gives (DispatchState.image i) s rest h = elim (poll-Polled B fuel i) [
      | inl kept ↦ Polled-poll_in _ i s rest h.0 h.1 kept
      | inr asked ↦ Polled-poll_in _ i s rest h.0 (can_block_in-Unallowed i.arbiter.state h.1) asked
    ]
    poll_in-Gives DispatchState.absent s rest h = absurd h
    poll_in-Gives (DispatchState.reading d) s rest h = poll_reading-Gives d s rest h

    -- One poll, of a stream that has `rest` left.
    pub dispatch_poll-Gives :
        (s : DispatchBodyImage B) (rest : Bytes)
        → DispatchLeft s.state rest
        → let (r, s') = dispatch_poll_next fuel s in DispatchGives rest r s'
    unfolding dispatch_poll_next
    dispatch_poll-Gives s rest h = poll_in-Gives s.state s rest h
