-- ===== src/Futio/PermitStream/Permitted.antt =====
-- A stream with permits over an image gives exactly the bytes of the image.
use body_image.Common.{
  ℕ, ◌≡◌, refl, sym, ap, ◌∙◌, ◌≢◌, Bool, true, Bool-cases, inl, inr, Option, none, some, Outcome,
  ok, err, panic, hang,
}
use mathlib.Core.Path.{subst}
use body_image.Io.{Bytes, IoError}
use body_image.Io.Laws.{Serves}
use body_image.Storage.{Storage}
use body_image.Futio.Crates.{Runtime, Poll, ready, pending, Answer, granted, canceled, not_yet}
use body_image.Futio.Arbiter.{Blocking, StatefulArbiter, stateful_arbiter, set, is_pending, is_void}
use body_image.Futio.Tune.{FutioTunables, blocking_semaphore}
use body_image.Futio.Buf.{OutputBuf}
use body_image.Futio.Buf.Outputs.{OutputLaws}
use body_image.Futio.Sink.Allowed.{Unallowed, can_block_in-Unallowed}
use body_image.Futio.Stream.{AsyncBodyImage, poll_impl}
use body_image.Futio.Stream.Asks.{Asks, Waits, Polled, Asks-Polled, poll-Polled}
use body_image.Futio.Stream.Gives.{Left, Gives, poll-Gives}
use body_image.Futio.Polls.{PollGives}
use body_image.Futio.Permit.Fulfils.{Runs}
use body_image.Futio.PermitStream.{
  PermitBodyImage, checked_item, poll_permitted, item_answered, poll_waiting, ask_when_pending,
  poll_by, permit_poll_next,
}

module _ ⦃st : Storage⦄ ⦃rt : Runtime⦄ (P : IoError → Type 0) (sv : Serves P st.slice_read)
    (fuel : ℕ) (t : FutioTunables) where
  open rt use {Semaphore, PermitFuture, Permit}

  -- The stream has the bytes `rest` in front of it, and waits for a permit only for a read.
  pub record PermitLeft (s : PermitBodyImage) (rest : Bytes) : Type 0 where
    pub left : Left P sv fuel s.image rest
    pub asks : s.permit ≢ none → Asks s.image
    pub unallowed : Unallowed s.image.arbiter
    pub tuned : s.image.tune ≡ t

  module _ {B : Type 0} ⦃ob : OutputBuf B⦄ where
    -- What one poll gives of `rest`.
    abbrev pub PermitGives : Bytes → Outcome IoError (Poll (Option B)) → PermitBodyImage → Type 0
    PermitGives = PollGives P PermitLeft

    -- A poll of the inner stream, when no permit is asked for.
    polled_inside :
        (rest : Bytes) (r : Outcome IoError (Poll (Option B))) (s : PermitBodyImage)
        → (may : Bool) → s.permit ≡ none
        → Unallowed s.image.arbiter
        → s.image.tune ≡ t
        → Gives P sv fuel ob may rest r s.image
        → PermitGives rest r s
    polled_inside rest (ok (ready none)) s may e u k h =
        (h.0, record { left = h.1; asks = λ asked. absurd (asked e); unallowed = u; tuned = k })
    polled_inside rest (ok (ready (some x))) s may e u k (more, cut, l) =
        (more, cut, record { left = l; asks = λ asked. absurd (asked e); unallowed = u; tuned = k })
    polled_inside rest (ok pending) s may e u k h = record {
      left = h.1;
      asks = λ asked. absurd (asked e);
      unallowed = u;
      tuned = k;
    }
    polled_inside rest (err x) s may e u k h = h
    polled_inside rest panic s may e u k h = h
    polled_inside rest hang s may e u k h = h

    module _ (laws : OutputLaws P ob) (runs : Runs rt) (cancels : (c : ℕ) → P (rt.canceled_error c))
        (sema : Semaphore) (given : blocking_semaphore t ≡ some sema) where
      permitted-Gives :
          (p : Permit) (s : PermitBodyImage) (rest : Bytes)
          → Left P sv fuel s.image rest
          → Asks s.image
          → s.permit ≡ none
          → s.image.tune ≡ t
          → let (r, s') = poll_permitted B fuel p s in PermitGives rest r s'
      unfolding poll_permitted
      permitted-Gives p s rest l a e k =
          let allowed : AsyncBodyImage StatefulArbiter = record s.image {
            arbiter = set Blocking.once s.image.arbiter;
          } in
          let after : AsyncBodyImage StatefulArbiter = (poll_impl {B = B} fuel allowed).1 in
          let polled = Asks-Polled B fuel allowed a in
          let is : is_void after.arbiter.state ≡ true = ap (λ b. is_void b.state) polled.1 in
          subst
            (λ q.
              let (r, s') = checked_item B q.0 (record s { image = q.1 }) in PermitGives rest r s')
            (sym (runs.runs p (λ _. poll_impl {B = B} fuel allowed)))
            (rw is (
              polled_inside rest _ (record s { image = after }) _ e
                (subst Unallowed (sym polled.1) refl) (polled.0 ∙ k)
                (poll-Gives P sv fuel laws rest allowed
                  (record { left = l.left; sum = l.sum; fits = l.fits; buffers = l.buffers }))))

      answered-Gives :
          (a : Answer Permit) (pf : PermitFuture) (s : PermitBodyImage) (rest : Bytes)
          → Left P sv fuel s.image rest
          → Asks s.image
          → Unallowed s.image.arbiter
          → s.image.tune ≡ t
          → let (r, s') = item_answered B fuel a pf s in PermitGives rest r s'
      answered-Gives (granted p) pf s rest l a u k =
          permitted-Gives p (record s { permit = none }) rest l a refl k
      answered-Gives (canceled c) pf s rest l a u k = cancels c
      answered-Gives not_yet pf s rest l a u k = record {
        left = l;
        asks = λ asked. a;
        unallowed = u;
        tuned = k;
      }

      waiting-Gives :
          (pf : PermitFuture) (s : PermitBodyImage) (rest : Bytes)
          → Left P sv fuel s.image rest
          → Asks s.image
          → Unallowed s.image.arbiter
          → s.image.tune ≡ t
          → let (r, s') = poll_waiting B fuel pf s in PermitGives rest r s'
      unfolding poll_waiting
      waiting-Gives pf s rest l a u k = answered-Gives _ _ s rest l a u k

      ask_when_pending-Gives :
          (r : Outcome IoError (Poll (Option B))) (s : PermitBodyImage) (rest : Bytes)
          → (may : Bool) → s.permit ≡ none
          → Unallowed s.image.arbiter
          → s.image.tune ≡ t
          → Waits r s.image
          → Gives P sv fuel ob may rest r s.image
          → let (r', s') = ask_when_pending B fuel r s in PermitGives rest r' s'
      ask_when_pending-Gives (ok pending) s rest may e u k w h =
          elim (Bool-cases (is_pending s.image.arbiter.state)) [
            | inl asks ↦
                let set_up : blocking_semaphore s.image.tune ≡ some sema =
                  ap blocking_semaphore k ∙ given in
                rw (asks, set_up) (waiting-Gives (rt.blocking_permit_future sema) s rest h.1 w u k)
            | inr unasked ↦ rw unasked (polled_inside rest (ok pending) s may e u k h)
          ]
      ask_when_pending-Gives (ok (ready none)) s rest may e u k w h =
          polled_inside rest (ok (ready none)) s may e u k h
      ask_when_pending-Gives (ok (ready (some x))) s rest may e u k w h =
          polled_inside rest (ok (ready (some x))) s may e u k h
      ask_when_pending-Gives (err x) s rest may e u k w h = h
      ask_when_pending-Gives panic s rest may e u k w h = h
      ask_when_pending-Gives hang s rest may e u k w h = h

      Polled-poll_by :
          (a : StatefulArbiter) (s : PermitBodyImage) (rest : Bytes)
          → PermitLeft s rest
          → s.permit ≡ none
          → Unallowed a
          → Polled s.image a (poll_impl {B = B} fuel s.image)
          → let (r, s') = poll_by B fuel none s in PermitGives rest r s'
      Polled-poll_by a s rest h e u p =
          ask_when_pending-Gives _ (record s { image = (poll_impl {B = B} fuel s.image).1 }) rest _
            e (subst Unallowed (sym p.1) u) (p.0 ∙ h.tuned) (p.2)
            (poll-Gives P sv fuel laws rest s.image h.left)

      poll_by-Gives :
          (o : Option PermitFuture) (s : PermitBodyImage) (rest : Bytes)
          → s.permit ≡ o
          → PermitLeft s rest
          → let (r, s') = poll_by B fuel o s in PermitGives rest r s'
      poll_by-Gives none s rest e h = elim (poll-Polled B fuel s.image) [
        | inl kept ↦ Polled-poll_by _ s rest h e h.unallowed kept
        | inr asked ↦
            Polled-poll_by _ s rest h e (can_block_in-Unallowed s.image.arbiter.state h.unallowed)
              asked
      ]
      poll_by-Gives (some pf) s rest e h =
          waiting-Gives pf s rest h.left (h.asks (λ none_asked. cc)) h.unallowed h.tuned

      pub permit_poll-Gives :
          (s : PermitBodyImage) (rest : Bytes)
          → PermitLeft s rest
          → let (r, s') = permit_poll_next B fuel s in PermitGives rest r s'
      unfolding permit_poll_next
      permit_poll-Gives s rest h = poll_by-Gives s.permit s rest refl h
