-- ===== src/Futio/Stream/Asks.antt =====
-- What a poll of a stream does to the arbiter.
use body_image.Common.{
  ℕ, ◌-◌, ◌<◌, ◌≡◌, refl, ◌⊎◌, inl, inr, [], ◌∷◌, Bool, true, false, Bool-cases, ltb, ltb-false,
  ◌==◌, ==_ne, ==_false→pos, Option, none, some, Outcome, ok, err, panic, hang, arith,
}
use body_image.Io.{Bytes, IoError}
use body_image.Storage.{Storage}
use body_image.Futio.Crates.{Runtime, Poll, pending}
use body_image.Futio.Arbiter.{BlockingArbiter}
use body_image.Futio.Buf.{OutputBuf}
use body_image.Futio.Stream.{
  AsyncBodyState, AsyncBodyImage, ram, file, mem_map, chunk_item, map_item, poll_state, poll_if,
  poll_impl, is_ram_stream,
}

module _ ⦃st : Storage⦄ ⦃rt : Runtime⦄ {BA : Type 0} where
  open st use {ReadSlice}

  -- The next item takes a blocking operation.
  abbrev pub Asks : AsyncBodyImage BA → Type 0
  Asks s = (is_ram_stream s.state ≡ false) × (s.consumed < s.len)

  -- A stream that waits still asks.
  abbrev pub Waits : {B : Type 0} → Outcome IoError (Poll (Option B)) → AsyncBodyImage BA → Type 0
  Waits (ok pending) s = Asks s
  Waits _ s = Unit

  -- How a poll of `s` that answers `r` leaves it, with the arbiter `a`.
  abbrev pub Polled :
      {B : Type 0}
      → AsyncBodyImage BA
      → BA
      → Outcome IoError (Poll (Option B)) × AsyncBodyImage BA
      → Type 0
  Polled s a (r, s') = (s'.tune ≡ s.tune) × (s'.arbiter ≡ a) × Waits r s'

  module _ (B : Type 0) ⦃ob : OutputBuf B⦄ where
    chunk_item-Polled :
        (r : Outcome IoError Bytes) (rs : ReadSlice) (s : AsyncBodyImage BA)
        → Polled s s.arbiter (chunk_item {B = B} (r, rs) s)
    chunk_item-Polled (ok []) rs s = (refl, refl, tt)
    chunk_item-Polled (ok (x ∷ b)) rs s = (refl, refl, tt)
    chunk_item-Polled (err e) rs s = (refl, refl, tt)
    chunk_item-Polled panic rs s = (refl, refl, tt)
    chunk_item-Polled hang rs s = (refl, refl, tt)

    map_item-Polled :
        (r : Outcome IoError B) (s : AsyncBodyImage BA) → Polled s s.arbiter (map_item r s)
    map_item-Polled (ok b) s = (refl, refl, tt)
    map_item-Polled (err e) s = (refl, refl, tt)
    map_item-Polled panic s = (refl, refl, tt)
    map_item-Polled hang s = (refl, refl, tt)

    poll_state-Polled :
        (fuel avail : ℕ) (t : AsyncBodyState) (s : AsyncBodyImage BA)
        → Polled s s.arbiter (poll_state {B = B} fuel avail t s)
    poll_state-Polled fuel avail (ram []) s = (refl, refl, tt)
    poll_state-Polled fuel avail (ram (b ∷ v)) s = (refl, refl, tt)
    poll_state-Polled fuel avail (file rs) s = chunk_item-Polled _ _ s
    poll_state-Polled fuel avail (mem_map (some m)) s = map_item-Polled (ob.from_mmap m) s
    poll_state-Polled fuel avail (mem_map none) s = (refl, refl, tt)

    module _ ⦃ba : BlockingArbiter BA⦄ (fuel : ℕ) where
      poll_if-Polled :
          (avail : ℕ) (may : Bool) (s : AsyncBodyImage BA)
          → Asks s
          → Polled s s.arbiter (poll_if {B = B} fuel avail may s)
      poll_if-Polled avail true s h = poll_state-Polled fuel avail s.state s
      poll_if-Polled avail false s h = (refl, refl, h)

      -- A stream that asks consults its arbiter, once.
      pub Asks-Polled :
          (s : AsyncBodyImage BA)
          → Asks s
          → Polled s (ba.can_block s.arbiter).1 (poll_impl {B = B} fuel s)
      unfolding poll_impl
      Asks-Polled s h =
          rw
            (
              ltb-false s.len s.consumed (omega (arith, h.1)),
              ==_ne (s.len - s.consumed) 0 (omega (arith, h.1)),
              h.0,
            )
            (poll_if-Polled _ _ (record s { arbiter = (ba.can_block s.arbiter).1 }) h)

      -- Any other poll leaves the arbiter as it is.
      pub poll-Polled :
          (s : AsyncBodyImage BA)
          → Polled s s.arbiter (poll_impl {B = B} fuel s)
            ⊎ Polled s (ba.can_block s.arbiter).1 (poll_impl {B = B} fuel s)
      unfolding poll_impl
      poll-Polled s = elim (Bool-cases (ltb s.len s.consumed)) [
        | inl over ↦ inl (rw over (refl, refl, tt))
        | inr within ↦ elim (Bool-cases (s.len - s.consumed == 0)) [
          | inl ended ↦ inl (rw (within, ended) (refl, refl, tt))
          | inr more ↦ elim (Bool-cases (is_ram_stream s.state)) [
            | inl in_ram ↦ inl (rw (within, more, in_ram) (poll_state-Polled fuel _ s.state s))
            | inr other ↦
                let left : 0 < s.len - s.consumed = ==_false→pos _ more in
                inr (Asks-Polled s (other, omega arith))
          ]
        ]
      ]
