-- ===== src/Futio/Stream/Gives.antt =====
-- A stream over an image gives exactly the bytes of the image.
use body_image.Common.{
  ℕ, suc, ◌+◌, ◌-◌, ◌<◌, ◌^◌, ◌≡◌, refl, sym, ap, ◌∙◌, [], ◌∷◌, ◌++◌, concat, length, length-append,
  append-nil, Bool, true, false, ==_ne, ltb-false, Bool-cases, inl, inr, Option, none, some,
  Outcome, ok, err, panic, hang, arith,
}
use mathlib.Core.Path.{subst}
use body_image.Io.{Bytes, IoError}
use body_image.Io.Laws.{Serves}
use body_image.Storage.{Storage}
use body_image.Futio.Crates.{Runtime, Poll, ready, pending}
use body_image.Futio.Arbiter.{BlockingArbiter}
use body_image.Futio.Buf.{OutputBuf}
use body_image.Futio.Buf.Outputs.{MapsTo, OutputLaws}
use body_image.Futio.Stream.{
  AsyncBodyState, AsyncBodyImage, ram, file, mem_map, consume, chunk_item, map_item, poll_state,
  poll_if, poll_avail, poll_impl, is_ram_stream,
}
use body_image.Futio.Stream.Chunks.{Chunk, read_chunk-Chunk}

module _ ⦃st : Storage⦄ ⦃rt : Runtime⦄ (P : IoError → Type 0) (sv : Serves P st.slice_read)
    (fuel : ℕ) where
  open st use {ReadSlice, map_bytes}
  open sv use {view, waits}

  -- The state has the bytes `rest` in front of it, and the fuel is enough for its interrupts.
  abbrev pub StateLeft : AsyncBodyState → Bytes → Type 0
  StateLeft (ram v) rest = concat v ≡ rest
  StateLeft (file rs) rest = (view rs ≡ rest) × (waits rs < fuel)
  StateLeft (mem_map (some m)) rest = map_bytes m ≡ rest
  StateLeft (mem_map none) rest = rest ≡ []

  module _ {BA : Type 0} where
    pub record Left (s : AsyncBodyImage BA) (rest : Bytes) : Type 0 where
      pub left : StateLeft s.state rest
      pub sum : s.consumed + length rest ≡ s.len
      pub fits : s.len < 2 ^ 64
      pub buffers : 0 < s.tune.image.buffer_size_fs

    -- What one poll gives of `rest`; `may` is whether the arbiter allows blocking.
    abbrev pub Gives :
        {B : Type 0}
        → OutputBuf B
        → Bool
        → Bytes
        → Outcome IoError (Poll (Option B))
        → AsyncBodyImage BA
        → Type 0
    Gives ob may rest (ok (ready none)) s' = (rest ≡ []) × Left s' rest
    Gives ob may rest (ok (ready (some x))) s' =
        (more : Bytes) × (rest ≡ ob.buf_chunk x ++ more) × Left s' more
    Gives ob may rest (ok pending) s' = (may ≡ false) × Left s' rest
    Gives ob may rest (err e) s' = P e
    Gives ob may rest panic s' = ⊥
    Gives ob may rest hang s' = ⊥

    consumed_lem :
        (n : ℕ) (state : AsyncBodyState) (s : AsyncBodyImage BA) (rest more : Bytes)
        → Left s rest
        → length rest ≡ n + length more
        → StateLeft state more
        → Left (consume n state s) more
    consumed_lem n state s rest more h e l = record {
      left = l;
      sum = omega (arith, h.sum, h.fits, e);
      fits = h.fits;
      buffers = h.buffers;
    }

    module _ {B : Type 0} ⦃ob : OutputBuf B⦄ (laws : OutputLaws P ob) (may : Bool) where
      item_lem :
          (b rest more : Bytes) (state : AsyncBodyState) (s : AsyncBodyImage BA)
          → Left s rest
          → rest ≡ b ++ more
          → StateLeft state more
          → Gives ob may rest (ok (ready (some (ob.from_bytes b)))) (consume (length b) state s)
      item_lem b rest more state s h e l = (
        more,
        e ∙ ap (λ x. x ++ more) (sym (laws.chunk_from b)),
        consumed_lem (length b) state s rest more h (ap length e ∙ length-append b more) l,
      )

      chunk_item-Gives :
          (rs : ReadSlice) (n : ℕ) (rest : Bytes) (s : AsyncBodyImage BA)
          → (r : Outcome IoError Bytes) (rs' : ReadSlice) → Left s rest
          → view rs ≡ rest
          → waits rs < fuel
          → 0 < length rest
          → Chunk P sv rs n r rs'
          → let (q, s') = chunk_item {B = B} (r, rs') s in Gives ob may rest q s'
      chunk_item-Gives rs n rest s (ok []) rs' h v w pos c =
          let none_left : length rest ≡ 0 = ap length (sym v ∙ c.2 refl) in
          absurd (omega (arith, none_left))
      chunk_item-Gives rs n rest s (ok (x ∷ b)) rs' h v w pos c =
          item_lem (x ∷ b) rest (view rs') (file rs') s h (sym v ∙ c.0) (refl, omega (arith, c.3))
      chunk_item-Gives rs n rest s (err e) rs' h v w pos c = c
      chunk_item-Gives rs n rest s panic rs' h v w pos c = c
      chunk_item-Gives rs n rest s hang rs' h v w pos c = c

      map_item-Gives :
          (rest : Bytes) (s : AsyncBodyImage BA) (r : Outcome IoError B)
          → Left s rest
          → 0 < length rest
          → MapsTo P ob rest r
          → let (q, s') = map_item r s in Gives ob may rest q s'
      map_item-Gives rest s (ok x) h pos m = (
        [],
        sym (m.0) ∙ sym (append-nil (ob.buf_chunk x)),
        consumed_lem (ob.buf_remaining x) (mem_map none) s rest [] h (omega (arith, m.1)) refl,
      )
      map_item-Gives rest s (err e) h pos m = m
      map_item-Gives rest s panic h pos m =
          let none_left : length rest ≡ 0 = ap length m in absurd (omega (arith, none_left))
      map_item-Gives rest s hang h pos m = m

      poll_state-Gives :
          (state : AsyncBodyState) (rest : Bytes) (s : AsyncBodyImage BA)
          → StateLeft state rest
          → Left s rest
          → 0 < length rest
          → let (r, s') = poll_state {B = B} fuel (length rest) state s in Gives ob may rest r s'
      poll_state-Gives (ram []) rest s l h pos =
          let none_left : 0 ≡ length rest = ap length l in absurd (omega (arith, none_left))
      poll_state-Gives (ram (b ∷ v)) rest s l h pos =
          item_lem b rest (concat v) (ram v) s h (sym l) refl
      poll_state-Gives (file rs) rest s l h pos =
          chunk_item-Gives rs _ rest s _ _ h (l.0) (l.1) pos
            (read_chunk-Chunk P sv fuel _ rs (omega (arith, h.buffers)) (l.1))
      poll_state-Gives (mem_map (some m)) rest s l h pos =
          map_item-Gives rest s _ h pos
            (subst (λ b. MapsTo P ob b (ob.from_mmap m)) l (laws.maps m))
      poll_state-Gives (mem_map none) rest s l h pos =
          let none_left : length rest ≡ 0 = ap length l in absurd (omega (arith, none_left))

    asked-Left :
        (a : BA) (s : AsyncBodyImage BA) (rest : Bytes)
        → Left s rest
        → Left (record s { arbiter = a }) rest
    asked-Left a s rest h = record {
      left = h.left;
      sum = h.sum;
      fits = h.fits;
      buffers = h.buffers;
    }

    module _ {B : Type 0} ⦃ob : OutputBuf B⦄ (laws : OutputLaws P ob)
        ⦃ba : BlockingArbiter BA⦄ where
      poll_if-Gives :
          (may : Bool) (rest : Bytes) (s : AsyncBodyImage BA)
          → Left s rest
          → 0 < length rest
          → let (r, s') = poll_if {B = B} fuel (length rest) may s in Gives ob may rest r s'
      poll_if-Gives true rest s h pos = poll_state-Gives laws true s.state rest s h.left h pos
      poll_if-Gives false rest s h pos = (refl, h)

      poll_avail-Gives :
          (rest : Bytes) (s : AsyncBodyImage BA)
          → Left s rest
          → 0 < length rest
          → let (r, s') = poll_avail {B = B} fuel (length rest) s in
            Gives ob (ba.can_block s.arbiter).0 rest r s'
      poll_avail-Gives rest s h pos = elim (Bool-cases (is_ram_stream s.state)) [
        | inl in_ram ↦ rw in_ram (poll_state-Gives laws _ s.state rest s h.left h pos)
        | inr other ↦ rw other (poll_if-Gives _ rest _ (asked-Left _ s rest h) pos)
      ]

      pub poll-Gives :
          (rest : Bytes) (s : AsyncBodyImage BA)
          → Left s rest
          → let (r, s') = poll_impl {B = B} fuel s in Gives ob (ba.can_block s.arbiter).0 rest r s'
      unfolding poll_impl
      poll-Gives [] s h =
          let at_end : s.len - s.consumed ≡ 0 = omega (arith, h.sum) in
          rw (ltb-false s.len s.consumed (omega (arith, h.sum)), at_end) (refl, h)
      poll-Gives (x ∷ rest) s h =
          let avail : s.len - s.consumed ≡ suc (length rest) = omega (arith, h.sum) in
          rw
            (
              ltb-false s.len s.consumed (omega (arith, h.sum)),
              avail,
              ==_ne (suc (length rest)) 0 (omega arith),
            )
            (poll_avail-Gives (x ∷ rest) s h (omega arith))
