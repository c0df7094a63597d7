-- ===== src/Image/Gathered.antt =====
-- `gather` makes one buffer of an image in RAM.
use body_image.Common.{
  ℕ, suc, ◌≡◌, refl, sym, ◌∙◌, ap, List, [], ◌∷◌, ◌++◌, length, concat, append-nil, append_assoc,
  ok, arith, ==_refl, lt→ltb,
}
use body_image.Io.{Bytes}
use body_image.Storage.{Storage}
use body_image.Image.State.{ImageState, BodyImage, contiguous, put_each, gather, gather_ram, reader}
use body_image.Image.Prepared.{ImageHolds, ImageStateHolds}
use body_image.Image.ReadFrom.Steps.{BufferLaws}

-- How an image of `b` stands after `gather`, by its state before.
abbrev pub Gathered : ⦃st : Storage⦄ → ImageState → Bytes → (i i' : BodyImage) → Type 0
Gathered (ImageState.ram v) b i i' = reader i' ≡ contiguous b
Gathered _ b i i' = i' ≡ i

module _ ⦃st : Storage⦄ (bl : BufferLaws st) where
  open st use {BytesMut, buf_bytes, put, with_capacity}

  put_each_lem :
      (v : List Bytes) (x : BytesMut) → buf_bytes (put_each v x) ≡ buf_bytes x ++ concat v
  unfolding put_each
  put_each_lem [] x = sym (append-nil (buf_bytes x))
  put_each_lem (b ∷ v) x =
      put_each_lem v (put b x)
      ∙ ap (λ t. t ++ concat v) (bl.fills b x)
      ∙ append_assoc (buf_bytes x) b (concat v)

  gathered_lem : (v : List Bytes) (n : ℕ) → buf_bytes (put_each v (with_capacity n)) ≡ concat v
  gathered_lem v n = put_each_lem v (with_capacity n) ∙ ap (λ t. t ++ concat v) (bl.fresh n)

  -- The new buffer has the length of the image, so that the assertion holds.
  gather_ram_lem :
      (v : List Bytes) (i : BodyImage)
      → i.len ≡ length (concat v)
      → gather_ram v i ≡ (ok tt, record i { state = ImageState.ram (concat v ∷ []) })
  gather_ram_lem v i l = rw (gathered_lem v i.len, l, ==_refl (length (concat v))) refl

  state-Gathered :
      (s : ImageState) (n : ℕ) (b : Bytes)
      → ImageStateHolds s b
      → n ≡ length b
      → let i : BodyImage = record { state = s; len = n } in
        (i' : BodyImage) × (gather i ≡ (ok tt, i')) × ImageHolds i' b × Gathered s b i i'
  unfolding gather reader
  state-Gathered (ImageState.ram []) n b h l =
      (_, refl, record { state = h; len = l }, ap contiguous h)
  state-Gathered (ImageState.ram (x ∷ [])) n b h l =
      (_, refl, record { state = h; len = l }, ap contiguous (sym (append-nil x) ∙ h))
  state-Gathered (ImageState.ram (x ∷ y ∷ v)) n b h l =
      let whole : Bytes = concat (x ∷ y ∷ v) in
      (
        record { state = ImageState.ram (whole ∷ []); len = n },
        rw (lt→ltb 1 (suc (suc (length v))) (omega arith)) (
            gather_ram_lem (x ∷ y ∷ v) (record { state = ImageState.ram (x ∷ y ∷ v); len = n })
              (l ∙ ap length (sym h))),
        record { state = append-nil whole ∙ h; len = l },
        ap contiguous h,
      )
  state-Gathered (ImageState.fs_read f) n b h l = (_, refl, record { state = h; len = l }, refl)
  state-Gathered (ImageState.fs_read_slice r) n b h l = absurd h
  state-Gathered (ImageState.mem_map m) n b h l = absurd h

  -- For an image that holds `b` in RAM or in a file wound back: `gather` succeeds, and the image
  -- still holds `b`. If it was in RAM, its reader is then the one contiguous buffer `b`; if not,
  -- the image is unchanged.
  pub gather-Gathered :
      (i : BodyImage) (b : Bytes)
      → ImageHolds i b
      → (i' : BodyImage) × (gather i ≡ (ok tt, i')) × ImageHolds i' b × Gathered i.state b i i'
  gather-Gathered i b h = state-Gathered i.state i.len b h.state h.len
