-- ===== src/Image/Prepared.antt =====
-- What `prepare` and `with_fs` give.
use body_image.Common.{
  ℕ, suc, ◌≡◌, refl, [], ◌∷◌, length, concat, Outcome, ok, err, panic, hang, arith, ==_ne,
}
use body_image.Io.{Bytes, IoError, File}
use body_image.Io.Laws.{Rewound, rewind_lem}
use body_image.Storage.{Storage}
use body_image.Image.Errors.{BodyError, io}
use body_image.Image.Sink.{SinkState, BodySink}
use body_image.Image.State.{ImageState, BodyImage, prepare_state, prepare}
use body_image.Image.Content.{StateHolds, Holds}

-- A complete image: buffers in RAM, or a file that is wound back to its start.
abbrev pub ImageStateHolds : ⦃st : Storage⦄ → ImageState → Bytes → Type 0
ImageStateHolds (ImageState.ram v) b = concat v ≡ b
ImageStateHolds (ImageState.fs_read f) b = (f.content ≡ b) × (f.pos ≡ 0)
ImageStateHolds (ImageState.fs_read_slice rs) b = ⊥
ImageStateHolds (ImageState.mem_map m) b = ⊥

pub record ImageHolds ⦃st : Storage⦄ (i : BodyImage) (b : Bytes) : Type 0 where
  pub state : ImageStateHolds i.state b
  pub len : i.len ≡ length b

abbrev pub Prepared :
    ⦃st : Storage⦄ → (IoError → Type 0) → Bytes → Outcome BodyError BodyImage → Type 0
Prepared P b (ok i) = ImageHolds i b
Prepared P b (err (io e)) = P e
Prepared P b (err _) = ⊥
Prepared P b panic = ⊥
Prepared P b hang = ⊥

module _ (P : IoError → Type 0) ⦃st : Storage⦄ where
  Rewound-Prepared :
      (b : Bytes) (r : Outcome IoError ℕ) (f : File)
      → Rewound P b r f
      → Prepared P b (elim r [
        | ok _ ↦ ok (record { state = ImageState.fs_read f; len = length b })
        | err e ↦ err (io e)
        | panic ↦ panic
        | hang ↦ hang
      ])
  Rewound-Prepared b (ok _) f h = record { state = h; len = refl }
  Rewound-Prepared b (err e) f h = h
  Rewound-Prepared b panic f h = h
  Rewound-Prepared b hang f h = h

  prepare_state-Prepared :
      (t : SinkState) (b : Bytes) → StateHolds P t b → Prepared P b (prepare_state t (length b))
  prepare_state-Prepared (SinkState.ram v) b h = record { state = h; len = refl }
  prepare_state-Prepared (SinkState.fs_write f) [] h = record { state = refl; len = refl }
  prepare_state-Prepared (SinkState.fs_write f) (x ∷ b) h =
      rw (==_ne (suc (length b)) 0 (omega arith))
        (Rewound-Prepared (x ∷ b) _ _ (rewind_lem P (x ∷ b) f h.holds h.excused))

  -- For a sink that holds its bytes, `prepare` gives an image with these bytes and their number as
  -- its length, a file being wound back to its start; it fails only by an error of the file.
  pub prepare-Prepared : (s : BodySink) (b : Bytes) → Holds P s b → Prepared P b (prepare s)
  unfolding prepare
  prepare-Prepared s b h = rw (h.len) (prepare_state-Prepared s.state b h.state)
