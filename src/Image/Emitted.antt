-- ===== src/Image/Emitted.antt =====
-- What `write_to` gives an output, from an image in RAM or in a file.
use body_image.Common.{
  ℕ, ◌<◌, ◌≡◌, sym, ap, ◌∙◌, [], ◌∷◌, ◌++◌, List, length, concat, append-nil, append_assoc,
}
use body_image.Common.Post.{After, continue-After, convert-After}
use body_image.Io.{Bytes, IoError, File, Write}
use body_image.Io.Laws.{Serves, reads_left}
use body_image.Io.Copied.{Appends, copy-After}
use body_image.Storage.{Storage}
use body_image.Image.Errors.{BodyError, io}
use body_image.Image.State.{ImageState, BodyImage, write_bufs, write_state, write_to}
use body_image.Image.Prepared.{ImageHolds, ImageStateHolds}

-- Of the errors of a body, those that an input or an output excuses.
abbrev pub Excused : (IoError → Type 0) → BodyError → Type 0
Excused P (io e) = P e
Excused P _ = ⊥

module _ {W : Type 0} (P : IoError → Type 0) (wr : Write W) (ap' : Appends P wr) where
  open ap' use {holds, appends}

  pub write_bufs-After :
      ⦃st : Storage⦄ (v : List Bytes) (c : Bytes) (w : W)
      → holds w c
      → After P ⊥ (λ _ w'. holds w' (c ++ concat v)) (write_bufs wr v w).0 (write_bufs wr v w).1
  unfolding write_bufs
  write_bufs-After [] c w h = rw append-nil h
  write_bufs-After (b ∷ v) c w h =
      continue-After P ⊥ (λ _ t. holds t (c ++ b)) (λ _ t. holds t (c ++ (b ++ concat v))) _ _ _
        (appends b c w h)
        (λ _ t k. rw (← append_assoc c b (concat v)) (write_bufs-After v (c ++ b) t k))

  module _ ⦃st : Storage⦄ (sv : Serves P st.pos_read)
      (whole : (f : File) → sv.view (st.pos_new f (length f.content)) ≡ f.content) where
    -- The calls of `read` that an image takes, at most.
    abbrev pub reads : ImageState → ℕ → ℕ
    reads (ImageState.fs_read f) n = reads_left sv (st.pos_new f n)
    reads _ n = 0

    state-After :
        (fuel n : ℕ) (s : ImageState) (b c : Bytes) (w : W)
        → ImageStateHolds s b
        → n ≡ length b
        → holds w c
        → reads s n < fuel
        → After P ⊥
            (λ _ w'. holds w' (c ++ b))
            (write_state wr fuel s n w).0
            (write_state wr fuel s n w).1
    state-After fuel n (ImageState.ram v) b c w e l h lt = rw (← e) (write_bufs-After v c w h)
    state-After fuel n (ImageState.fs_read f) b c w e l h lt =
        let shown : sv.view (st.pos_new f n) ≡ b =
          ap (λ k. sv.view (st.pos_new f k)) (l ∙ ap length (sym e.0)) ∙ whole f ∙ e.0 in
        rw (← shown) (copy-After P st.pos_read sv wr ap' fuel (st.pos_new f n) c w lt h)
    state-After fuel n (ImageState.fs_read_slice r) b c w e l h lt = absurd e
    state-After fuel n (ImageState.mem_map m) b c w e l h lt = absurd e

    -- For an image that holds `b` in RAM or in a file wound back, where a reader of a whole file
    -- serves the content of the file, and with fuel for all its calls of `read`: `write_to` ends.
    -- It returns the length of `b` and the output, which appends, has taken `b` behind what it
    -- held; or it fails by an error of the file or of the output, and never panics.
    pub write_to-After :
        (fuel : ℕ) (i : BodyImage) (b c : Bytes) (w : W)
        → ImageHolds i b
        → holds w c
        → reads i.state i.len < fuel
        → After
            (Excused P)
            ⊥
            (λ n w'. (n ≡ length b) × holds w' (c ++ b))
            (write_to wr fuel i w).0
            (write_to wr fuel i w).1
    unfolding write_to
    write_to-After fuel i b c w r h lt =
        continue-After (Excused P) ⊥ (λ _ t. holds t (c ++ b))
          (λ n w'. (n ≡ length b) × holds w' (c ++ b)) _ _ _
          (convert-After P ⊥ (Excused P) (λ _ t. holds t (c ++ b)) io (λ e k. k) _ _
            (state-After fuel i.len i.state b c w r.state r.len h lt))
          (λ _ t k. (r.len, k))
