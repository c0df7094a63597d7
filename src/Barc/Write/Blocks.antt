-- ===== src/Barc/Write/Blocks.antt =====
-- The blocks of a record, as they are appended to any output.
use body_image.Common.{
  ℕ, suc, ◌+◌, ◌^◌, ◌<◌, ◌≡◌, refl, ltb, lt→ltb, if◌then◌else◌, Bool, true, false, ◌&&◌, u64, List,
  [], ◌∷◌, ◌++◌, length, length-append, append-nil, append_assoc, ascii, arith,
}
use body_image.Common.Exec.{Exec, continue}
use body_image.Common.Post.{After, continue-After, After-mono, convert-After}
use body_image.Io.{Bytes, IoError, Write}
use body_image.Io.Copied.{Appends}
use body_image.Image.{BodyError}
use body_image.Barc.Errors.{BarcError, body, io}
use body_image.Barc.Head.{write_all_len}
use body_image.Barc.Write.{crlf, write_entries, pad}

-- The errors of writing a record: those of the output.
abbrev pub Io : (IoError → Type 0) → BarcError → Type 0
Io P (io e) = P e
Io P (body (BodyError.io e)) = P e
Io P _ = ⊥

-- The lines of a header block, and a block with its padding.
abbrev pub header_lines : List (Bytes × Bytes) → Bytes
header_lines [] = []
header_lines ((key, value) ∷ rest) = key ++ (ascii ": " ++ (value ++ (crlf ++ header_lines rest)))

abbrev pub padded : Bool → Bytes → Bytes
padded with_crlf b = if with_crlf && ltb 0 (length b) then b ++ crlf else b

module _ {W : Type 0} (P : IoError → Type 0) (wr : Write W) (ap' : Appends P wr) where
  open ap' use {holds, appends}

  -- `n` bytes, those of `b`, were appended to `c`.
  abbrev pub Took : Bytes → Bytes → ℕ → W → Type 0
  Took c b n w = (n ≡ length b) × holds w (c ++ b)

  -- The same on top of a size counted before.
  abbrev Counted : ℕ → Bytes → Bytes → ℕ → W → Type 0
  Counted size c b n w = (n ≡ size + length b) × holds w (c ++ b)

  write_all_len-After :
      (b c : Bytes) (w : W)
      → holds w c
      → After (Io P) ⊥ (Took c b) (write_all_len wr b w).0 (write_all_len wr b w).1
  unfolding write_all_len
  write_all_len-After b c w h =
      continue-After (Io P) ⊥ (λ _ w'. holds w' (c ++ b)) (Took c b) _ _ _
        (convert-After P ⊥ (Io P) (λ _ w'. holds w' (c ++ b)) io (λ e k. k) _ _ (appends b c w h))
        (λ _ t k. (refl, k))

  -- The next piece `b` of an output that holds `c`, and what follows it.
  then_write :
      {A : Type 0} (Q : A → W → Type 0) (b c : Bytes) (f : ℕ → Exec W BarcError A) (w : W)
      → holds w c
      → ((t : W) → holds t (c ++ b) → After (Io P) ⊥ Q (f (length b) t).0 (f (length b) t).1)
      → let (r, w') = continue (write_all_len wr b w).0 f (write_all_len wr b w).1 in
        After (Io P) ⊥ Q r w'
  then_write Q b c f w h k =
      continue-After (Io P) ⊥ (Took c b) Q _ f _ (write_all_len-After b c w h)
        (λ n t q. rw (q.0) (k t (q.1)))

  pub write_entries-After :
      (hs : List (Bytes × Bytes)) (size : ℕ) (c : Bytes) (w : W)
      → holds w c
      → size + length (header_lines hs) < 2 ^ 64
      → After
          (Io P)
          ⊥
          (Counted size c (header_lines hs))
          (write_entries wr hs size w).0
          (write_entries wr hs size w).1
  unfolding write_entries
  write_entries-After [] size c w h fits = rw append-nil (omega arith, h)
  write_entries-After ((key, value) ∷ rest) size c w h fits =
      let len : length (header_lines ((key, value) ∷ rest))
          ≡ length key + (2 + (length value + (2 + length (header_lines rest)))) =
        omega (
          arith,
          length-append key (ascii ": " ++ (value ++ (crlf ++ header_lines rest))),
          length-append value (crlf ++ header_lines rest),
        ) in
      let join : ((((c ++ key) ++ ascii ": ") ++ value) ++ crlf) ++ header_lines rest
          ≡ c ++ header_lines ((key, value) ∷ rest) =
        simp (append_assoc) in
      let size' : ℕ = u64 (size + length key + length (ascii ": ") + length value + length crlf) in
      then_write _ key c _ w h (λ w1 h1. then_write _ (ascii ": ") (c ++ key) _ w1 h1 (λ w2 h2.
        then_write _ value ((c ++ key) ++ ascii ": ") _ w2 h2 (λ w3 h3.
          then_write _ crlf (((c ++ key) ++ ascii ": ") ++ value) _ w3 h3 (λ w4 h4.
            After-mono (Io P) ⊥
              (Counted size' ((((c ++ key) ++ ascii ": ") ++ value) ++ crlf) (header_lines rest))
              (Counted size c (header_lines ((key, value) ∷ rest))) _ _
              (write_entries-After rest size' _ w4 h4 (omega (arith, len)))
              (λ n t q. (omega (arith, len, q.0), rw (← join) (q.1)))))))

  pub pad-After :
      (with_crlf : Bool) (b c : Bytes) (w : W)
      → holds w (c ++ b)
      → length b + 2 < 2 ^ 64
      → After
          (Io P)
          ⊥
          (Took c (padded with_crlf b))
          (pad wr with_crlf (length b) w).0
          (pad wr with_crlf (length b) w).1
  unfolding pad
  pad-After false b c w h fits = (refl, h)
  pad-After true [] c w h fits = (refl, h)
  pad-After true (x ∷ b) c w h fits = rw (lt→ltb 0 (suc (length b)) (omega arith)) (
      then_write (Took c ((x ∷ b) ++ crlf)) crlf (c ++ (x ∷ b)) _ w h
        (λ t k. (omega (arith, length-append b crlf), rw (← append_assoc c (x ∷ b) crlf) k)))
