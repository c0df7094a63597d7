-- ===== src/Barc/Write/Bodies.antt =====
-- A header block and a body in RAM, as they are appended with their padding.
use body_image.Common.{
  ℕ, suc, ◌+◌, ◌^◌, ◌≤◌, ◌<◌, ◌≡◌, refl, sym, ◌∙◌, ascii, le→leb, lt→ltb, Bool, true, false, List,
  [], ◌∷◌, ◌++◌, length, length-append, concat, arith,
}
use body_image.Common.Post.{After, continue-After, After-mono, convert-After}
use body_image.Io.{Bytes, IoError, Write}
use body_image.Storage.{Storage}
use body_image.Io.Copied.{Appends}
use body_image.Image.{BodyImage, ImageState, BodyError, write_state, write_to}
use body_image.Image.Emitted.{write_bufs-After}
use body_image.Barc.Errors.{body}
use body_image.Barc.Types.{v2_max_hblock}
use body_image.Barc.Compress.{len_of_headers}
use body_image.Barc.Write.{crlf, write_headers, write_body}
use body_image.Barc.Write.Blocks.{Io, header_lines, padded, Took, write_entries-After, pad-After}

pub length-padded :
    (x : Bool) (b : Bytes) → (length b ≤ length (padded x b)) × (length (padded x b) ≤ length b + 2)
length-padded false b = (omega arith, omega arith)
length-padded true [] = (omega arith, omega arith)
length-padded true (y ∷ b) =
    rw (lt→ltb 0 (suc (length b)) (omega arith))
      (omega (arith, length-append b crlf), omega (arith, length-append b crlf))

-- A body in RAM, and its bytes.
abbrev pub RamHolds : ⦃st : Storage⦄ → ImageState → Bytes → Type 0
RamHolds (ImageState.ram v) b = concat v ≡ b
RamHolds _ b = ⊥

pub record InRam ⦃st : Storage⦄ (i : BodyImage) (b : Bytes) : Type 0 where
  pub state : RamHolds i.state b
  pub len : i.len ≡ length b

module _ {W : Type 0} (P : IoError → Type 0) (wr : Write W) (ap' : Appends P wr) where
  open ap' use {holds, appends}

  -- A header block within its limit is appended line by line, with its padding, and its length is
  -- returned.
  pub write_headers-After :
      (x : Bool) (hs : List (Bytes × Bytes)) (c : Bytes) (w : W)
      → holds w c
      → length (padded x (header_lines hs)) ≤ v2_max_hblock
      → After
          (Io P)
          ⊥
          (Took P wr ap' c (padded x (header_lines hs)))
          (write_headers wr x hs w).0
          (write_headers wr x hs w).1
  unfolding write_headers
  write_headers-After x hs c w h fits =
      let lines : Bytes = header_lines hs in
      let Q : ℕ → W → Type 0 = Took P wr ap' c (padded x lines) in
      let bound = length-padded x lines in
      continue-After (Io P) ⊥ (Took P wr ap' c lines) Q _ _ _
        (After-mono (Io P) ⊥ (λ n t. (n ≡ 0 + length lines) × holds t (c ++ lines))
          (Took P wr ap' c lines) _ _
          (write_entries-After P wr ap' hs 0 c w h (omega (arith, bound.0)))
          (λ n t q. (omega (arith, q.0), q.1)))
        (λ n t q. rw (q.0) (
          continue-After (Io P) ⊥ Q Q _ _ _
            (pad-After P wr ap' x lines c t (q.1) (omega (arith, bound.0)))
            (λ m u p. rw (le→leb m v2_max_hblock (omega (arith, p.0))) p)))

  write_state-After :
      ⦃st : Storage⦄ (fuel : ℕ) (s : ImageState) (n : ℕ) (b c : Bytes) (w : W)
      → RamHolds s b
      → holds w c
      → After P ⊥
          (λ _ w'. holds w' (c ++ b))
          (write_state wr fuel s n w).0
          (write_state wr fuel s n w).1
  write_state-After fuel (ImageState.ram v) n b c w e h =
      rw (← e) (write_bufs-After P wr ap' v c w h)
  write_state-After fuel (ImageState.fs_read f) n b c w e h = absurd e
  write_state-After fuel (ImageState.fs_read_slice r) n b c w e h = absurd e
  write_state-After fuel (ImageState.mem_map m) n b c w e h = absurd e

  -- A body in RAM is appended buffer by buffer, with its padding, and its length is returned.
  pub write_body-After :
      ⦃st : Storage⦄ (fuel : ℕ) (x : Bool) (i : BodyImage) (b c : Bytes) (w : W)
      → InRam i b
      → holds w c
      → length b + 2 < 2 ^ 64
      → After
          (Io P)
          ⊥
          (Took P wr ap' c (padded x b))
          (write_body wr fuel x i w).0
          (write_body wr fuel x i w).1
  unfolding write_body write_to
  write_body-After fuel x i b c w r h fits =
      let Q : ℕ → W → Type 0 = Took P wr ap' c b in
      let Q' : ℕ → W → Type 0 = Took P wr ap' c (padded x b) in
      let Fails : BodyError → Type 0 = λ e. Io P (body e) in
      continue-After (Io P) ⊥ Q Q' _ _ _
        (convert-After Fails ⊥ (Io P) Q body (λ e k. k) _ _
          (continue-After Fails ⊥ (λ _ t. holds t (c ++ b)) Q _ _ _
            (convert-After P ⊥ Fails (λ _ t. holds t (c ++ b)) BodyError.io (λ e k. k) _ _
              (write_state-After fuel i.state i.len b c w r.state h))
            (λ _ t k. (r.len, k))))
        (λ n t q. rw (q.0) (pad-After P wr ap' x b c t (q.1) fits))

len_of_headers_lem : (hs : List (Bytes × Bytes)) → len_of_headers hs ≡ length (header_lines hs)
unfolding len_of_headers
len_of_headers_lem [] = refl
len_of_headers_lem ((key, value) ∷ rest) = omega (
  arith,
  length-append key (ascii ": " ++ (value ++ (crlf ++ header_lines rest))),
  length-append value (crlf ++ header_lines rest),
  len_of_headers_lem rest,
)

module _ {W : Type 0} (P : IoError → Type 0) (wr : Write W) (ap' : Appends P wr) where
  open ap' use {holds}

  -- To an output that appends, `write_headers` without padding returns what `len_of_headers`
  -- counts, of a header block within the limit; it fails only by an error of the output.
  pub write_headers-len_of_headers :
      (hs : List (Bytes × Bytes)) (c : Bytes) (w : W)
      → holds w c
      → len_of_headers hs ≤ v2_max_hblock
      → After
          (Io P)
          ⊥
          (λ n _. n ≡ len_of_headers hs)
          (write_headers wr false hs w).0
          (write_headers wr false hs w).1
  write_headers-len_of_headers hs c w h fits =
      let e = len_of_headers_lem hs in
      After-mono (Io P) ⊥ (Took P wr ap' c (header_lines hs)) (λ n _. n ≡ len_of_headers hs) _ _
        (write_headers-After P wr ap' false hs c w h (omega (arith, e))) (λ n t k. k.0 ∙ sym e)
