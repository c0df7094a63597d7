-- ===== src/Barc/Read/Blocks.antt =====
-- What was written as a block or as a body is read back.
use body_image.Common.{
  ℕ, suc, ◌+◌, ◌-◌, ◌^◌, ◌≤◌, ◌<◌, ◌≡◌, refl, ap, ◌∙◌, ltb, lt→ltb, ==_ne, if◌then◌else◌, Bool,
  true, false, not, ◌||◌, u64, List, [], ◌∷◌, ◌++◌, length, length-append, take, take_front,
  take_all, append-nil, Outcome, ok, err, panic, hang, ◌≢◌, ascii, arith, map_err,
}
use body_image.Common.Exec.{continue, lift, convert, ◌>>=◌}
use body_image.Common.Post.{After, continue-After, convert-After}
use body_image.Io.{Bytes, IoError, Read, read_exact}
use body_image.Io.Laws.{Serves, reads_left}
use body_image.Io.Exact.{read_exact-Took}
use body_image.Storage.{Storage}
use body_image.Image.{BodyImage, empty, ImageState, from_slice, push, with_ram_buffers, prepare}
use body_image.Barc.Errors.{body, io}
use body_image.Barc.Recorded.{Http}
use body_image.Barc.Write.{crlf}
use body_image.Barc.Write.Blocks.{Io, padded, header_lines}
use body_image.Barc.Write.Bodies.{InRam, length-padded}
use body_image.Barc.Read.{read_headers, read_body_ram, parse_headers}

from_slice-InRam :
    ⦃st : Storage⦄ (y : ℕ) (b : Bytes)
    → length (y ∷ b) < 2 ^ 64
    → (i : BodyImage) × (from_slice (y ∷ b) ≡ ok i) × InRam i (y ∷ b)
unfolding from_slice push with_ram_buffers prepare
from_slice-InRam y b fits =
    let some_left = lt→ltb 0 (suc (length b)) (omega arith) in
    let size : u64 (0 + suc (length b)) ≡ suc (length b) = omega arith in
    (
      record { state = ImageState.ram ((y ∷ b) ∷ []); len = length (y ∷ b) },
      rw (from_slice, some_left, push, some_left, size) refl,
      record { state = append-nil (y ∷ b); len = refl },
    )

-- The length of a padded body that is not empty passes the assertion, and cutting it gives the
-- body back.
padded_cut :
    (x : Bool) (y : ℕ) (b : Bytes)
    → let w = padded x (y ∷ b) in
      ((not x || ltb 2 (length w)) ≡ true) × (take (if x then length w - 2 else length w) w ≡ y ∷ b)
padded_cut false y b = (refl, take_all (length (y ∷ b)) (y ∷ b) (omega arith))
padded_cut true y b =
    let all : length ((y ∷ b) ++ crlf) ≡ length (y ∷ b) + 2 = length-append (y ∷ b) crlf in
    rw (lt→ltb 0 (suc (length b)) (omega arith))
      (lt→ltb 2 _ (omega (arith, all)), take_front _ (y ∷ b) crlf (omega (arith, all)))

module _ (P : IoError → Type 0) {R : Type 0} (rd : Read R) (sv : Serves P rd) where
  open sv use {view, waits}

  -- The reader is left at `rest`, with no more interruptions to come than `w`, and `Q` holds of
  -- the result.
  abbrev pub At : {A : Type 0} → (A → Type 0) → Bytes → ℕ → A → R → Type 0
  At Q rest w a r = Q a × (view r ≡ rest) × (waits r ≤ w)

  read_body_ram_zero :
      ⦃st : Storage⦄ (fuel : ℕ) (x : Bool) (r : R) → read_body_ram rd fuel x 0 r ≡ (ok empty, r)
  unfolding read_body_ram
  read_body_ram_zero fuel x r = refl

  read_body_ram_lem :
      ⦃st : Storage⦄ (fuel : ℕ) (x : Bool) (n : ℕ) (r : R)
      → 0 < n
      → (not x || ltb 2 n) ≡ true
      → read_body_ram rd fuel x n r
        ≡ (convert io (read_exact rd fuel n []) >>= λ buf.
              lift (map_err body (from_slice (take (if x then n - 2 else n) buf))))
            r
  unfolding read_body_ram
  read_body_ram_lem fuel x n r pos passes = rw (read_body_ram, ==_ne n 0 (omega arith), passes) refl

  -- A body of less than 2 ^ 64 bytes that stands with its padding before a reader, with fuel for
  -- every call of `read`, is read back into RAM, for its padded length, and the reader stands
  -- behind it; `read_body_ram` fails only by an error of the reader, and does not panic.
  pub read_body_ram-padded :
      ⦃st : Storage⦄ (fuel : ℕ) (x : Bool) (b rest : Bytes) (r : R)
      → view r ≡ padded x b ++ rest
      → reads_left sv r < fuel
      → length b < 2 ^ 64
      → After
          (Io P)
          ⊥
          (At (λ i. InRam i b) rest (waits r))
          (read_body_ram rd fuel x (length (padded x b)) r).0
          (read_body_ram rd fuel x (length (padded x b)) r).1
  read_body_ram-padded fuel false [] rest r e lt fits =
      rw (read_body_ram_zero fuel false r) (record { state = refl; len = refl }, e, omega arith)
  read_body_ram-padded fuel true [] rest r e lt fits =
      rw (read_body_ram_zero fuel true r) (record { state = refl; len = refl }, e, omega arith)
  read_body_ram-padded fuel x (y ∷ b) rest r e lt fits =
      let w : Bytes = padded x (y ∷ b) in
      let cut = padded_cut x y b in
      let (i, made, ram) = from_slice-InRam y b fits in
      let Q : BodyImage → R → Type 0 = At (λ j. InRam j (y ∷ b)) rest (waits r) in
      let T : Bytes → R → Type 0 = At (λ out. out ≡ w) rest (waits r) in
      rw (read_body_ram_lem fuel x (length w) r (omega (arith, (length-padded x (y ∷ b)).0)) cut.0)
        (continue-After (Io P) ⊥ T Q _ _ _
          (convert-After P ⊥ (Io P) T io (λ e' k. k) _ _
            (read_exact-Took P rd sv fuel (length w) [] w rest r e refl lt))
          (λ out r' k. rw (k.0, cut.1, made) (ram, k.1, k.2)))

-- The end of the block that `httparse` asks for is there with either padding.
block_end :
    (x : Bool) (b : Bytes)
    → 0 < length b
    → ◌≡◌ {A = Bytes} (if x then padded x b else padded x b ++ crlf) (b ++ crlf)
block_end false b some_left = refl
block_end true b some_left = rw (lt→ltb 0 (length b) some_left) refl

module _ {R : Type 0} (rd : Read R) (sv : Serves (λ _. ⊥) rd) where
  open sv use {view, waits}

  read_headers_lem :
      ⦃ht : Http⦄ (fuel : ℕ) (x : Bool) (n : ℕ) (r : R)
      → 2 < n
      → read_headers rd fuel x n r
        ≡ (convert io (read_exact rd fuel n []) >>= λ buf.
              lift (parse_headers (if x then buf else buf ++ crlf)))
            r
  unfolding read_headers
  read_headers_lem fuel x n r pos = rw (read_headers, ==_ne n 0 (omega arith), lt→ltb 2 n pos) refl

  headers_next :
      ⦃ht : Http⦄ (x : Bool) (w rest : Bytes) (k : ℕ) (res : Outcome IoError Bytes) (r : R)
      → After (λ _. ⊥) ⊥ (λ out r'. (out ≡ w) × (view r' ≡ rest) × (waits r' ≤ k)) res r
      → let (out, r') =
          continue
            (map_err io res)
            (λ buf. lift (parse_headers (if x then buf else buf ++ crlf)))
            r in
        (out ≡ parse_headers (if x then w else w ++ crlf)) × (view r' ≡ rest)
  headers_next x w rest k (ok buf) r h = (rw (h.0) refl, h.1)
  headers_next x w rest k (err e) r h = absurd h
  headers_next x w rest k panic r h = absurd h
  headers_next x w rest k hang r h = absurd h

  -- From a reader that does not fail, with fuel for every call of `read`, `read_headers` takes a
  -- block of at least one header in the form of `write_headers`, with its padding or without, and
  -- gives its lines and their end to `parse_headers`; the reader then stands behind the block.
  pub read_headers-padded :
      ⦃ht : Http⦄ (fuel : ℕ) (x : Bool) (hs : List (Bytes × Bytes)) (rest : Bytes) (r : R)
      → hs ≢ []
      → view r ≡ padded x (header_lines hs) ++ rest
      → reads_left sv r < fuel
      → let (out, r') = read_headers rd fuel x (length (padded x (header_lines hs))) r in
        (out ≡ parse_headers (header_lines hs ++ crlf)) × (view r' ≡ rest)
  read_headers-padded fuel x [] rest r some_left e lt = absurd (some_left refl)
  read_headers-padded fuel x ((k, v) ∷ hs) rest r some_left e lt =
      let lines : Bytes = header_lines ((k, v) ∷ hs) in
      let w : Bytes = padded x lines in
      let size : length lines ≡ length k + (2 + (length v + (2 + length (header_lines hs)))) =
        omega (
          arith,
          length-append k (ascii ": " ++ (v ++ (crlf ++ header_lines hs))),
          length-append v (crlf ++ header_lines hs),
        ) in
      let (a, b) =
        headers_next x w rest (waits r) _ _
          (read_exact-Took (λ _. ⊥) rd sv fuel (length w) [] w rest r e refl lt) in
      rw (read_headers_lem fuel x (length w) r (omega (arith, size, (length-padded x lines).0)))
        (a ∙ ap parse_headers (block_end x lines (omega (arith, size))), b)
