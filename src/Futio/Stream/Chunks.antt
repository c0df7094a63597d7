-- ===== src/Futio/Stream/Chunks.antt =====
-- The loop of a stream over the reads of a file.
use body_image.Common.{
  ℕ, zero, suc, ◌<◌, ◌≤◌, ◌≡◌, sym, ◌∙◌, [], ◌++◌, length, Outcome, ok, err, panic, hang, arith,
}
use body_image.Io.{Bytes, IoError, interrupted, unexpected_eof, invalid_input, other}
use body_image.Io.Laws.{Answers, Serves}
use body_image.Storage.{Storage}
use body_image.Futio.Stream.{chunk_next, read_chunk}

module _ ⦃st : Storage⦄ (P : IoError → Type 0) (sv : Serves P st.slice_read) where
  open st use {ReadSlice}
  open sv use {view, waits}

  -- What the loop leaves of a slice.
  abbrev pub Chunk : ReadSlice → ℕ → Outcome IoError Bytes → ReadSlice → Type 0
  Chunk rs n (ok b) rs' =
      (view rs ≡ b ++ view rs') × (length b ≤ n) × (b ≡ [] → view rs ≡ []) × (waits rs' ≤ waits rs)
  Chunk rs n (err e) rs' = P e
  Chunk rs n panic rs' = ⊥
  Chunk rs n hang rs' = ⊥

  Chunk-before :
      (rs rs' : ReadSlice) (n : ℕ) (r : Outcome IoError Bytes) (rs'' : ReadSlice)
      → view rs' ≡ view rs
      → waits rs' < waits rs
      → Chunk rs' n r rs''
      → Chunk rs n r rs''
  Chunk-before rs rs' n (ok b) rs'' v w (e, l, z, k) = (sym v ∙ e, l, λ n. sym v ∙ z n, omega arith)
  Chunk-before rs rs' n (err e) rs'' v w h = h
  Chunk-before rs rs' n panic rs'' v w h = h
  Chunk-before rs rs' n hang rs'' v w h = h

  chunk_next-Chunk :
      (fuel n : ℕ) (rs : ReadSlice) (r : Outcome IoError Bytes) (rs' : ReadSlice)
      → ((t : ReadSlice)
          → waits t < fuel
          → Chunk t n (read_chunk fuel n t).0 (read_chunk fuel n t).1)
      → Answers P view waits n rs r rs'
      → waits rs < suc fuel
      → let (q, rs'') = chunk_next (read_chunk fuel n) r rs' in Chunk rs n q rs''
  chunk_next-Chunk fuel n rs (ok b) rs' ih a lt = a
  chunk_next-Chunk fuel n rs (err interrupted) rs' ih a lt =
      Chunk-before rs rs' n _ _ (a.0) (a.1) (ih rs' (omega (arith, a.1)))
  chunk_next-Chunk fuel n rs (err unexpected_eof) rs' ih a lt = a
  chunk_next-Chunk fuel n rs (err invalid_input) rs' ih a lt = a
  chunk_next-Chunk fuel n rs (err (other k)) rs' ih a lt = a
  chunk_next-Chunk fuel n rs panic rs' ih a lt = a
  chunk_next-Chunk fuel n rs hang rs' ih a lt = a

  -- Fuel for one read more than there can be interrupts is enough.
  pub read_chunk-Chunk :
      (fuel n : ℕ) (rs : ReadSlice)
      → 0 < n
      → waits rs < fuel
      → Chunk rs n (read_chunk fuel n rs).0 (read_chunk fuel n rs).1
  unfolding read_chunk
  read_chunk-Chunk zero n rs pos lt = absurd (omega arith)
  read_chunk-Chunk (suc fuel) n rs pos lt =
      chunk_next-Chunk fuel n rs _ _ (λ t l. read_chunk-Chunk fuel n t pos l) (sv.answers n rs pos)
        lt
