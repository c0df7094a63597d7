-- ===== src/Barc/Read/Reserved.antt =====
-- A record that is still being written, at the reader of the file.
use body_image.Common.{
  ℕ, ◌<◌, ◌≡◌, refl, ◌++◌, Option, none, some, Outcome, ok, err, panic, hang, arith, map_err,
}
use body_image.Common.Exec.{continue, pure}
use body_image.Io.{Bytes, IoError}
use body_image.Io.Laws.{Serves, reads_left}
use body_image.Storage.{Storage}
use body_image.Image.Tune.{Tunables}
use body_image.Barc.Errors.{io}
use body_image.Barc.Types.{v2_reserve_head}
use body_image.Barc.Recorded.{Http, Record}
use body_image.Barc.Format.{format_head}
use body_image.Barc.Format.RoundTrip.{InRange}
use body_image.Barc.Head.Reading.{read-format_head}
use body_image.Barc.Codec.{Codecs}
use body_image.Barc.Read.{read, read_next}

-- What is relied on of `ReadPos`: seeking from the start sets the position.
pub record Seeks (st : Storage) : Type 0 where
  pub seeks :
      (p : ℕ) (r : st.ReadPos)
      → ((st.pos_seek_start p r).0 ≡ ok p) × (st.tell (st.pos_seek_start p r).1 ≡ p)

module _ ⦃st : Storage⦄ ⦃cd : Codecs⦄ ⦃ht : Http⦄ (tune : Tunables) (fuel : ℕ) where
  open st use {ReadPos, pos_read, tell, pos_seek_start}

  reserved_InRange : InRange v2_reserve_head
  reserved_InRange = omega arith

  sought :
      (start : ℕ) (s : Seeks st) (r : ReadPos)
      → let (out, r') = read_next tune fuel start (some v2_reserve_head) r in
        (out ≡ ok none) × (tell r' ≡ start)
  sought start s r = go _ _ (s.seeks start r)
    where
      go :
          (res : Outcome IoError ℕ) (r' : ReadPos)
          → (res ≡ ok start) × (tell r' ≡ start)
          → let (out, r'') = continue {B = Option Record} (map_err io res) (λ _. pure none) r' in
            (out ≡ ok none) × (tell r'' ≡ start)
      go (ok n) r' h = (refl, h.1)
      go (err e) r' h = absurd (cc h.0)
      go panic r' h = cc (h.0)
      go hang r' h = cc (h.0)

  -- If seeking sets the position, and the file does not fail: at a head that a writer has only
  -- reserved, whatever stands behind it, `BarcReader::read` returns no record and is back at the
  -- position from which it started.
  pub read_reserved :
      (s : Seeks st) (sv : Serves (λ _. ⊥) pos_read) (rest : Bytes) (r : ReadPos)
      → sv.view r ≡ format_head v2_reserve_head ++ rest
      → reads_left sv r < fuel
      → let (out, r') = read tune fuel r in (out ≡ ok none) × (tell r' ≡ tell r)
  unfolding read
  read_reserved s sv rest r e lt =
      let (a, b) = read-format_head pos_read sv fuel v2_reserve_head rest r reserved_InRange e lt in
      rw a (sought (tell r) s _)
