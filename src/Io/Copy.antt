-- ===== src/Io/Copy.antt =====
-- The methods of `Read` that the library provides over `read`, and `std::io::copy`.
use body_image.Common.{
  ℕ, zero, suc, ◌-◌, [], ◌∷◌, ◌++◌, length, Done, Outcome, ok, err, panic, hang,
}
use body_image.Common.Exec.{Exec, ◌>>◌, pure, lift}
use body_image.Io.Stream.{Bytes, IoError, interrupted, unexpected_eof, Read, Write}

module _ {R : Type 0} (rd : Read R) where
  open rd use {read}

  -- One round of `read_exact` after its call of `read`; `go` is the next round, for the number of
  -- bytes that are still wanted and those that the buffer holds.
  abbrev pub exact_next :
      (ℕ → Bytes → Exec R IoError Bytes) → ℕ → Bytes → Outcome IoError Bytes → Exec R IoError Bytes
  exact_next go n got (ok []) r = (err unexpected_eof, r)
  exact_next go n got (ok (b ∷ bs)) r = go (n - length (b ∷ bs)) (got ++ b ∷ bs) r
  exact_next go n got (err interrupted) r = go n got r
  exact_next go n got (err e) r = (err e, r)
  exact_next go n got panic r = (panic, r)
  exact_next go n got hang r = (hang, r)

  -- `Read::read_exact`. The fuel counts the calls of `read`.
  unfoldable pub read_exact : ℕ → ℕ → Bytes → Exec R IoError Bytes
  read_exact fuel zero got r = (ok got, r)
  read_exact zero (suc n) got r = (hang, r)
  read_exact (suc fuel) (suc n) got r =
      let (res, r') = read (suc n) r in exact_next (read_exact fuel) (suc n) got res r'

  module _ {W : Type 0} (wr : Write W) where
    open wr use {write_all}

    -- One round of `copy` after its call of `read`.
    abbrev pub copy_next :
        (R → Exec W IoError Done) → Outcome IoError Bytes → R → Exec W IoError Done
    copy_next go (ok []) r = pure tt
    copy_next go (ok (b ∷ bs)) r = write_all (b ∷ bs) >> go r
    copy_next go (err interrupted) r = go r
    copy_next go (err e) r = lift (err e)
    copy_next go panic r = lift panic
    copy_next go hang r = lift hang

    -- `std::io::copy`, in blocks of 8 KiB; the reader is not used after it.
    unfoldable pub copy : ℕ → R → Exec W IoError Done
    copy zero r w = (hang, w)
    copy (suc fuel) r w = let (res, r') = read 0x2000 r in copy_next (copy fuel) res r' w
