-- ===== src/Barc/Head.antt =====
-- The record head of barc/src/lib.rs: how it is written and read.
pub mod Reading
use body_image.Common.{
  ℕ, zero, suc, ◌+◌, ◌-◌, ◌==◌, leb, if◌then◌else◌, Bool, true, false, [], ◌∷◌, ◌++◌, length,
  Option, none, some, Done, Outcome, ok, err, panic, hang, assert, map_ok,
}
use body_image.Common.Exec.{Exec, ◌>>=◌, ◌>>◌, pure, lift, convert}
use body_image.Io.{Bytes, IoError, interrupted, Read, Write}
use body_image.Barc.Errors.{BarcError, io, read_incomplete_rec_head}
use body_image.Barc.Types.{RecordHead, v2_head_size, v2_max_record, v2_max_hblock, v2_max_req_body}
use body_image.Barc.Format.{format_head, parse_head}

-- `write_all_len`: the bytes are written, and their number is returned.
module _ {W : Type 0} (wr : Write W) where
  open wr use {write_all}

  unfoldable pub write_all_len : Bytes → Exec W BarcError ℕ
  write_all_len bs = convert io (write_all bs) >>= λ _. pure (length bs)

  unfoldable pub write_record_head : RecordHead → Exec W BarcError Done
  write_record_head h = do
    lift (assert (leb h.len v2_max_record))
    lift (assert (leb h.meta v2_max_hblock))
    lift (assert (leb h.req_h v2_max_hblock))
    lift (assert (leb h.req_b v2_max_req_body))
    lift (assert (leb h.res_h v2_max_hblock))
    size ← write_all_len (format_head h)
    lift (assert (size == v2_head_size))

-- What `read_record_head` makes of the bytes that it read.
abbrev pub head_of : Bytes → Outcome BarcError (Option RecordHead)
head_of buf =
    let size = length buf in
    if size == 0
    then ok none
    else if size == v2_head_size
    then map_ok some (parse_head buf)
    else err (read_incomplete_rec_head size)

module _ {R : Type 0} (rd : Read R) where
  open rd use {read}

  -- One round of `read_record_head_buf` after its call of `read`; `got` is what the buffer holds
  -- before it, and `go` the next round.
  abbrev pub head_next :
      (Bytes → Exec R BarcError Bytes) → Bytes → Outcome IoError Bytes → Exec R BarcError Bytes
  head_next go got (ok []) r = (ok got, r)
  head_next go got (ok (b ∷ bs)) r =
      let got' = got ++ b ∷ bs in if leb v2_head_size (length got') then (ok got', r) else go got' r
  head_next go got (err interrupted) r = go got r
  head_next go got (err e) r = (err (io e), r)
  head_next go got panic r = (panic, r)
  head_next go got hang r = (hang, r)

  -- `read_record_head_buf`: the bytes that it read, whose number it returns. The fuel counts the
  -- calls of `read`.
  unfoldable pub read_record_head_buf : ℕ → Bytes → Exec R BarcError Bytes
  read_record_head_buf zero got r = (hang, r)
  read_record_head_buf (suc fuel) got r =
      let (res, r') = read (v2_head_size - length got) r in
      head_next (read_record_head_buf fuel) got res r'

  unfoldable pub read_record_head : ℕ → Exec R BarcError (Option RecordHead)
  unfolding read_record_head_buf parse_head
  read_record_head fuel = read_record_head_buf fuel [] >>= λ buf. lift (head_of buf)
