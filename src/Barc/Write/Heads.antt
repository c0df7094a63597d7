-- ===== src/Barc/Write/Heads.antt =====
-- The head of a record on a file: reserved behind it, and completed when the record is written.
use body_image.Common.{
  ℕ, ◌+◌, ◌-◌, ◌≡◌, refl, sym, ◌∙◌, le→leb, ==_refl, Bool, true, false, ◌++◌, length, length-append,
  if◌then◌else◌, Outcome, arith, Done, map_err,
}
use body_image.Common.Post.{After, continue-After, convert-After}
use body_image.Io.{Bytes, IoError, File, file_write}
use body_image.Io.Seeking.{
  StandsAt, seek_start-After, seek_end-After, stream_position-After, file_flush-After,
  write_over-After, append-After,
}
use body_image.Barc.Errors.{io}
use body_image.Barc.Types.{RecordHead, v2_head_size, v2_reserve_head}
use body_image.Barc.Format.{format_head}
use body_image.Barc.Format.RoundTrip.{InRange, InRange→in_range, length-format_head}
use body_image.Barc.Head.{write_record_head}
use body_image.Barc.Head.Reading.{write_record_head_lem}
use body_image.Barc.Write.{is_plain, complete_head}
use body_image.Barc.Write.Blocks.{Io}

pub reserve-InRange : InRange v2_reserve_head
reserve-InRange = omega arith

-- After a call with a result of no interest, the file holds `c` and stands at `q`.
abbrev pub Stands : (IoError → Type 0) → ℕ → Bytes → Done → File → Type 0
Stands P q c _ g = StandsAt P g q c

-- After a call that returns `a`, the file holds `c` and stands at `q`.
abbrev pub Gives : {A : Type 0} → (IoError → Type 0) → A → ℕ → Bytes → A → File → Type 0
Gives P a q c b g = (b ≡ a) × StandsAt P g q c

module _ (P : IoError → Type 0) where
  -- Behind a file, and over a line in its middle.
  pub append_head-After :
      (h : RecordHead) (c : Bytes) (f : File)
      → InRange h
      → StandsAt P f (length c) c
      → let (r, g) = write_record_head file_write h f in
        After
          (Io P)
          ⊥
          (λ _ g'. StandsAt P g' (length (c ++ format_head h)) (c ++ format_head h))
          r
          g
  append_head-After h c f r k =
      rw (write_record_head_lem file_write h f, InRange→in_range h r)
        (convert-After P ⊥ (Io P) (Stands P (length (c ++ format_head h)) (c ++ format_head h)) io
          (λ e x. x) _ _ (append-After P (format_head h) c f k))

  rewrite_head-After :
      (h : RecordHead) (c old rest : Bytes) (f : File)
      → InRange h
      → length old ≡ v2_head_size
      → StandsAt P f (length c) (c ++ (old ++ rest))
      → let (r, g) = write_record_head file_write h f in
        After
          (Io P)
          ⊥
          (λ _ g'. StandsAt P g' (length c + length (format_head h)) (c ++ (format_head h ++ rest)))
          r
          g
  rewrite_head-After h c old rest f r e k =
      rw (write_record_head_lem file_write h f, InRange→in_range h r)
        (convert-After P ⊥ (Io P)
          (Stands P (length c + length (format_head h)) (c ++ (format_head h ++ rest))) io
          (λ e x. x) _ _
          (write_over-After P c old (format_head h) rest f (e ∙ sym (length-format_head h r)) k))

either_true : (b : Bool) → (if b then true else true) ≡ true
either_true true = refl
either_true false = refl

-- The error conversion of a call on the file.
pub convert_io :
    {A : Type 0} (P : IoError → Type 0) (Q : A → File → Type 0) (r : Outcome IoError A) (f : File)
    → After P ⊥ Q r f
    → After (Io P) ⊥ Q (map_err io r) f
convert_io P Q r f h = convert-After P ⊥ (Io P) Q io (λ e x. x) r f h

-- The head that was reserved is replaced by the one of the record, whose length is what was written.
module _ (P : IoError → Type 0) (H : RecordHead) (c old rest : Bytes) where
  abbrev pub new : Bytes
  new = c ++ (format_head H ++ rest)

  abbrev pub DoneFile : ℕ → File → Type 0
  DoneFile = Gives P (length c) (length new) new

  pub complete_head-After :
      (f : File)
      → InRange H
      → H.len ≡ length rest
      → length old ≡ v2_head_size
      → StandsAt P f (length (c ++ (old ++ rest))) (c ++ (old ++ rest))
      → After (Io P) ⊥ DoneFile (complete_head (length c) H f).0 (complete_head (length c) H f).1
  unfolding complete_head
  complete_head-After f r len e k =
      let all : ℕ = length (c ++ (old ++ rest)) in
      let size : all ≡ length c + (v2_head_size + length rest) =
        omega (arith, length-append c (old ++ rest), length-append old rest, e) in
      continue-After (Io P) ⊥ (Gives P all all (c ++ (old ++ rest))) DoneFile _ _ _
        (convert_io P (Gives P all all (c ++ (old ++ rest))) _ _
          (stream_position-After P all (c ++ (old ++ rest)) f k))
        (λ end f1 k1.
          let l : end - length c - v2_head_size ≡ H.len = omega (arith, k1.0, size, len) in
          rw
            (
              le→leb (length c + v2_head_size) end (omega (arith, k1.0, size)),
              l,
              ==_refl H.len,
              either_true (is_plain H.compress),
            )
            (continue-After (Io P) ⊥ (Gives P (length c) (length c) (c ++ (old ++ rest))) DoneFile _
              _ _
              (convert_io P (Gives P (length c) (length c) (c ++ (old ++ rest))) _ _
                (seek_start-After P (length c) all (c ++ (old ++ rest)) f1 (k1.1)))
              (λ n f2 k2.
                continue-After (Io P) ⊥ (Stands P (length c + length (format_head H)) new) DoneFile
                  _ _ _ (rewrite_head-After P H c old rest f2 r e (k2.1))
                  (λ d f3 k3.
                    continue-After (Io P) ⊥ (Gives P (length new) (length new) new) DoneFile _ _ _
                      (convert_io P (Gives P (length new) (length new) new) _ _
                        (seek_end-After P _ new f3 k3))
                      (λ m f4 k4.
                        continue-After (Io P) ⊥ (Stands P (length new) new) DoneFile _ _ _
                          (convert_io P (Stands P (length new) new) _ _
                            (file_flush-After P (length new) new f4 (k4.1)))
                          (λ d f5 k5. (refl, k5)))))))
