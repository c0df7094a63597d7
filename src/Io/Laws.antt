-- ===== src/Io/Laws.antt =====
-- What the methods of `Read` promise, and the files that are written from the end on.
use body_image.Common.{
  ℕ, ◌+◌, ◌-◌, ◌≤◌, ◌<◌, ◌≡◌, refl, sym, List, [], ◌∷◌, ◌++◌, Option, none, some, length, take,
  length-append, append-nil, take_front, drop_all, Done, Outcome, ok, err, panic, hang, arith,
}
use body_image.Common.Exec.{◌>>◌, continue}
use body_image.Io.Stream.{Bytes, IoError, interrupted, Read}
use body_image.Io.FileOps.{
  attempt, Fault, File, overwrite, put_bytes, file_write_all, file_flush, seek_start,
}

-- One answer to `read n r`. `view r` is all that is still to be read, `waits r` bounds how often
-- the reader will still be interrupted, and `P` holds of every other error that it reports.
abbrev pub Answers :
    {R : Type 0} (P : IoError → Type 0) (view : R → Bytes) (waits : R → ℕ)
    → ℕ
    → R
    → Outcome IoError Bytes
    → R
    → Type 0
Answers P view waits n r (ok b) r' =
    (view r ≡ b ++ view r') × (length b ≤ n) × (b ≡ [] → view r ≡ []) × (waits r' ≤ waits r)
Answers P view waits n r (err interrupted) r' = (view r' ≡ view r) × (waits r' < waits r)
Answers P view waits n r (err e) r' = P e
Answers P view waits n r panic r' = ⊥
Answers P view waits n r hang r' = ⊥

pub record Serves {R : Type 0} (P : IoError → Type 0) (rd : Read R) : Type 0 where
  pub view : R → Bytes
  pub waits : R → ℕ
  pub answers : (n : ℕ) (r : R) → 0 < n → Answers P view waits n r (rd.read n r).0 (rd.read n r).1

-- The calls of `read` that are left, at most.
abbrev pub reads_left : {P : IoError → Type 0} {R : Type 0} {rd : Read R} → Serves P rd → R → ℕ
reads_left sv r = sv.waits r + length (sv.view r)

-- Every fault that a file will meet is in `P`.
abbrev pub Excuses : (IoError → Type 0) → List (Option Fault) → Type 0
Excuses P [] = Unit
Excuses P (none ∷ rest) = Excuses P rest
Excuses P (some x ∷ rest) = P x.error × Excuses P rest

-- The file holds `b` and stands behind it.
pub record EndsWith (P : IoError → Type 0) (f : File) (b : Bytes) : Type 0 where
  pub holds : f.content ≡ b
  pub at_end : f.pos ≡ length b
  pub excused : Excuses P f.faults

pub overwrite_end : (p : ℕ) (b c : Bytes) → p ≡ length c → overwrite p b c ≡ c ++ b
overwrite_end p b c e =
    let none_left : p - length c ≡ 0 = omega arith in
    rw (none_left, take_front p c [] (sym e), drop_all (p + length b) c (omega arith), append-nil b)

-- How a write leaves the file that should hold `whole` after it.
abbrev pub Appended : (IoError → Type 0) → Bytes → Outcome IoError Done → File → Type 0
Appended P whole (ok _) f = EndsWith P f whole
Appended P whole (err e) f = P e
Appended P whole panic f = ⊥
Appended P whole hang f = ⊥

-- How a call that does not write leaves the file.
abbrev pub Kept : (IoError → Type 0) → Bytes → Outcome IoError Done → File → Type 0
Kept P c (ok _) f = (f.content ≡ c) × Excuses P f.faults
Kept P c (err e) f = P e
Kept P c panic f = ⊥
Kept P c hang f = ⊥

abbrev pub Rewound : (IoError → Type 0) → Bytes → Outcome IoError ℕ → File → Type 0
Rewound P c (ok _) f = (f.content ≡ c) × (f.pos ≡ 0)
Rewound P c (err e) f = P e
Rewound P c panic f = ⊥
Rewound P c hang f = ⊥

module _ (P : IoError → Type 0) where
  put_bytes-EndsWith :
      (b c : Bytes) (f : File) (rest : List (Option Fault))
      → EndsWith P f c
      → Excuses P rest
      → EndsWith P (record (put_bytes b f) { faults = rest }) (c ++ b)
  put_bytes-EndsWith b c f rest h x = record {
    holds = rw (h.holds) (overwrite_end f.pos b c h.at_end);
    at_end = omega (arith, h.at_end, length-append c b);
    excused = x;
  }

  attempt_put :
      (fs : List (Option Fault)) (b c : Bytes) (f : File)
      → EndsWith P f c
      → Excuses P fs
      → let (r, f') =
          attempt fs
            (λ x. put_bytes (take x.done b) f)
            tt
            (put_bytes b (record f { faults = fs })) in
        Appended P (c ++ b) r f'
  attempt_put [] b c f h x = put_bytes-EndsWith b c f [] h tt
  attempt_put (none ∷ rest) b c f h x = put_bytes-EndsWith b c f rest h x
  attempt_put (some y ∷ rest) b c f h x = x.0

  -- A write to a file that stands at its end appends the bytes, or reports one of the file's faults.
  pub file_write_all-Appended :
      (b c : Bytes) (f : File)
      → EndsWith P f c
      → let (r, f') = file_write_all b f in Appended P (c ++ b) r f'
  unfolding file_write_all
  file_write_all-Appended b c f h = attempt_put f.faults b c f h h.excused

  attempt-Kept :
      (fs : List (Option Fault)) (c : Bytes) (f : File)
      → f.content ≡ c
      → Excuses P f.faults
      → Excuses P fs
      → let (r, f') = attempt fs (λ _. f) tt f in Kept P c r f'
  attempt-Kept [] c f h y x = (h, y)
  attempt-Kept (none ∷ rest) c f h y x = (h, x)
  attempt-Kept (some y ∷ rest) c f h z x = x.0

  attempt-Rewound :
      (fs : List (Option Fault)) (c : Bytes) (f : File)
      → f.content ≡ c
      → Excuses P fs
      → let (r, f') = attempt {A = ℕ} fs (λ _. f) 0 (record f { pos = 0 }) in Rewound P c r f'
  attempt-Rewound [] c f h x = (h, refl)
  attempt-Rewound (none ∷ rest) c f h x = (h, refl)
  attempt-Rewound (some y ∷ rest) c f h x = x.0

  rewind_next :
      (c : Bytes) (r : Outcome IoError Done) (f : File)
      → Kept P c r f
      → let (r', f') = continue r (λ _. seek_start 0) f in Rewound P c r' f'
  unfolding seek_start
  rewind_next c (ok _) f h = attempt-Rewound f.faults c f h.0 h.1
  rewind_next c (err e) f h = h
  rewind_next c panic f h = h
  rewind_next c hang f h = h

  -- Flushing and winding back keeps the content, or reports one of the file's faults.
  pub rewind_lem :
      (c : Bytes) (f : File)
      → f.content ≡ c
      → Excuses P f.faults
      → let (r, f') = (file_flush >> seek_start 0) f in Rewound P c r f'
  unfolding file_flush
  rewind_lem c f h x = rewind_next c _ _ (attempt-Kept f.faults c f h x x)
