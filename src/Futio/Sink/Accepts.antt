-- ===== src/Futio/Sink/Accepts.antt =====
-- What one send of an asynchronous sink does to the body.
use body_image.Common.{
  ℕ, ◌+◌, ◌≤◌, ◌<◌, ◌^◌, ◌≡◌, refl, ◌++◌, length, true, false, ◌&&◌, ltb, leb, u64, Option, none,
  some, Done, Outcome, ok, err, panic, hang, map_err, Bool-cases, inl, inr,
}
use body_image.Common.Exec.{continue, pure}
use body_image.Io.{Bytes, IoError, File, interrupted, unexpected_eof, invalid_input, other}
use body_image.Image.{
  BodyError, body_too_long, io, future_proof, SinkState, BodySink, is_ram_state, is_ram, written,
  append_to, write_all,
}
use body_image.Image.Content.{Holds, Leaves, InFile, write_all-Leaves}
use body_image.Futio.Crates.{Runtime}
use body_image.Futio.Errors.{FutioError, body, from_io}
use body_image.Futio.Tune.{FutioTunables}
use body_image.Futio.Sink.{AsyncBodySink, sent, write_buf}

module _ ⦃rt : Runtime⦄ {BA : Type 0} where
  -- The sink keeps `b` within the limits: no more than `max_body`, and in RAM no more than
  -- `max_body_ram`.
  pub record Within (P : IoError → Type 0) (s : AsyncBodySink BA) (b : Bytes) : Type 0 where
    pub holds : Holds P s.body b
    pub bounded : length b ≤ s.tune.image.max_body
    pub in_ram : is_ram s.body ≡ true → length b ≤ s.tune.image.max_body_ram

  -- The buffer has bytes, is not too long for the sink, and does not fit its memory.
  pub record Needs (s : AsyncBodySink BA) (buf : Bytes) : Type 0 where
    pub some_byte : 0 < length buf
    pub short : ltb s.tune.image.max_body (u64 (s.body.len + length buf)) ≡ false
    pub big :
        (is_ram s.body && leb (u64 (s.body.len + length buf)) s.tune.image.max_body_ram) ≡ false

  -- How a send of `buf` to the sink `s` over `b` may end: in `s'` with the answer given.
  abbrev pub Accepts :
      (P : IoError → Type 0)
      → (s : AsyncBodySink BA) → (b buf : Bytes) → Outcome FutioError (Option Bytes)
      → AsyncBodySink BA
      → Type 0
  Accepts P s b buf (ok none) s' = Within P s' (b ++ buf) × (s'.tune ≡ s.tune) × (s'.buf ≡ s.buf)
  Accepts P s b buf (ok (some rest)) s' =
      (rest ≡ buf) × (s'.body ≡ s.body) × (s'.tune ≡ s.tune) × (s'.buf ≡ s.buf) × Needs s buf
  Accepts P s b buf (err (body (body_too_long n))) s' =
      (n ≡ length (b ++ buf)) × (s.tune.image.max_body < n) × (s' ≡ s)
  Accepts P s b buf (err (body (io e))) s' = P e
  Accepts P s b buf (err _) s' = ⊥
  Accepts P s b buf panic s' = ⊥
  Accepts P s b buf hang s' = ⊥

  -- How writing or pushing `buf` may end: it is taken whole.
  abbrev pub Takes :
      (P : IoError → Type 0)
      → FutioTunables
      → Option Bytes
      → (whole : Bytes) → Outcome FutioError (Option Bytes)
      → AsyncBodySink BA
      → Type 0
  Takes P t o whole (ok none) s' = Within P s' whole × (s'.tune ≡ t) × (s'.buf ≡ o)
  Takes P t o whole (ok (some rest)) s' = ⊥
  Takes P t o whole (err (body (io e))) s' = P e
  Takes P t o whole (err _) s' = ⊥
  Takes P t o whole panic s' = ⊥
  Takes P t o whole hang s' = ⊥

-- A body that is in its file stays there.
written-in_file :
    (r : Outcome IoError Done) (f : File) (n : ℕ) (s : BodySink)
    → is_ram (written n (r, f) s).1 ≡ false
unfolding is_ram
written-in_file (ok _) f n s = refl
written-in_file (err e) f n s = refl
written-in_file panic f n s = refl
written-in_file hang f n s = refl

append_to-in_file :
    (t : SinkState) (b : Bytes) (s : BodySink)
    → is_ram_state t ≡ false
    → is_ram (append_to t b s).1 ≡ false
append_to-in_file (SinkState.ram v) b s h = cc
append_to-in_file (SinkState.fs_write f) b s h = written-in_file _ _ (length b) s

write_all-in_file : (b : Bytes) (s : BodySink) → is_ram s ≡ false → is_ram (write_all b s).1 ≡ false
unfolding write_all is_ram
write_all-in_file b s h = elim (Bool-cases (ltb 0 (length b))) [
  | inl some_byte ↦ rw some_byte (append_to-in_file s.state b s h)
  | inr no_byte ↦ rw no_byte h
]

module _ ⦃rt : Runtime⦄ {BA : Type 0} (P : IoError → Type 0) where
  pub push_next :
      (s : AsyncBodySink BA) (pre buf : Bytes) (r : Outcome IoError Done) (b : BodySink)
      → Leaves P (pre ++ buf) r b
      → length (pre ++ buf) ≤ s.tune.image.max_body
      → length (pre ++ buf) ≤ s.tune.image.max_body_ram
      → let (q, s') = continue (map_err from_io r) (λ _. pure none) (record s { body = b }) in
        Takes P s.tune s.buf (pre ++ buf) q s'
  push_next s pre buf (ok _) b h most ram =
      (record { holds = h; bounded = most; in_ram = λ _. ram }, refl, refl)
  push_next s pre buf (err e) b h most ram = h
  push_next s pre buf panic b h most ram = h
  push_next s pre buf hang b h most ram = h

  sent-Takes :
      (P interrupted → ⊥)
      → (s : AsyncBodySink BA) (pre buf : Bytes) (r : Outcome IoError Done) (b : BodySink)
      → Leaves P (pre ++ buf) r b
      → is_ram b ≡ false
      → length (pre ++ buf) ≤ s.tune.image.max_body
      → Takes P s.tune s.buf (pre ++ buf) (sent buf r) (record s { body = b })
  sent-Takes quiet s pre buf (ok _) b h file most =
      (record { holds = h; bounded = most; in_ram = λ ram. cc }, refl, refl)
  sent-Takes quiet s pre buf (err interrupted) b h file most = absurd (quiet h)
  sent-Takes quiet s pre buf (err unexpected_eof) b h file most = h
  sent-Takes quiet s pre buf (err invalid_input) b h file most = h
  sent-Takes quiet s pre buf (err (other n)) b h file most = h
  sent-Takes quiet s pre buf panic b h file most = h
  sent-Takes quiet s pre buf hang b h file most = h

  write_buf-Takes :
      (P interrupted → ⊥)
      → (s : AsyncBodySink BA) (pre buf : Bytes) → Holds P s.body pre
      → is_ram s.body ≡ false
      → length (pre ++ buf) ≤ s.tune.image.max_body
      → length pre + length buf < 2 ^ 64
      → let (r, s') = write_buf buf s in Takes P s.tune s.buf (pre ++ buf) r s'
  unfolding write_buf
  write_buf-Takes quiet s pre buf h file most fits =
      sent-Takes quiet s pre buf _ _ (write_all-Leaves P buf pre s.body h fits)
        (write_all-in_file buf s.body file) most

  -- The body is in its file, and the rest of the sink as it was.
  pub record InItsFile (s : AsyncBodySink BA) (pre : Bytes) (s' : AsyncBodySink BA) : Type 0 where
    pub holds : Holds P s'.body pre
    pub file : is_ram s'.body ≡ false
    pub tune : s'.tune ≡ s.tune
    pub buf : s'.buf ≡ s.buf

  pub write_next :
      (P interrupted → ⊥)
      → (s s' : AsyncBodySink BA) (pre buf : Bytes) → InItsFile s pre s'
      → length (pre ++ buf) ≤ s.tune.image.max_body
      → length pre + length buf < 2 ^ 64
      → let (r, s'') = write_buf buf s' in Takes P s.tune s.buf (pre ++ buf) r s''
  write_next quiet s s' pre buf h most fits =
      rw (← h.tune, ← h.buf)
        (write_buf-Takes quiet s' pre buf h.holds h.file (rw (h.tune) most) fits)

  pub file_next :
      (P interrupted → ⊥)
      → (s : AsyncBodySink BA) (pre buf : Bytes) (r : Outcome BodyError Done) (b : BodySink)
      → InFile P pre r b
      → length (pre ++ buf) ≤ s.tune.image.max_body
      → length pre + length buf < 2 ^ 64
      → let (q, s') = continue (map_err body r) (λ _. write_buf buf) (record s { body = b }) in
        Takes P s.tune s.buf (pre ++ buf) q s'
  file_next quiet s pre buf (ok _) b h most fits =
      write_next quiet s (record s { body = b }) pre buf
        (record { holds = h.0; file = h.1; tune = refl; buf = refl }) most fits
  file_next quiet s pre buf (err (io e)) b h most fits = h.0
  file_next quiet s pre buf (err (body_too_long n)) b h most fits = h
  file_next quiet s pre buf (err future_proof) b h most fits = h
  file_next quiet s pre buf panic b h most fits = h
  file_next quiet s pre buf hang b h most fits = h
