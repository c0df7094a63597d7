-- ===== src/Futio/Sink/Flush.antt =====
-- What sends and flushes of an asynchronous sink do, and that they lose and reorder nothing.
use body_image.Common.{
  ℕ, suc, ◌+◌, ◌≤◌, ◌<◌, ◌^◌, ◌≡◌, refl, [], ◌∷◌, ◌++◌, length, length-append, append-nil, Bool,
  true, false, ◌&&◌, ltb, leb, u64, Option, none, some, Outcome, ok, err, panic, hang, arith,
  ltb→lt, ltb-false→le, leb→le, Bool-cases, &&_right, ==_ne, inl, inr,
}
use body_image.Common.Exec.{◌>>◌}
use body_image.Io.{Bytes, IoError, interrupted}
use body_image.Storage.{Storage}
use body_image.Image.{body_too_long, io, is_ram}
use body_image.Image.Content.{Holds, MakesFiles, push-Leaves, write_back-InFile}
use body_image.Futio.Crates.{Runtime}
use body_image.Futio.Errors.{FutioError, body}
use body_image.Futio.Arbiter.{BlockingArbiter}
use body_image.Futio.Sink.{
  AsyncBodySink, write_buf, to_file, write_if, write_blocking, send_long, poll_send,
}
use body_image.Futio.Sink.Accepts.{Within, Needs, Accepts, Takes, push_next, write_next, file_next}

module _ ⦃rt : Runtime⦄ {BA : Type 0} (P : IoError → Type 0) where
  module _ ⦃st : Storage⦄ (makes : MakesFiles P st) (quiet : P interrupted → ⊥) where
    allowed-Takes :
        (s : AsyncBodySink BA) (pre buf : Bytes)
        → Holds P s.body pre
        → length (pre ++ buf) ≤ s.tune.image.max_body
        → length pre + length buf < 2 ^ 64
        → let (r, s') = (to_file >> write_buf buf) s in Takes P s.tune s.buf (pre ++ buf) r s'
    unfolding to_file
    allowed-Takes s pre buf h most fits = elim (Bool-cases (is_ram s.body)) [
      | inl ram ↦ rw ram (
          file_next P quiet s pre buf _ _
            (write_back-InFile P s.tune.image.temp_dir s.body pre makes h) most fits)
      | inr file ↦ rw file (
          write_next P quiet s s pre buf
            (record { holds = h; file = file; tune = refl; buf = refl }) most fits)
    ]

    -- A send that is taken, or that waits for an allowance.
    Takes-Accepts :
        (s : AsyncBodySink BA) (pre buf : Bytes) (r : Outcome FutioError (Option Bytes))
        → (s' : AsyncBodySink BA) → Takes P s.tune s.buf (pre ++ buf) r s'
        → Accepts P s pre buf r s'
    Takes-Accepts s pre buf (ok none) s' h = h
    Takes-Accepts s pre buf (ok (some rest)) s' h = absurd h
    Takes-Accepts s pre buf (err (body (io e))) s' h = h
    Takes-Accepts s pre buf (err (body (body_too_long n))) s' h = absurd h
    Takes-Accepts s pre buf (err _) s' h = h
    Takes-Accepts s pre buf panic s' h = h
    Takes-Accepts s pre buf hang s' h = h

    module _ ⦃ba : BlockingArbiter BA⦄ where
      write_if-Accepts :
          (s s' : AsyncBodySink BA) (pre buf : Bytes) (allowed : Bool)
          → s'.body ≡ s.body
          → s'.tune ≡ s.tune
          → s'.buf ≡ s.buf
          → Holds P s.body pre
          → length (pre ++ buf) ≤ s.tune.image.max_body
          → length pre + length buf < 2 ^ 64
          → Needs s buf
          → let (r, s'') = write_if allowed buf s' in Accepts P s pre buf r s''
      write_if-Accepts s s' pre buf true same tune kept h most fits needs =
          Takes-Accepts s pre buf _ _
            (rw (← tune, ← kept) (allowed-Takes s' pre buf (rw same h) (rw tune most) fits))
      write_if-Accepts s s' pre buf false same tune kept h most fits needs =
          (refl, same, tune, kept, needs)

      send_long-Accepts :
          (n : ℕ) (s : AsyncBodySink BA) (pre buf : Bytes)
          → u64 (s.body.len + length buf) ≡ n
          → 0 < length buf
          → n ≡ length (pre ++ buf)
          → Holds P s.body pre
          → length pre + length buf < 2 ^ 64
          → let (r, s') = send_long n buf s in Accepts P s pre buf r s'
      unfolding write_blocking
      send_long-Accepts n s pre buf at some_byte e h fits =
          elim (Bool-cases (ltb s.tune.image.max_body n)) [
            | inl long ↦ rw long (e, ltb→lt _ _ long, refl)
            | inr short ↦
                let most : length (pre ++ buf) ≤ s.tune.image.max_body =
                  omega (arith, ltb-false→le _ _ short) in
                rw short (elim (Bool-cases (is_ram s.body && leb n s.tune.image.max_body_ram)) [
                  | inl fit ↦ rw fit (
                      Takes-Accepts s pre buf _ _ (
                        push_next P s pre buf _ _ (push-Leaves P buf pre s.body h fits) most (
                          omega (
                            arith,
                            e,
                            leb→le n s.tune.image.max_body_ram
                                (&&_right (is_ram s.body) (leb n s.tune.image.max_body_ram) fit),
                          ))))
                  | inr big ↦ rw big (
                      write_if-Accepts s (record s { arbiter = (ba.can_block s.arbiter).1 }) pre buf
                        _ refl refl refl h most fits
                        (record { some_byte = some_byte; short = rw at short; big = rw at big }))
                ])
          ]

      pub poll_send-Accepts :
          (s : AsyncBodySink BA) (pre buf : Bytes)
          → Within P s pre
          → length pre + length buf < 2 ^ 64
          → let (r, s') = poll_send buf s in Accepts P s pre buf r s'
      unfolding poll_send
      poll_send-Accepts s pre [] h fits = rw append-nil (h, refl, refl)
      poll_send-Accepts s pre (x ∷ buf) h fits = rw (==_ne (suc (length buf)) 0 (omega arith)) (
          send_long-Accepts (u64 (s.body.len + suc (length buf))) s pre (x ∷ buf) refl (omega arith)
            (omega (arith, length-append pre (x ∷ buf), h.holds.len)) h.holds fits)
