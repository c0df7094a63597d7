-- ===== src/Barc/Write/Whole.antt =====
-- `BarcWriter::write` on a file: a whole record is appended behind what the file held.
use body_image.Common.{
  ℕ, ◌≡◌, refl, true, ◌++◌, length, append_assoc, Outcome, ok, err, panic, hang, arith, Done,
  map_ok,
}
use body_image.Common.Post.{After, continue-After, convert-After}
use body_image.Io.{Bytes, IoError, File}
use body_image.Io.Seeking.{StandsAt, seek_end-After, file_flush-After, append-After}
use body_image.Storage.{Storage}
use body_image.Barc.Errors.{BarcError, io, plain}
use body_image.Barc.Types.{RecordHead, v2_reserve_head}
use body_image.Barc.Recorded.{Http, Record}
use body_image.Barc.Format.{format_head}
use body_image.Barc.Format.RoundTrip.{InRange, length-format_head}
use body_image.Barc.Compress.{Strategy}
use body_image.Barc.Codec.{
  Codecs, Encoder, enc_plain, enc_gzip, enc_brotli, encode, encoder_write, wrap_encoder,
}
use body_image.Barc.Write.{finished, write_record, write}
use body_image.Barc.Write.Heads.{
  reserve-InRange, Stands, Gives, convert_io, append_head-After, DoneFile, complete_head-After,
}
use body_image.Io.Copied.{Appends}
use body_image.Barc.Write.Blocks.{Io}
use body_image.Barc.Write.Bodies.{InRam, length-padded}
use body_image.Barc.Write.Payload.{payload, head_for, Fits, length-payload, write_blocks-After}

module _ (P : IoError → Type 0) ⦃st : Storage⦄ ⦃cd : Codecs⦄ where
  abbrev EncHolds : Encoder → Bytes → Type 0
  EncHolds (enc_plain f) c = StandsAt P f (length c) c
  EncHolds (enc_gzip g) c = ⊥
  EncHolds (enc_brotli b) c = ⊥

  inside_plain :
      (c : Bytes) (r : Outcome IoError Done) (f : File)
      → After P ⊥ (λ _ g. StandsAt P g (length c) c) r f
      → After P ⊥ (λ _ e. EncHolds e c) r (enc_plain f)
  inside_plain c (ok d) f h = h
  inside_plain c (err e) f h = h
  inside_plain c panic f h = h
  inside_plain c hang f h = h

  encode-After :
      (b c : Bytes) (w : Encoder)
      → EncHolds w c
      → After P ⊥ (λ _ w'. EncHolds w' (c ++ b)) (encode b w).0 (encode b w).1
  encode-After b c (enc_plain f) h = inside_plain (c ++ b) _ _ (append-After P b c f h)
  encode-After b c (enc_gzip g) h = absurd h
  encode-After b c (enc_brotli g) h = absurd h

  abbrev plain_Appends : Appends P encoder_write
  plain_Appends = record { holds = EncHolds; appends = encode-After }

  kept_head :
      (H : RecordHead) (c : Bytes) (head : RecordHead) (r : Outcome BarcError Done) (g : File)
      → head ≡ H
      → After (Io P) ⊥ (Stands P (length c) c) r g
      → After (Io P) ⊥ (Gives P H (length c) c) (map_ok (λ _. head) r) g
  kept_head H c head (ok d) g e k = (e, k)
  kept_head H c head (err x) g e k = k
  kept_head H c head panic g e k = k
  kept_head H c head hang g e k = k

  finished-After :
      (H : RecordHead) (c : Bytes) (r : Outcome BarcError RecordHead) (w : Encoder)
      → After (Io P) ⊥ (λ head w'. (head ≡ H) × EncHolds w' c) r w
      → After (Io P) ⊥ (Gives P H (length c) c) (finished r w).0 (finished r w).1
  finished-After H c (ok head) (enc_plain f) h = kept_head H c head _ _ (h.0) (
      convert-After P ⊥ (Io P) (Stands P (length c) c) io (λ e x. x) _ _
        (file_flush-After P (length c) c f (h.1)))
  finished-After H c (ok head) (enc_gzip g) h = absurd (h.1)
  finished-After H c (ok head) (enc_brotli g) h = absurd (h.1)
  finished-After H c (err e) w h = h
  finished-After H c panic w h = h
  finished-After H c hang w h = h

  module _ ⦃ht : Http⦄ where
    write_record-After :
        (fuel : ℕ) (strategy : Strategy) (rec : Record) (q s c : Bytes) (f : File)
        → ((g : File) → wrap_encoder strategy rec g ≡ enc_plain g)
        → InRam rec.req_body q
        → InRam rec.res_body s
        → Fits true rec q s
        → StandsAt P f (length c) c
        → After
            (Io P)
            ⊥
            (Gives P
              (head_for plain rec q s)
              (length (c ++ payload true rec q s))
              (c ++ payload true rec q s))
            (write_record fuel strategy rec f).0
            (write_record fuel strategy rec f).1
    unfolding write_record
    write_record-After fuel strategy rec q s c f flat rq rs fits k = rw (flat f) (
        finished-After (head_for plain rec q s) (c ++ payload true rec q s) _ _ (
          write_blocks-After P encoder_write plain_Appends fuel plain rec q s c (enc_plain f) rq rs
            fits k))

    head_for-InRange :
        (rec : Record) (q s : Bytes) → Fits true rec q s → InRange (head_for plain rec q s)
    head_for-InRange rec q s fits = record {
      len = omega (arith, length-payload true rec q s, (length-padded true s).1, fits.whole);
      meta = fits.meta;
      req_h = fits.req_h;
      req_b = fits.req_b;
      res_h = fits.res_h;
    }

    -- On a file that holds `c`, wherever it stands, `BarcWriter::write` of a record that its
    -- strategy leaves uncompressed, with bodies in RAM and blocks within the limits, returns the
    -- length of `c`, does not panic, and leaves `c` followed by the head with the lengths of the
    -- blocks and by the blocks, the file standing at its end; it fails only by an error of the file.
    pub write-After :
        (fuel : ℕ) (strategy : Strategy) (rec : Record) (q s c : Bytes) (p : ℕ) (f : File)
        → ((g : File) → wrap_encoder strategy rec g ≡ enc_plain g)
        → InRam rec.req_body q
        → InRam rec.res_body s
        → Fits true rec q s
        → StandsAt P f p c
        → let whole = c ++ (format_head (head_for plain rec q s) ++ payload true rec q s) in
          After
            (Io P)
            ⊥
            (Gives P (length c) (length whole) whole)
            (write fuel strategy rec f).0
            (write fuel strategy rec f).1
    unfolding write
    write-After fuel strategy rec q s c p f flat rq rs fits k =
        let H : RecordHead = head_for plain rec q s in
        let b : Bytes = payload true rec q s in
        let line : Bytes = format_head v2_reserve_head in
        let Q : ℕ → File → Type 0 = DoneFile P H c line b in
        let join : (c ++ line) ++ b ≡ c ++ (line ++ b) = append_assoc c line b in
        continue-After (Io P) ⊥ (Gives P (length c) (length c) c) Q _ _ _
          (convert_io P (Gives P (length c) (length c) c) _ _ (seek_end-After P p c f k))
          (λ start f1 k1.
            continue-After (Io P) ⊥ (Stands P (length (c ++ line)) (c ++ line)) Q _ _ _
              (append_head-After P v2_reserve_head c f1 reserve-InRange (k1.1))
              (λ d f2 k2.
                continue-After (Io P) ⊥ (Stands P (length (c ++ line)) (c ++ line)) Q _ _ _
                  (convert_io P (Stands P (length (c ++ line)) (c ++ line)) _ _
                    (file_flush-After P _ (c ++ line) f2 k2))
                  (λ d f3 k3.
                    continue-After (Io P) ⊥
                      (Gives P H (length ((c ++ line) ++ b)) ((c ++ line) ++ b)) Q _ _ _
                      (write_record-After fuel strategy rec q s (c ++ line) f3 flat rq rs fits k3)
                      (λ head f4 k4.
                        rw (k1.0, k4.0)
                          (complete_head-After P H c line b f4 (head_for-InRange rec q s fits) refl
                            (length-format_head v2_reserve_head reserve-InRange)
                            (rw (← join) (k4.1)))))))
