-- ===== src/Futio/Decode/Decodes.antt =====
-- A response body is decoded by what its headers say.
use body_image.Common.{
  ℕ, ◌+◌, ◌*◌, ◌<◌, ◌≤◌, ◌^◌, ◌≡◌, refl, ◌∷◌, [], ◌++◌, length, Bool, true, false, leb-false, u64,
  some, ok, arith,
}
use mathlib.Core.Path.{subst}
use body_image.Io.{Bytes, Read}
use body_image.Io.Laws.{Serves, reads_left}
use body_image.Http.{Http}
use body_image.Storage.{Storage}
use body_image.Image.{
  BodyImage, reader, Encoding, chunked, deflate, gzip, brotli, compress, identity, Dialog,
  set_res_body_decoded,
}
use body_image.Image.Content.{MakesFiles}
use body_image.Image.Prepared.{ImageHolds}
use body_image.Image.Tune.{Tunables}
use body_image.Image.ReadFrom.Steps.{BufferLaws}
use body_image.Image.ReadFrom.Whole.{read_from_complete}
use body_image.Futio.Decode.{
  Hyperx, Decoders, find_encodings, compression_of, len_est, decompress, decode_res_body,
}

-- The reader serves the bytes `plain`, and the fuel is enough to read them all.
pub record Unpacks {R : Type 0} (fuel : ℕ) (rd : Read R) (r : R) (plain : Bytes) : Type 0 where
  pub serves : Serves (λ _. ⊥) rd
  pub shows : serves.view r ≡ plain
  pub enough : reads_left serves r + 1 < fuel

mod_lt : (x : ℕ) → x < 2 ^ 64 → u64 x ≡ x
mod_lt x h = omega arith

-- A product in range is the estimate in any build.
len_est_lem :
    ⦃st : Storage⦄ (checks : Bool) (b : BodyImage) (n : ℕ)
    → b.len * n < 2 ^ 64
    → len_est checks b n ≡ ok (b.len * n)
len_est_lem false b n h = let fits : u64 (b.len * n) ≡ b.len * n = mod_lt _ h in rw fits refl
len_est_lem true b n h =
    let fits : u64 (b.len * n) ≡ b.len * n = mod_lt _ h in
    rw (leb-false (2 ^ 64) (b.len * n) h, fits) refl

module _ ⦃st : Storage⦄ (checks : Bool) (dec : Decoders) (tune : Tunables) (fuel : ℕ) where
  open dec use {gz_new, gz_read, deflate_new, deflate_read, brotli_new, brotli_read}

  -- The decoder of an encoding gives `plain` for a body.
  abbrev pub DecodesTo : Encoding → BodyImage → Bytes → Type 0
  DecodesTo gzip b plain = Unpacks fuel gz_read (gz_new (reader b)) plain
  DecodesTo deflate b plain = Unpacks fuel deflate_read (deflate_new (reader b)) plain
  DecodesTo brotli b plain =
      Unpacks fuel brotli_read (brotli_new (reader b) tune.buffer_size_ram) plain
  DecodesTo _ b plain = ⊥

  -- What the tunables expect of an encoding: the factor by which a body grows.
  abbrev pub growth : Encoding → ℕ
  growth gzip = tune.size_estimate_gzip
  growth deflate = tune.size_estimate_deflate
  growth brotli = tune.size_estimate_brotli
  growth _ = 0

  module _ (bl : BufferLaws st) (makes : MakesFiles (λ _. ⊥) st) where
    decompress_lem :
        (comp : Encoding) (b : BodyImage) (plain : Bytes)
        → DecodesTo comp b plain
        → length plain < 2 ^ 64
        → length plain ≤ tune.max_body
        → b.len * growth comp < 2 ^ 64
        → (i : BodyImage) × (decompress checks dec tune fuel b comp ≡ ok i) × ImageHolds i plain
    unfolding decompress
    decompress_lem gzip b plain h fits le small =
        let (i, e, holds) =
          read_from_complete bl gz_read h.serves tune makes fuel (b.len * tune.size_estimate_gzip)
            (gz_new (reader b)) h.enough (rw (h.shows) fits) (rw (h.shows) le) in
        (i, rw (len_est_lem checks b _ small, e) refl, subst (ImageHolds i) (h.shows) holds)
    decompress_lem deflate b plain h fits le small =
        let (i, e, holds) =
          read_from_complete bl deflate_read h.serves tune makes fuel
            (b.len * tune.size_estimate_deflate) (deflate_new (reader b)) h.enough
            (rw (h.shows) fits) (rw (h.shows) le) in
        (i, rw (len_est_lem checks b _ small, e) refl, subst (ImageHolds i) (h.shows) holds)
    decompress_lem brotli b plain h fits le small =
        let (i, e, holds) =
          read_from_complete bl brotli_read h.serves tune makes fuel
            (b.len * tune.size_estimate_brotli) (brotli_new (reader b) tune.buffer_size_ram)
            h.enough (rw (h.shows) fits) (rw (h.shows) le) in
        (i, rw (len_est_lem checks b _ small, e) refl, subst (ImageHolds i) (h.shows) holds)
    decompress_lem chunked b plain h fits le small = absurd h
    decompress_lem compress b plain h fits le small = absurd h
    decompress_lem identity b plain h fits le small = absurd h

    -- If the headers of a response name a compression last, its decoder gives the bytes `plain` for
    -- the response body, which are at most `max_body` and fewer than 2 ^ 64, the length of the
    -- response body times the growth that the tunables expect is below 2 ^ 64, and neither decoder
    -- nor file system fails, with fuel for all reads: in a build with or without overflow checks,
    -- `decode_res_body` says that it decoded, and leaves the dialog as it was but with a body that
    -- holds `plain`, and with the encodings that were found and then `Identity` as the decoded
    -- ones.
    pub decode_res_body_lem :
        ⦃ht : Http⦄ (hx : Hyperx) (d : Dialog) (comp : Encoding) (plain : Bytes)
        → compression_of (find_encodings hx d.epi.res_headers) ≡ some comp
        → DecodesTo comp d.epi.res_body plain
        → length plain < 2 ^ 64
        → length plain ≤ tune.max_body
        → d.epi.res_body.len * growth comp < 2 ^ 64
        → (i : BodyImage) × (decode_res_body checks dec tune fuel hx d ≡ (
          ok true,
          set_res_body_decoded i (find_encodings hx d.epi.res_headers ++ (identity ∷ [])) d,
        ))
          × ImageHolds i plain
    unfolding decode_res_body
    decode_res_body_lem hx d comp plain found to fits le small =
        let (i, e, holds) = decompress_lem comp d.epi.res_body plain to fits le small in
        (i, rw (found, e) refl, holds)
