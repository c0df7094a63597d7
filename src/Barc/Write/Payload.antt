-- ===== src/Barc/Write/Payload.antt =====
-- The blocks of a whole record, and the head that describes them.
use body_image.Common.{
  ℕ, ◌+◌, ◌≤◌, ◌≡◌, refl, le→leb, Bool, u64, ◌++◌, length, length-append, append_assoc, arith,
}
use body_image.Common.Post.{After, continue-After}
use body_image.Io.{Bytes, IoError, Write}
use body_image.Storage.{Storage}
use body_image.Barc.Errors.{Compression}
use body_image.Barc.Types.{RecordHead, v2_max_record, v2_max_hblock, v2_max_req_body}
use body_image.Barc.Recorded.{Http, Record}
use body_image.Barc.Write.{is_plain, write_blocks}
use body_image.Io.Copied.{Appends}
use body_image.Barc.Write.Blocks.{Io, header_lines, padded, Took}
use body_image.Barc.Write.Bodies.{InRam, length-padded, write_headers-After, write_body-After}

module _ ⦃st : Storage⦄ ⦃ht : Http⦄ where
  open ht use {HeaderMap, entries}

  -- A header block with its padding.
  abbrev pub block : Bool → HeaderMap → Bytes
  block x m = padded x (header_lines (entries m))

  -- The blocks of a record with the bodies `q` and `s`, in their order.
  abbrev pub payload : Bool → Record → Bytes → Bytes → Bytes
  payload x rec q s =
      block x rec.meta
      ++ (block x rec.req_headers ++ (padded x q ++ (block x rec.res_headers ++ padded x s)))

  -- The head of a record with these blocks.
  abbrev pub head_for : Compression → Record → Bytes → Bytes → RecordHead
  head_for mode rec q s =
      let x = is_plain mode in
      record {
        len = length (payload x rec q s);
        rec_type = rec.rec_type;
        compress = mode;
        meta = length (block x rec.meta);
        req_h = length (block x rec.req_headers);
        req_b = length (padded x q);
        res_h = length (block x rec.res_headers);
      }

  -- The limits of the format on the blocks, with room for the padding of the response body.
  pub record Fits (x : Bool) (rec : Record) (q s : Bytes) : Type 0 where
    pub meta : length (block x rec.meta) ≤ v2_max_hblock
    pub req_h : length (block x rec.req_headers) ≤ v2_max_hblock
    pub req_b : length (padded x q) ≤ v2_max_req_body
    pub res_h : length (block x rec.res_headers) ≤ v2_max_hblock
    pub whole :
        length (block x rec.meta)
          + length (block x rec.req_headers)
          + length (block x rec.res_headers)
          + length (padded x q)
          + length s
          + 2
        ≤ v2_max_record

  pub length-payload :
      (x : Bool) (rec : Record) (q s : Bytes)
      → length (payload x rec q s)
        ≡ length (block x rec.meta)
          + (length (block x rec.req_headers)
              + (length (padded x q) + (length (block x rec.res_headers) + length (padded x s))))
  length-payload x rec q s =
      let a : Bytes = block x rec.meta in
      let b : Bytes = block x rec.req_headers in
      let c : Bytes = padded x q in
      let d : Bytes = block x rec.res_headers in
      let e : Bytes = padded x s in
      omega (
        arith,
        length-append a (b ++ (c ++ (d ++ e))),
        length-append b (c ++ (d ++ e)),
        length-append c (d ++ e),
        length-append d e,
      )

  module _ {W : Type 0} (P : IoError → Type 0) (wr : Write W) (ap' : Appends P wr) where
    open ap' use {holds}

    -- To any output that appends, `write_blocks` writes the blocks of a record with bodies in RAM,
    -- if they keep the limits, and its head has their lengths.
    pub write_blocks-After :
        (fuel : ℕ) (mode : Compression) (rec : Record) (q s c : Bytes) (w : W)
        → InRam rec.req_body q
        → InRam rec.res_body s
        → Fits (is_plain mode) rec q s
        → holds w c
        → After
            (Io P)
            ⊥
            (λ head w'.
              (head ≡ head_for mode rec q s) × holds w' (c ++ payload (is_plain mode) rec q s))
            (write_blocks wr fuel mode rec w).0
            (write_blocks wr fuel mode rec w).1
    unfolding write_blocks
    write_blocks-After fuel mode rec q s c w rq rs fits h =
        let x : Bool = is_plain mode in
        let a : Bytes = block x rec.meta in
        let b : Bytes = block x rec.req_headers in
        let d : Bytes = padded x q in
        let e : Bytes = block x rec.res_headers in
        let g : Bytes = padded x s in
        let Q : RecordHead → W → Type 0 =
          λ head w'. (head ≡ head_for mode rec q s) × holds w' (c ++ payload x rec q s) in
        let T : Bytes → Bytes → ℕ → W → Type 0 = Took P wr ap' in
        let qs = length-padded x q in
        let ss = length-padded x s in
        let all = length-payload x rec q s in
        let join : ((((c ++ a) ++ b) ++ d) ++ e) ++ g ≡ c ++ payload x rec q s =
          simp (append_assoc) in
        continue-After (Io P) ⊥ (T c a) Q _ _ _
          (write_headers-After P wr ap' x (entries rec.meta) c w h fits.meta)
          (λ n1 w1 k1.
            continue-After (Io P) ⊥ (T (c ++ a) b) Q _ _ _
              (write_headers-After P wr ap' x (entries rec.req_headers) (c ++ a) w1 (k1.1)
                fits.req_h)
              (λ n2 w2 k2.
                continue-After (Io P) ⊥ (T ((c ++ a) ++ b) d) Q _ _ _
                  (write_body-After P wr ap' fuel x rec.req_body q ((c ++ a) ++ b) w2 rq (k2.1)
                    (omega (arith, qs.0, fits.req_b)))
                  (λ n3 w3 k3.
                    continue-After (Io P) ⊥ (T (((c ++ a) ++ b) ++ d) e) Q _ _ _
                      (write_headers-After P wr ap' x (entries rec.res_headers)
                        (((c ++ a) ++ b) ++ d) w3 (k3.1) fits.res_h)
                      (λ n4 w4 k4.
                        rw
                          (le→leb (u64 (u64 (n1 + n2 + n4 + n3) + rec.res_body.len + 2))
                            v2_max_record
                            (omega (arith, k1.0, k2.0, k3.0, k4.0, rs.len, fits.whole)))
                          (continue-After (Io P) ⊥ (T ((((c ++ a) ++ b) ++ d) ++ e) g) Q _ _ _
                            (write_body-After P wr ap' fuel x rec.res_body s
                              ((((c ++ a) ++ b) ++ d) ++ e) w4 rs (k4.1)
                              (omega (arith, fits.whole)))
                            (λ n5 w5 k5.
                              let len : u64 (u64 (n1 + n2 + n4 + n3) + n5)
                                  ≡ length (payload x rec q s) =
                                omega
                                  (arith, k1.0, k2.0, k3.0, k4.0, k5.0, all, ss.1, fits.whole) in
                              (rw (len, k1.0, k2.0, k3.0, k4.0) refl, rw (← join) (k5.1))))))))
