-- ===== src/Barc/Compress/Enough.antt =====
-- The early answers of `is_compressible` agree with the sum over the whole record.
use body_image.Common.{
  ℕ, ◌+◌, ◌^◌, ◌<◌, ◌≡◌, refl, ◌∙◌, leb, Bool, true, false, u64, List, [], ◌∷◌, Option, arith,
}
use body_image.Io.{Bytes}
use body_image.Storage.{Storage}
use body_image.Barc.Recorded.{Http, Record}
use body_image.Barc.Compress.{
  to_f64, discount, len_of_headers, Worth, Weighed, weigh, suffices, res_counts, req_counts,
  is_compressible,
}

-- What a body adds to the compressible bytes, and to the minimum.
abbrev pub gain : Bool → ℕ → ℕ
gain true n = n
gain false n = 0

abbrev pub loss : Bool → ℕ → ℕ
loss true n = 0
loss false n = discount n

abbrev sum : List ℕ → ℕ
sum [] = 0
sum (h ∷ hs) = h + sum hs

suffices_lem :
    (hs : List ℕ) (w : Weighed)
    → w.clen + sum hs < 2 ^ 64
    → suffices hs w ≡ leb w.min_len (w.clen + sum hs)
unfolding suffices
suffices_lem [] w fits = ground arith
suffices_lem (h ∷ hs) w fits =
    let rest = suffices_lem hs (record w { clen = u64 (w.clen + h) }) (omega arith) in
    ground (arith, rest)

discount_zero : discount 0 ≡ 0
unfolding discount to_f64
discount_zero = refl

weigh_clen :
    (b : Bool) (n : ℕ) (w : Weighed)
    → w.clen + gain b n < 2 ^ 64
    → (weigh b n w).clen ≡ w.clen + gain b n
unfolding weigh
weigh_clen true n w fits = ground arith
weigh_clen false n w fits = ground arith

-- A minimum that was cut to the greatest `u64` is above every sum in question.
weigh_min :
    (b : Bool) (n : ℕ) (w : Weighed) (x t : ℕ)
    → t + 1 < 2 ^ 64
    → leb ((weigh b n w).min_len + x) t ≡ leb (w.min_len + loss b n + x) t
unfolding weigh
weigh_min true n w x t fits = ground arith
weigh_min false n w x t fits = ground (arith, discount_zero)

module _ ⦃st : Storage⦄ ⦃ht : Http⦄ (parse_mime : Bytes → Option (Bytes × Bytes)) where
  open ht use {entries}

  -- All bytes of a record that count: its compressible bodies and its three header blocks.
  abbrev pub total : Worth → Record → ℕ
  total s rec =
      gain (res_counts parse_mime s rec) rec.res_body.len
      + gain (req_counts parse_mime rec) rec.req_body.len
      + (len_of_headers (entries rec.res_headers)
          + (len_of_headers (entries rec.req_headers) + (len_of_headers (entries rec.meta) + 0)))

  -- The minimum with the discounts of the bodies that do not count.
  abbrev pub required : Worth → Record → ℕ
  required s rec =
      s.min_len
      + loss (res_counts parse_mime s rec) rec.res_body.len
      + loss (req_counts parse_mime rec) rec.req_body.len

  -- If the bytes that count come to less than the greatest `u64`, `is_compressible` answers whether
  -- they reach the minimum with the discounts: stopping early at the bodies or at a header block
  -- never changes the answer, and neither does the saturation of the minimum.
  pub is_compressible_lem :
      (s : Worth) (rec : Record)
      → total s rec + 1 < 2 ^ 64
      → is_compressible parse_mime s rec ≡ leb (required s rec) (total s rec)
  unfolding is_compressible
  is_compressible_lem s rec fits =
      let w0 : Weighed = record { clen = 0; min_len = s.min_len } in
      let b1 : Bool = res_counts parse_mime s rec in
      let b2 : Bool = req_counts parse_mime rec in
      let n1 : ℕ = rec.res_body.len in
      let n2 : ℕ = rec.req_body.len in
      let w1 : Weighed = weigh b1 n1 w0 in
      let c1 = weigh_clen b1 n1 w0 (omega arith) in
      let c2 = weigh_clen b2 n2 w1 (omega (arith, c1)) in
      let m2 = weigh_min b2 n2 w1 0 (total s rec) fits in
      let m1 = weigh_min b1 n1 w0 (loss b2 n2) (total s rec) fits in
      suffices_lem _ (weigh b2 n2 w1) (omega (arith, c1, c2)) ∙ rw (c2, c1) (ground (arith, m1, m2))
