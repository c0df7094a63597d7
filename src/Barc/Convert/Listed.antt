-- ===== src/Barc/Convert/Listed.antt =====
-- A list of encodings in a meta header is read back.
use body_image.Common.{
  ℕ, ◌≡◌, refl, sym, ap, ◌∙◌, Bool, true, not, ◌&&◌, ◌==◌, &&_left, &&_right, not-eq-true, List, [],
  ◌∷◌, ◌++◌, append_assoc, append-nil, ascii, Outcome, ok, err, ◌>>=◌, map_ok,
}
use body_image.Io.{Bytes}
use body_image.Image.{Encoding, encoding_text, chunked, deflate, gzip, brotli, compress, identity}
use body_image.Barc.Errors.{DialogConvertError, invalid_res_decoded}
use body_image.Barc.Convert.{join_encodings, split_on, encoding_from, encodings_from}
use body_image.Barc.Compress.{trim}

-- The reading, as a decision on the encodings: those that `encoding_from` does not know fail.
abbrev pub reads_back : Encoding → Outcome DialogConvertError Encoding
reads_back compress = err (invalid_res_decoded (ascii "compress"))
reads_back identity = err (invalid_res_decoded (ascii "identity"))
reads_back e = ok e

abbrev pub read_back : List Encoding → Outcome DialogConvertError (List Encoding)
read_back [] = ok []
read_back (e ∷ es) = reads_back e >>= λ x. map_ok (λ xs. x ∷ xs) (read_back es)

-- The rest of the list behind its first text.
abbrev tails : List Encoding → Bytes
tails [] = []
tails (e ∷ es) = ascii ", " ++ (encoding_text e ++ tails es)

join_tails :
    (c : ℕ) (joined : Bytes) (es : List Encoding)
    → join_encodings (c ∷ joined) es ≡ (c ∷ joined) ++ tails es
unfolding join_encodings
join_tails c joined [] = ap (λ t. c ∷ t) (sym (append-nil joined))
join_tails c joined (e ∷ es) =
    join_tails c ((joined ++ ascii ", ") ++ encoding_text e) es
    ∙ ap (λ t. c ∷ t)
        (append_assoc (joined ++ ascii ", ") (encoding_text e) (tails es)
          ∙ append_assoc joined (ascii ", ") (encoding_text e ++ tails es))

join_first :
    (e : Encoding) (es : List Encoding) → join_encodings [] (e ∷ es) ≡ encoding_text e ++ tails es
unfolding join_encodings
join_first chunked es = join_tails _ _ es
join_first deflate es = join_tails _ _ es
join_first gzip es = join_tails _ _ es
join_first brotli es = join_tails _ _ es
join_first compress es = join_tails _ _ es
join_first identity es = join_tails _ _ es

abbrev no_comma : Bytes → Bool
no_comma [] = true
no_comma (c ∷ text) = not (c == b',') && no_comma text

split_part :
    (pre rest : Bytes)
    → no_comma pre ≡ true
    → split_on b',' (pre ++ (b',' ∷ rest)) ≡ pre ∷ split_on b',' rest
unfolding split_on
split_part [] rest h = refl
split_part (x ∷ pre) rest h =
    rw
      (
        not-eq-true (x == b',') (&&_left (not (x == b',')) (no_comma pre) h),
        split_part pre rest (&&_right (not (x == b',')) (no_comma pre) h),
      )
      refl

split_last : (pre : Bytes) → no_comma pre ≡ true → split_on b',' pre ≡ pre ∷ []
unfolding split_on
split_last [] h = refl
split_last (x ∷ pre) h =
    rw
      (
        not-eq-true (x == b',') (&&_left (not (x == b',')) (no_comma pre) h),
        split_last pre (&&_right (not (x == b',')) (no_comma pre) h),
      )
      refl

trim_text : (e : Encoding) → encoding_from (trim (b' ' ∷ encoding_text e)) ≡ reads_back e
unfolding trim encoding_from
trim_text chunked = refl
trim_text deflate = refl
trim_text gzip = refl
trim_text brotli = refl
trim_text compress = refl
trim_text identity = refl

trim_first : (e : Encoding) → encoding_from (trim (encoding_text e)) ≡ reads_back e
unfolding trim encoding_from
trim_first chunked = refl
trim_first deflate = refl
trim_first gzip = refl
trim_first brotli = refl
trim_first compress = refl
trim_first identity = refl

text-no_comma : (e : Encoding) → no_comma (encoding_text e) ≡ true
text-no_comma chunked = refl
text-no_comma deflate = refl
text-no_comma gzip = refl
text-no_comma brotli = refl
text-no_comma compress = refl
text-no_comma identity = refl

-- What stands behind a text is read as the rest of the list.
parts_lem :
    (pre : Bytes) (x : Encoding) (es : List Encoding)
    → no_comma pre ≡ true
    → encoding_from (trim pre) ≡ reads_back x
    → encodings_from (split_on b',' (pre ++ tails es)) ≡ read_back (x ∷ es)
unfolding encodings_from
parts_lem pre x [] h e = rw (append-nil pre, split_last pre h, e) refl
parts_lem pre x (y ∷ es) h e =
    rw
      (
        split_part pre (b' ' ∷ (encoding_text y ++ tails es)) h,
        e,
        parts_lem (b' ' ∷ encoding_text y) y es (text-no_comma y) (trim_text y),
      )
      refl

-- The text that a list of encodings is joined to.
pub join-read_back :
    (e : Encoding) (es : List Encoding)
    → encodings_from (split_on b',' (join_encodings [] (e ∷ es))) ≡ read_back (e ∷ es)
join-read_back e es =
    rw (join_first e es) (parts_lem (encoding_text e) e es (text-no_comma e) (trim_first e))
