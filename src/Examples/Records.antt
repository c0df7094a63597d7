-- ===== src/Examples/Records.antt =====
-- The theorems on written records at concrete inputs.
use body_image.Common.{
  ◌≡◌, refl, [], ◌∷◌, ◌++◌, none, some, ok, leb, length, ascii, true, false, if◌then◌else◌, arith,
}
use body_image.Io.{File, new_file, Write}
use body_image.Common.Post.{After}
use body_image.Image.{ImageState}
use body_image.Barc.{dialog, plain, Record}
use body_image.Barc.Format.{same_bytes, format_head}
use body_image.Barc.Codec.{Codecs}
use body_image.Barc.Compress.{
  Worth, no_compress, is_compressible, trim, compressible_mime, len_of_headers,
  is_compressible_type, res_counts, req_counts,
}
use body_image.Barc.Compress.Enough.{total, required, is_compressible_lem}
use body_image.Barc.Write.{write}
use body_image.Barc.Write.Blocks.{Io}
use body_image.Barc.Write.Heads.{Gives}
use body_image.Barc.Write.Payload.{payload, head_for}
use body_image.Barc.Write.Whole.{write-After}
use body_image.Examples.Web.{web}
use body_image.Examples.Host.{host, Window, window_read}

abbrev file_itself : Write File
file_itself = record { write_all = λ b f. (ok tt, f); flush = λ f. (ok tt, f) }

-- Codecs that write nothing, and a parser of one type.
instance abbrev pub codecs : Codecs
codecs = record {
  GzEncoder = File;
  gz_new = λ f level. f;
  gz_write = file_itself;
  gz_finish = λ f. (ok tt, f);
  gz_drop = λ f. f;
  CompressorWriter = File;
  brotli_new = λ f buffer level window. f;
  brotli_write = file_itself;
  brotli_drop = λ f. f;
  GzDecoder = Window;
  gz_decoder = λ w. w;
  gz_read = record { read = window_read };
  Decompressor = Window;
  decompressor = λ w size. w;
  brotli_read = record { read = window_read };
  parse_mime = λ text.
      if same_bytes text (ascii "text/html") then some (ascii "text", ascii "html") else none;
}

abbrev page : Record
page = record {
  rec_type = dialog;
  meta = (ascii "url", ascii "/") ∷ [];
  req_headers = [];
  req_body = record { state = ImageState.ram []; len = 0 };
  res_headers = (ascii "content-type", ascii " text/html") ∷ [];
  res_body = record { state = ImageState.ram ((1 ∷ 2 ∷ []) ∷ (3 ∷ []) ∷ []); len = 3 };
}

abbrev worth : Worth
worth = record { min_len = 3; check_identity = false }

is_compressible_lem_example :
    is_compressible codecs.parse_mime worth page
    ≡ leb (required codecs.parse_mime worth page) (total codecs.parse_mime worth page)
unfolding res_counts req_counts is_compressible_type trim compressible_mime len_of_headers
is_compressible_lem_example = is_compressible_lem codecs.parse_mime worth page (omega arith)

write-After_example :
    let whole = payload true page [] (1 ∷ 2 ∷ 3 ∷ []) in
    After
      (Io (λ _. ⊥))
      ⊥
      (Gives
        (λ _. ⊥)
        0
        (length (format_head (head_for plain page [] (1 ∷ 2 ∷ 3 ∷ [])) ++ whole))
        (format_head (head_for plain page [] (1 ∷ 2 ∷ 3 ∷ [])) ++ whole))
      (write 0 no_compress page new_file).0
      (write 0 no_compress page new_file).1
write-After_example =
    write-After (λ _. ⊥) 0 no_compress page [] (1 ∷ 2 ∷ 3 ∷ []) [] 0 new_file (λ g. refl)
      (record { state = refl; len = refl }) (record { state = refl; len = refl }) (omega arith)
      (record { holds = refl; at = refl; excused = tt })
