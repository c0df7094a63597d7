-- ===== src/Examples/Dialogs.antt =====
-- The theorems on dialogs at concrete inputs.
use body_image.Common.{
  ◌≡◌, refl, length, ◌==◌, [], ◌∷◌, ◌++◌, true, if◌then◌else◌, take, none, some, ok, arith,
}
use body_image.Io.{Bytes}
use body_image.Image.{
  ImageState, BodyImage, chunked, gzip, brotli, identity, Dialog, set_res_body_decoded, BodyReader,
  reader, contiguous, scattered, file_slice,
}
use body_image.Image.Prepared.{ImageHolds}
use body_image.Futio.Decode.{
  hy_chunked, hy_gzip, hy_identity, Hyperx, Decoders, find_encodings, scan_rev, decode_res_body,
}
use body_image.Futio.Decode.Found.{find_encodings_lem, chunked_in, of_header}
use body_image.Futio.Decode.Decodes.{Unpacks, decode_res_body_lem}
use body_image.Examples.Host.{host, Window, window_read, host-BufferLaws, host-MakesFiles}
use body_image.Examples.Windows.{window_Serves}
use body_image.Examples.Web.{web, page, post, v11, ok_200}
use body_image.Examples.Executor.{small}

abbrev body_of : Bytes → BodyImage
body_of b = record { state = ImageState.ram (b ∷ []); len = length b }

abbrev posted : Dialog
posted = record {
  pro = record { method = post; url = page; req_headers = []; req_body = body_of (1 ∷ 2 ∷ []) };
  epi = record {
    version = v11;
    status = ok_200;
    res_headers = [];
    res_body = body_of (3 ∷ 4 ∷ 5 ∷ []);
    res_decoded = chunked ∷ brotli ∷ [];
  };
}

-- A parser that finds a chunked transfer and gzip content.
abbrev parsed_headers : Hyperx
parsed_headers = record {
  parse_encoding = λ name m. elim name [
    | [] ↦ none
    | c ∷ rest ↦ if c == b't' then some (hy_chunked ∷ []) else some (hy_identity ∷ hy_gzip ∷ [])
  ];
  transfer_encoding = λ m. some (hy_chunked ∷ []);
  content_length = λ m. none;
}

find_encodings_lem_example :
    find_encodings parsed_headers []
    ≡ (if chunked_in (some (hy_chunked ∷ [])) then chunked ∷ [] else [])
      ++ take 1
          (of_header (some (hy_chunked ∷ [])) ++ of_header (some (hy_identity ∷ hy_gzip ∷ [])))
find_encodings_lem_example = find_encodings_lem parsed_headers []

-- Decoders that give the bytes of a body as they are.
abbrev bytes_in : BodyReader → Window
bytes_in (contiguous b) = record { bytes = b; at = 0 }
bytes_in (scattered v) = record { bytes = []; at = 0 }
bytes_in (file_slice rs) = rs

abbrev plain_decoders : Decoders
plain_decoders = record {
  GzDecoder = Window;
  gz_new = bytes_in;
  gz_read = record { read = window_read };
  DeflateDecoder = Window;
  deflate_new = bytes_in;
  deflate_read = record { read = window_read };
  Decompressor = Window;
  brotli_new = λ r n. bytes_in r;
  brotli_read = record { read = window_read };
}

posted-Unpacks :
    Unpacks 10 plain_decoders.gz_read (bytes_in (reader posted.epi.res_body)) (3 ∷ 4 ∷ 5 ∷ [])
unfolding reader
posted-Unpacks = record { serves = window_Serves; shows = refl; enough = omega arith }

decode_res_body_lem_example :
    (i : BodyImage) × (decode_res_body true plain_decoders small 10 parsed_headers posted ≡ (
      ok true,
      set_res_body_decoded i (find_encodings parsed_headers [] ++ (identity ∷ [])) posted,
    ))
    × ImageHolds i (3 ∷ 4 ∷ 5 ∷ [])
unfolding find_encodings scan_rev
decode_res_body_lem_example =
    decode_res_body_lem true plain_decoders small 10 host-BufferLaws (host-MakesFiles (λ _. ⊥))
      parsed_headers posted gzip (3 ∷ 4 ∷ 5 ∷ []) refl posted-Unpacks (omega arith) (omega arith)
      (omega arith)
