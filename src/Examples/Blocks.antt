-- ===== src/Examples/Blocks.antt =====
-- The theorems on the blocks of a record at concrete inputs.
use body_image.Common.{◌≡◌, refl, [], ◌∷◌, ◌++◌, length, ascii, true, false, arith}
use body_image.Common.Post.{After}
use body_image.Io.{new_file, file_write}
use body_image.Io.Seeking.{StandsAt, append-After}
use body_image.Barc.Compress.{len_of_headers}
use body_image.Barc.Read.{read_headers, read_body_ram, parse_headers}
use body_image.Barc.Read.Blocks.{At, read_body_ram-padded, read_headers-padded}
use body_image.Barc.Write.{crlf, write_headers}
use body_image.Io.Copied.{Appends}
use body_image.Barc.Write.Blocks.{Io, header_lines}
use body_image.Barc.Write.Bodies.{InRam, write_headers-len_of_headers}
use body_image.Examples.Script.{Script, chunk, interrupt, view, script_read, script_Serves}
use body_image.Examples.Host.{host}
use body_image.Examples.Web.{web}

abbrev pub file_Appends : Appends (λ _. ⊥) file_write
file_Appends = record {
  holds = λ f c. StandsAt (λ _. ⊥) f (length c) c;
  appends = append-After (λ _. ⊥);
}

write_headers-len_of_headers_example :
    After
      (Io (λ _. ⊥))
      ⊥
      (λ n _. n ≡ len_of_headers ((ascii "a", ascii "xyz") ∷ []))
      (write_headers file_write false ((ascii "a", ascii "xyz") ∷ []) new_file).0
      (write_headers file_write false ((ascii "a", ascii "xyz") ∷ []) new_file).1
unfolding len_of_headers
write_headers-len_of_headers_example =
    write_headers-len_of_headers (λ _. ⊥) file_write file_Appends ((ascii "a", ascii "xyz") ∷ []) []
      new_file (record { holds = refl; at = refl; excused = tt }) (omega arith)

-- A body of two bytes with its padding, in pieces, and what stands behind it.
abbrev in_pieces : Script
in_pieces = chunk 1 [] ∷ interrupt ∷ chunk 2 (13 ∷ []) ∷ chunk 10 (7 ∷ []) ∷ []

read_body_ram-padded_example :
    let (out, r) = read_body_ram script_read 20 true 4 in_pieces in
    After
      (Io (λ _. ⊥))
      ⊥
      (At (λ _. ⊥) script_read (script_Serves _) (λ i. InRam i (1 ∷ 2 ∷ [])) (7 ∷ []) 1)
      out
      r
read_body_ram-padded_example =
    read_body_ram-padded (λ _. ⊥) script_read (script_Serves _) 20 true (1 ∷ 2 ∷ []) (7 ∷ [])
      in_pieces refl (omega arith) (omega arith)

abbrev one_header : Script
one_header =
    chunk b'a' (b':' ∷ []) ∷ interrupt ∷ chunk b' ' (b'x' ∷ 13 ∷ 10 ∷ 13 ∷ 10 ∷ 9 ∷ []) ∷ []

read_headers-padded_example :
    let (out, r) = read_headers script_read 20 true 8 one_header in
    (out ≡ parse_headers (header_lines ((ascii "a", ascii "x") ∷ []) ++ crlf)) × (view r ≡ 9 ∷ [])
read_headers-padded_example =
    read_headers-padded script_read (script_Serves _) 20 true ((ascii "a", ascii "x") ∷ []) (9 ∷ [])
      one_header (λ e. cc) refl (omega arith)
