-- ===== src/Examples/Heads.antt =====
-- The theorems on record heads at concrete inputs, and runs of the code.
use body_image.Common.{◌≡◌, refl, [], ◌∷◌, ◌++◌, take, drop, some, ok, err, arith}
use body_image.Common.Exec.{convert}
use body_image.Io.{new_file, file_write, file_write_all}
use body_image.Barc.{io, gzip, read_incomplete_rec_head}
use body_image.Barc.{RecordHead, dialog, v2_reserve_head, v2_head_size, type_flag, compress_flag}
use body_image.Barc.Format.{format_hex, hex_digit, hex_more, format_head, parse_head}
use body_image.Barc.Format.RoundTrip.{InRange, parse_head-format_head}
use body_image.Barc.Head.{head_of, write_record_head, read_record_head}
use body_image.Barc.Head.Reading.{
  read_record_head_lem, read-format_head, read_record_head_short, write_record_head_lem,
}
use body_image.Examples.Script.{Script, chunk, interrupt, view, script_read, script_Serves}

abbrev head : RecordHead
head = record {
  len = 0x1a2b;
  rec_type = dialog;
  compress = gzip;
  meta = 300;
  req_h = 17;
  req_b = 0;
  res_h = 0xf_ffff;
}

head-InRange : InRange head
head-InRange = omega arith

-- The sample files of barc/sample hold heads of this shape.
reserved_line :
    format_head v2_reserve_head
    ≡ b'B' ∷ b'A' ∷ b'R' ∷ b'C' ∷ b'2' ∷ b' ' ∷ b'0' ∷ b'0' ∷ b'0' ∷ b'0' ∷ b'0' ∷ b'0' ∷ b'0'
      ∷ b'0' ∷ b'0' ∷ b'0' ∷ b'0' ∷ b'0' ∷ b' ' ∷ b'R' ∷ b'P' ∷ b' ' ∷ b'0' ∷ b'0' ∷ b'0' ∷ b'0'
      ∷ b'0' ∷ b' ' ∷ b'0' ∷ b'0' ∷ b'0' ∷ b'0' ∷ b'0' ∷ b' ' ∷ b'0' ∷ b'0' ∷ b'0' ∷ b'0' ∷ b'0'
      ∷ b'0' ∷ b'0' ∷ b'0' ∷ b'0' ∷ b'0' ∷ b' ' ∷ b'0' ∷ b'0' ∷ b'0' ∷ b'0' ∷ b'0' ∷ 13 ∷ 10 ∷ 13
      ∷ 10 ∷ []
unfolding format_head format_hex hex_more hex_digit type_flag compress_flag
reserved_line = refl

wide : format_hex 2 0x1a2b ≡ b'1' ∷ b'a' ∷ b'2' ∷ b'b' ∷ []
unfolding format_hex hex_more hex_digit
wide = refl

parse_head-format_head_example : parse_head (format_head head) ≡ ok head
parse_head-format_head_example = parse_head-format_head head head-InRange

-- The line in pieces, behind an interruption, with a record behind it.
abbrev cut_line : Script
cut_line =
    interrupt
    ∷ chunk b'B' (b'A' ∷ [])
    ∷ interrupt
    ∷ chunk b'R' (drop 3 (format_head head) ++ (7 ∷ 8 ∷ []))
    ∷ []

read-format_head_example :
    let (out, s) = read_record_head script_read 100 cut_line in
    (out ≡ ok (some head)) × (view s ≡ 7 ∷ 8 ∷ [])
unfolding format_head format_hex hex_more hex_digit type_flag compress_flag
read-format_head_example =
    read-format_head script_read (script_Serves _) 100 head (7 ∷ 8 ∷ []) cut_line head-InRange refl
      (omega arith)

read_record_head_lem_example :
    let (out, s) = read_record_head script_read 9 (chunk 1 (2 ∷ []) ∷ []) in
    (out ≡ head_of (1 ∷ 2 ∷ [])) × (take v2_head_size (1 ∷ 2 ∷ []) ++ view s ≡ 1 ∷ 2 ∷ [])
read_record_head_lem_example =
    read_record_head_lem script_read (script_Serves _) 9 (chunk 1 (2 ∷ []) ∷ []) (omega arith)

read_record_head_short_example :
    (read_record_head script_read 9 (chunk 1 (2 ∷ []) ∷ [])).0 ≡ err (read_incomplete_rec_head 2)
read_record_head_short_example =
    read_record_head_short script_read (script_Serves _) 9 (chunk 1 (2 ∷ []) ∷ []) (omega arith)
      (omega arith)

write_record_head_lem_example :
    write_record_head file_write head new_file
    ≡ convert io (file_write_all (format_head head)) new_file
write_record_head_lem_example = write_record_head_lem file_write head new_file
