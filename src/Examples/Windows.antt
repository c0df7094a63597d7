-- ===== src/Examples/Windows.antt =====
-- A reader of a file from a position, and the theorem on reserved heads at a concrete file.
use body_image.Common.{
  ℕ, zero, suc, ◌+◌, ◌<◌, ◌≡◌, refl, sym, ap, ◌∙◌, [], ◌∷◌, ◌++◌, take, drop, length, length-take,
  drop-drop, ok, none, arith,
}
use body_image.Common.Post.{After}
use body_image.Io.{Bytes, IoError, new_file, file_write}
use body_image.Io.Seeking.{StandsAt}
use body_image.Io.Laws.{Serves}
use body_image.Image.{BodyImage, ImageState, contiguous, gather, reader, write_to}
use body_image.Image.Prepared.{ImageHolds}
use body_image.Image.Emitted.{Excused, write_to-After}
use body_image.Image.Gathered.{gather-Gathered}
use body_image.Image.Tune.{default_tunables}
use body_image.Barc.{v2_reserve_head}
use body_image.Barc.Format.{format_head, format_hex, hex_more, hex_digit}
use body_image.Barc.{type_flag, compress_flag}
use body_image.Barc.Read.{read}
use body_image.Barc.Read.Reserved.{read_reserved}
use body_image.Examples.Host.{host, host-BufferLaws, Window}
use body_image.Examples.Web.{web}
use body_image.Examples.Records.{codecs}
use body_image.Examples.Blocks.{file_Appends}

take_rest : (n : ℕ) (b : Bytes) → b ≡ take n b ++ drop (length (take n b)) b
take_rest zero b = refl
take_rest (suc n) [] = refl
take_rest (suc n) (x ∷ b) = ap (λ t. x ∷ t) (take_rest n b)

pub step_window :
    (n a : ℕ) (b : Bytes) → drop a b ≡ take n (drop a b) ++ drop (a + length (take n (drop a b))) b
step_window n a b =
    take_rest n (drop a b)
    ∙ ap (λ t. take n (drop a b) ++ t) (sym (drop-drop a (length (take n (drop a b))) b))

pub no_more : (n : ℕ) (b : Bytes) → 0 < n → take n b ≡ [] → b ≡ []
no_more zero b h e = absurd (omega arith)
no_more (suc n) [] h e = refl
no_more (suc n) (x ∷ b) h e = cc

abbrev pub serves_window : (P : IoError → Type 0) → Serves P host.pos_read
serves_window P = record {
  view = λ w. drop w.at w.bytes;
  waits = λ w. 0;
  answers = λ n w h. (
    step_window n w.at w.bytes,
    omega (arith, length-take n (drop w.at w.bytes)),
    λ e. no_more n (drop w.at w.bytes) h e,
    omega arith,
  );
}

abbrev pub window_Serves : Serves (λ _. ⊥) host.pos_read
window_Serves = serves_window (λ _. ⊥)

-- A head that is reserved behind three bytes of the file, where the reader stands.
abbrev at_reserved : Window
at_reserved = record { bytes = 1 ∷ 2 ∷ 3 ∷ (format_head v2_reserve_head ++ (9 ∷ [])); at = 3 }

read_reserved_example :
    let (out, w) = read (default_tunables []) 100 at_reserved in (out ≡ ok none) × (w.at ≡ 3)
unfolding format_head format_hex hex_more hex_digit type_flag compress_flag
read_reserved_example =
    read_reserved (default_tunables []) 100 (record { seeks = λ p r. (refl, refl) }) window_Serves
      (9 ∷ []) at_reserved refl (omega arith)

abbrev stored : BodyImage
stored = record {
  state = ImageState.fs_read (record new_file { content = 7 ∷ 8 ∷ 9 ∷ [] });
  len = 3;
}

write_to-After_example :
    After
      (Excused (λ _. ⊥))
      ⊥
      (λ n f. (n ≡ 3) × StandsAt (λ _. ⊥) f 4 (5 ∷ 7 ∷ 8 ∷ 9 ∷ []))
      (write_to file_write 4 stored (record new_file { content = 5 ∷ []; pos = 1 })).0
      (write_to file_write 4 stored (record new_file { content = 5 ∷ []; pos = 1 })).1
write_to-After_example =
    write_to-After (λ _. ⊥) file_write file_Appends window_Serves (λ f. refl) 4 stored
      (7 ∷ 8 ∷ 9 ∷ []) (5 ∷ []) (record new_file { content = 5 ∷ []; pos = 1 })
      (record { state = (refl, refl); len = refl })
      (record { holds = refl; at = refl; excused = tt }) (omega arith)

abbrev scattered : BodyImage
scattered = record { state = ImageState.ram ((1 ∷ []) ∷ [] ∷ (2 ∷ 3 ∷ []) ∷ []); len = 3 }

gather-Gathered_example :
    (i' : BodyImage) × (gather scattered ≡ (ok tt, i'))
    × ImageHolds i' (1 ∷ 2 ∷ 3 ∷ [])
    × (reader i' ≡ contiguous (1 ∷ 2 ∷ 3 ∷ []))
gather-Gathered_example =
    gather-Gathered host-BufferLaws scattered (1 ∷ 2 ∷ 3 ∷ []) (record { state = refl; len = refl })
