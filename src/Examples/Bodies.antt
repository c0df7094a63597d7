-- ===== src/Examples/Bodies.antt =====
-- The theorems on bodies at concrete inputs, and runs of the code.
use body_image.Common.{◌+◌, ◌≤◌, ◌≡◌, refl, [], ◌∷◌, ok, arith}
use body_image.Image.{BodySink, BodyImage, push, write_back, prepare, SinkState}
use body_image.Image.Content.{InFile, Leaves, push-Leaves, write_back-InFile}
use body_image.Image.Prepared.{ImageHolds, Prepared, prepare-Prepared}
use body_image.Image.Tune.{
  Tunables, set_max_body_ram, build, apply, apply_all, finish, default_tunables,
}
use body_image.Image.Tune.Bounds.{HasBuffers, build-HasBuffers}
use body_image.Image.ReadFrom.{read_from}
use body_image.Image.ReadFrom.Steps.{Reads}
use body_image.Image.ReadFrom.Whole.{read_from-Reads, read_from_complete}
use body_image.Examples.Script.{Script, chunk, interrupt, view, script_read, script_Serves}
use body_image.Examples.Host.{host, host-BufferLaws, host-MakesFiles}

abbrev tight : Tunables
tight = record {
  max_body_ram = 3;
  max_body = 5;
  buffer_size_ram = 2;
  buffer_size_fs = 2;
  size_estimate_deflate = 4;
  size_estimate_gzip = 5;
  size_estimate_brotli = 6;
  temp_dir = [];
}

abbrev input : Script
input = chunk 1 (2 ∷ []) ∷ interrupt ∷ chunk 3 (4 ∷ 5 ∷ []) ∷ []

read_from_complete_example :
    (i : BodyImage) × (read_from script_read tight 50 0 input ≡ ok i) × ImageHolds i (view input)
read_from_complete_example =
    read_from_complete host-BufferLaws script_read (script_Serves _) tight (host-MakesFiles _) 50 0
      input (omega arith) (omega arith) (omega arith)

read_from-Reads_example :
    Reads (λ _. Unit) 5 (5 + 5) (view input) (read_from script_read tight 50 4 input)
read_from-Reads_example =
    read_from-Reads (λ _. Unit) host-BufferLaws script_read (script_Serves _) tight
      (host-MakesFiles _) 50 4 input (omega arith) (omega arith)

build-HasBuffers_example :
    HasBuffers (record (default_tunables []) { max_body_ram = 7 }) × (7 ≤ 1073741824)
unfolding build apply_all apply finish
build-HasBuffers_example =
    build-HasBuffers [] (set_max_body_ram 7 ∷ [])
      (record (default_tunables []) { max_body_ram = 7 }) refl

abbrev in_ram : BodySink
in_ram = record { state = SinkState.ram ((1 ∷ []) ∷ (2 ∷ 3 ∷ []) ∷ []); len = 3 }

write_back-InFile_example :
    let (r, s) = write_back [] in_ram in InFile (λ _. ⊥) (1 ∷ 2 ∷ 3 ∷ []) r s
write_back-InFile_example =
    write_back-InFile (λ _. ⊥) [] in_ram (1 ∷ 2 ∷ 3 ∷ []) (host-MakesFiles _)
      (record { state = refl; len = refl })

push-Leaves_example : let (r, s) = push (9 ∷ []) in_ram in Leaves (λ _. ⊥) (1 ∷ 2 ∷ 3 ∷ 9 ∷ []) r s
push-Leaves_example =
    push-Leaves (λ _. ⊥) (9 ∷ []) (1 ∷ 2 ∷ 3 ∷ []) in_ram (record { state = refl; len = refl })
      (omega arith)

prepare-Prepared_example : Prepared (λ _. ⊥) (1 ∷ 2 ∷ 3 ∷ []) (prepare in_ram)
prepare-Prepared_example =
    prepare-Prepared (λ _. ⊥) in_ram (1 ∷ 2 ∷ 3 ∷ []) (record { state = refl; len = refl })
