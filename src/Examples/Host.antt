-- ===== src/Examples/Host.antt =====
-- A file system that never fails, for the theorems at concrete inputs.
use body_image.Common.{
  ℕ, ◌+◌, ◌-◌, ◌<◌, ◌≡◌, refl, [], ◌++◌, length, take, drop, ◌==◌, if◌then◌else◌, Bool-cases, inl,
  inr, Outcome, ok, ==_false→pos, arith,
}
use mathlib.Core.Path.{subst}
use body_image.Io.{Bytes, IoError, File, new_file}
use body_image.Io.Laws.{EndsWith}
use body_image.Storage.{Storage}
use body_image.Image.Content.{MakesFiles}
use body_image.Image.ReadFrom.Steps.{BufferLaws}

-- A range of bytes and the position in it.
pub record Window : Type 0 where
  pub bytes : Bytes
  pub at : ℕ

abbrev pub window_read : ℕ → Window → Outcome IoError Bytes × Window
window_read n w =
    let got = take n (drop w.at w.bytes) in (ok got, record w { at = w.at + length got })

-- A growing buffer: what it holds, and the capacity that it was made with.
pub record Growing : Type 0 where
  pub held : Bytes
  pub cap : ℕ

abbrev free : Growing → ℕ
free b = if b.cap - length b.held == 0 then 64 else b.cap - length b.held

instance abbrev pub host : Storage
host = record {
  tempfile_in = λ dir. ok new_file;
  Mmap = Bytes;
  map_file = λ f. ok f.content;
  map_bytes = λ m. m;
  advise_sequential = λ m. ok tt;
  advise_normal = λ m. ok tt;
  ReadSlice = Window;
  slice_new = λ f a b. record { bytes = take (b - a) (drop a f.content); at = 0 };
  slice_len = λ w. length w.bytes;
  slice_read = record { read = window_read };
  slice_mem_map = λ w. ok w.bytes;
  ReadPos = Window;
  pos_new = λ f n. record { bytes = f.content; at = 0 };
  pos_read = record { read = window_read };
  tell = λ w. w.at;
  pos_seek_start = λ p w. (ok p, record w { at = p });
  pos_seek_current = λ n w. (ok (w.at + n), record w { at = w.at + n });
  subslice = λ w a b. record { bytes = take (b - a) (drop a w.bytes); at = 0 };
  BytesMut = Growing;
  with_capacity = λ n. record { held = []; cap = n };
  chunk_len = free;
  remaining_mut = λ b. b.cap - length b.held;
  put = λ bs b. record b { held = b.held ++ bs };
  clear = λ b. record b { held = [] };
  buf_bytes = λ b. b.held;
}

free-pos : (b : Growing) → 0 < free b
free-pos b = elim (Bool-cases (b.cap - length b.held == 0)) [
  | inl full ↦ rw full (omega arith)
  | inr some_free ↦ rw some_free (==_false→pos _ some_free)
]

pub host-BufferLaws : BufferLaws host
host-BufferLaws = record {
  fresh = λ n. refl;
  fills = λ b x. refl;
  cleared = λ x. refl;
  room = free-pos;
}

new_file-EndsWith : (P : IoError → Type 0) (f : File) → new_file ≡ f → EndsWith P f []
new_file-EndsWith P f e =
    subst (λ g. EndsWith P g []) e (record { holds = refl; at_end = refl; excused = tt })

pub host-MakesFiles : (P : IoError → Type 0) → MakesFiles P host
host-MakesFiles P = record {
  made = λ dir f e. new_file-EndsWith P f (cc);
  refused = λ dir e h. cc;
  returns = λ dir. (λ e. cc, λ e. cc);
}
