-- ===== src/Futio/Buf.antt =====
-- body-image-futio/src/mem_map_buf.rs and uni_body_buf.rs, and the `OutputBuf`s of stream.rs.
pub mod Splits
pub mod Outputs
use body_image.Common.{
  ℕ, ◌+◌, ◌-◌, ltb, leb, if◌then◌else◌, List, [], ◌∷◌, Option, none, some, length, take, drop, Done,
  Outcome, ok, err, panic, ◌>>=◌, ◌>>◌, map_ok,
}
use body_image.Common.Exec.{Exec}
use body_image.Io.{Bytes, IoError}
use body_image.Storage.{Storage}
use body_image.Image.{tmp_advise}

module _ ⦃st : Storage⦄ where
  open st use {Mmap, map_bytes, advise_sequential}

  pub record MemMapBuf : Type 0 where
    pub mm : Mmap
    pub pos : ℕ
    pub len : ℕ

  abbrev pub new_map_buf : Mmap → MemMapBuf
  new_map_buf m = record { mm = m; pos = 0; len = length (map_bytes m) }

  -- `mm[pos..len]`: also `Deref` and `AsRef`.
  abbrev pub map_chunk : MemMapBuf → Bytes
  map_chunk b = take (b.len - b.pos) (drop b.pos (map_bytes b.mm))

  abbrev pub map_remaining : MemMapBuf → ℕ
  map_remaining b = b.len - b.pos

  unfoldable pub map_split_to : ℕ → Exec MemMapBuf IoError MemMapBuf
  map_split_to rel b =
      if ltb 0 rel
      then if ltb (b.pos + rel) b.len
        then (ok (record b { len = b.pos + rel }), record b { pos = b.pos + rel })
        else (panic, b)
      else (panic, b)

  unfoldable pub map_advance : ℕ → Exec MemMapBuf IoError Done
  map_advance rel b =
      if leb rel (map_remaining b) then (ok tt, record b { pos = b.pos + rel }) else (panic, b)

  pub data UniBodyBuf : Type 0 where
    bytes : Bytes → UniBodyBuf
    mem_map : MemMapBuf → UniBodyBuf

  abbrev pub remaining : UniBodyBuf → ℕ
  remaining (bytes b) = length b
  remaining (mem_map b) = map_remaining b

  abbrev pub chunk : UniBodyBuf → Bytes
  chunk (bytes b) = b
  chunk (mem_map b) = map_chunk b

  -- `Bytes::advance` panics beyond the end.
  unfoldable pub advance : ℕ → Exec UniBodyBuf IoError Done
  unfolding map_advance
  advance count (bytes b) =
      if leb count (length b) then (ok tt, bytes (drop count b)) else (panic, bytes b)
  advance count (mem_map b) = let (r, b') = map_advance count b in (r, mem_map b')

  abbrev pub split_off : ℕ → Exec UniBodyBuf IoError UniBodyBuf
  split_off max (bytes b) = (ok (bytes (take max b)), bytes (drop max b))
  split_off max (mem_map b) =
      let (r, b') = map_split_to max b in (map_ok (λ front. mem_map front) r, mem_map b')

  unfoldable pub split_if : ℕ → Exec UniBodyBuf IoError (Option UniBodyBuf)
  unfolding map_split_to
  split_if max u =
      if ltb max (length (chunk u))
      then (let (r, u') = split_off max u in (map_ok (λ front. some front) r, u'))
      else (ok none, u)

  -- `Into<Bytes>`: the bytes of a mapping are copied.
  abbrev pub into_bytes : UniBodyBuf → Bytes
  into_bytes u = chunk u

  pub record OutputBuf (B : Type 0) : Type 0 where
    pub from_bytes : Bytes → B
    pub from_mmap : Mmap → Outcome IoError B
    pub buf_remaining : B → ℕ
    pub buf_chunk : B → Bytes

  -- The mapping is copied under the sequential advice.
  abbrev pub copy_mmap : Mmap → Outcome IoError Bytes
  copy_mmap m = (tmp_advise m (λ w. (ok tt, w)) tt).0 >> ok (map_bytes m)

  instance abbrev pub bytes_output : OutputBuf Bytes
  bytes_output = record {
    from_bytes = λ b. b;
    from_mmap = copy_mmap;
    buf_remaining = length;
    buf_chunk = λ b. b;
  }

  -- The access to the first byte panics on an empty mapping.
  abbrev pub touch : Bytes → UniBodyBuf → Outcome IoError UniBodyBuf
  touch [] u = panic
  touch (x ∷ b) u = ok u

  abbrev pub wrap_mmap : Mmap → Outcome IoError UniBodyBuf
  wrap_mmap m = advise_sequential m >> touch (map_chunk (new_map_buf m)) (mem_map (new_map_buf m))

  instance abbrev pub uni_output : OutputBuf UniBodyBuf
  uni_output = record {
    from_bytes = λ b. bytes b;
    from_mmap = wrap_mmap;
    buf_remaining = remaining;
    buf_chunk = chunk;
  }
