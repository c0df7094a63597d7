-- ===== src/Futio/Stream.antt =====
-- `AsyncBodyImage` of body-image-futio/src/stream.rs.
pub mod Chunks
pub mod Gives
pub mod Asks
pub mod Whole
use body_image.Common.{
  ℕ, zero, suc, ◌+◌, ◌-◌, ◌==◌, ltb, leb, min, u64, if◌then◌else◌, Bool, true, false, List, [], ◌∷◌,
  Option, none, some, length, Outcome, ok, err, panic, hang,
}
use body_image.Common.Exec.{Exec}
use body_image.Io.{Bytes, IoError, interrupted, Read}
use body_image.Storage.{Storage}
use body_image.Image.{BodyImage, ExplodedImage, explode}
use body_image.Futio.Crates.{Runtime, Poll, ready, pending}
use body_image.Futio.Arbiter.{BlockingArbiter}
use body_image.Futio.Tune.{FutioTunables}
use body_image.Futio.Buf.{OutputBuf}

module _ ⦃st : Storage⦄ where
  open st use {Mmap, ReadSlice, slice_read}

  pub data AsyncBodyState : Type 0 where
    ram : List Bytes → AsyncBodyState
    file : ReadSlice → AsyncBodyState
    mem_map : Option Mmap → AsyncBodyState

  abbrev pub stream_state : ExplodedImage → AsyncBodyState
  stream_state (ExplodedImage.ram v) = ram v
  stream_state (ExplodedImage.fs_read rs) = file rs
  stream_state (ExplodedImage.mem_map m) = mem_map (some m)

  -- The loop over interrupted reads; the fuel counts the calls of `read`.
  abbrev pub chunk_next :
      (Exec ReadSlice IoError Bytes) → Outcome IoError Bytes → Exec ReadSlice IoError Bytes
  chunk_next go (err interrupted) rs = go rs
  chunk_next go r rs = (r, rs)

  unfoldable pub read_chunk : ℕ → ℕ → Exec ReadSlice IoError Bytes
  read_chunk zero rlen rs = (hang, rs)
  read_chunk (suc fuel) rlen rs =
      let (r, rs') = slice_read.read rlen rs in chunk_next (read_chunk fuel rlen) r rs'

  abbrev pub is_ram_stream : AsyncBodyState → Bool
  is_ram_stream (ram _) = true
  is_ram_stream _ = false

  module _ ⦃rt : Runtime⦄ where
    pub record AsyncBodyImage (BA : Type 0) : Type 0 where
      pub state : AsyncBodyState
      pub len : ℕ
      pub consumed : ℕ
      pub tune : FutioTunables
      pub arbiter : BA

    -- A `Poll<Option<Result<B, io::Error>>>`, its `Ready(Some(Err(e)))` being `err e`.
    abbrev pub Polling : Type 0 → Type 0 → Type 0
    Polling BA B = Exec (AsyncBodyImage BA) IoError (Poll (Option B))

    module _ {BA : Type 0} where
      unfoldable pub new_stream :
          ⦃ba : BlockingArbiter BA⦄ → BodyImage → FutioTunables → AsyncBodyImage BA
      new_stream ⦃ba⦄ b t = record {
        state = stream_state (explode b);
        len = b.len;
        consumed = 0;
        tune = t;
        arbiter = ba.initial;
      }

      -- `http_body::Body`: the exact size, and whether the stream is at its end.
      abbrev pub size_hint : AsyncBodyImage BA → ℕ
      size_hint s = s.len

      abbrev pub is_end_stream : AsyncBodyImage BA → Bool
      is_end_stream s = leb s.len s.consumed

      abbrev pub consume : ℕ → AsyncBodyState → AsyncBodyImage BA → AsyncBodyImage BA
      consume n state s = record s { state = state; consumed = u64 (s.consumed + n) }

      module _ {B : Type 0} ⦃ob : OutputBuf B⦄ where
        abbrev pub poll_ram : List Bytes → Polling BA B
        poll_ram [] s = (ok (ready none), s)
        poll_ram (b ∷ v) s = (ok (ready (some (ob.from_bytes b))), consume (length b) (ram v) s)

        abbrev pub chunk_item : Outcome IoError Bytes × ReadSlice → Polling BA B
        chunk_item (ok [], rs) s = (ok (ready none), record s { state = file rs })
        chunk_item (ok (x ∷ b), rs) s =
            (ok (ready (some (ob.from_bytes (x ∷ b)))), consume (length (x ∷ b)) (file rs) s)
        chunk_item (err e, rs) s = (err e, record s { state = file rs })
        chunk_item (panic, rs) s = (panic, record s { state = file rs })
        chunk_item (hang, rs) s = (hang, record s { state = file rs })

        abbrev pub map_item : Outcome IoError B → Polling BA B
        map_item (ok b) s = (ok (ready (some b)), consume (ob.buf_remaining b) (mem_map none) s)
        map_item (err e) s = (err e, record s { state = mem_map none })
        map_item panic s = (panic, record s { state = mem_map none })
        map_item hang s = (hang, record s { state = mem_map none })

        abbrev pub poll_state : ℕ → ℕ → AsyncBodyState → Polling BA B
        poll_state fuel avail (ram v) s = poll_ram v s
        poll_state fuel avail (file rs) s =
            chunk_item (read_chunk fuel (min s.tune.image.buffer_size_fs avail) rs) s
        poll_state fuel avail (mem_map (some m)) s = map_item (ob.from_mmap m) s
        poll_state fuel avail (mem_map none) s = (ok (ready none), s)

        module _ ⦃ba : BlockingArbiter BA⦄ where
          -- Once the arbiter has answered.
          abbrev pub poll_if : ℕ → ℕ → Bool → Polling BA B
          poll_if fuel avail allowed s =
              if allowed then poll_state fuel avail s.state s else (ok pending, s)

          abbrev pub poll_avail : ℕ → ℕ → Polling BA B
          poll_avail fuel avail s =
              if is_ram_stream s.state
              then poll_state fuel avail s.state s
              else let (allowed, a) = ba.can_block s.arbiter in
                poll_if fuel avail allowed (record s { arbiter = a })

          -- Also `poll_next` and `poll_data`. An underflow of `avail` panics.
          unfoldable pub poll_impl : ℕ → Polling BA B
          unfolding read_chunk
          poll_impl fuel s =
              if ltb s.len s.consumed
              then (panic, s)
              else if s.len - s.consumed == 0
              then (ok (ready none), s)
              else poll_avail fuel (s.len - s.consumed) s
