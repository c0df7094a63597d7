-- ===== src/Futio/Buf/Outputs.antt =====
-- What a stream relies on in its item type.
use body_image.Common.{
  ◌≡◌, refl, ap, [], ◌∷◌, length, take_all, Done, Outcome, ok, err, panic, hang, ◌>>◌, arith,
}
use mathlib.Core.Path.{subst}
use body_image.Io.{Bytes, IoError}
use body_image.Storage.{Storage}
use body_image.Image.{tmp_advise}
use body_image.Futio.Buf.{
  OutputBuf, bytes_output, uni_output, copy_mmap, wrap_mmap, touch, new_map_buf, map_chunk,
  UniBodyBuf, mem_map, chunk, remaining,
}

module _ ⦃st : Storage⦄ (P : IoError → Type 0) where
  open st use {Mmap, map_bytes}

  -- How a conversion from a mapping of the bytes `b` may end.
  abbrev pub MapsTo : {B : Type 0} → OutputBuf B → Bytes → Outcome IoError B → Type 0
  MapsTo ob b (ok x) = (ob.buf_chunk x ≡ b) × (ob.buf_remaining x ≡ length b)
  MapsTo ob b (err e) = P e
  MapsTo ob b panic = b ≡ []
  MapsTo ob b hang = ⊥

  pub record OutputLaws {B : Type 0} (ob : OutputBuf B) : Type 0 where
    pub chunk_from : (b : Bytes) → ob.buf_chunk (ob.from_bytes b) ≡ b
    pub maps : (m : Mmap) → MapsTo ob (map_bytes m) (ob.from_mmap m)

  -- Advice on a mapping may fail, but it returns.
  abbrev pub Advises : Outcome IoError Done → Type 0
  Advises (ok _) = Unit
  Advises (err e) = P e
  Advises panic = ⊥
  Advises hang = ⊥

  pub record AdviceLaws : Type 0 where
    pub sequential : (m : Mmap) → Advises (st.advise_sequential m)
    pub normal : (m : Mmap) → Advises (st.advise_normal m)

  copy_lem :
      (m : Mmap) (a c : Outcome IoError Done)
      → st.advise_sequential m ≡ a
      → st.advise_normal m ≡ c
      → Advises a
      → Advises c
      → MapsTo bytes_output (map_bytes m) (copy_mmap m)
  copy_lem m (ok _) (ok _) ea ec h k = rw (copy_mmap, tmp_advise, ea, ec) (refl, refl)
  copy_lem m (ok _) (err e) ea ec h k = rw (copy_mmap, tmp_advise, ea, ec) k
  copy_lem m (ok _) panic ea ec h k = absurd k
  copy_lem m (ok _) hang ea ec h k = absurd k
  copy_lem m (err e) c ea ec h k = rw (copy_mmap, tmp_advise, ea) h
  copy_lem m panic c ea ec h k = absurd h
  copy_lem m hang c ea ec h k = absurd h

  touch_lem :
      (a : Outcome IoError Done) (u : UniBodyBuf) (b : Bytes)
      → Advises a
      → chunk u ≡ b
      → remaining u ≡ length b
      → MapsTo uni_output b (a >> touch b u)
  touch_lem (ok _) u [] h e n = refl
  touch_lem (ok _) u (x ∷ b) h e n = (e, n)
  touch_lem (err x) u b h e n = h
  touch_lem panic u b h e n = absurd h
  touch_lem hang u b h e n = h

  -- If advice on a mapping returns, `Bytes` and `UniBodyBuf` are item types of a stream.
  pub bytes-OutputLaws : AdviceLaws → OutputLaws bytes_output
  bytes-OutputLaws h = record {
    chunk_from = λ b. refl;
    maps = λ m. copy_lem m _ _ refl refl (h.sequential m) (h.normal m);
  }

  pub uni-OutputLaws : AdviceLaws → OutputLaws uni_output
  uni-OutputLaws h = record {
    chunk_from = λ b. refl;
    maps = λ m.
        let all : map_chunk (new_map_buf m) ≡ map_bytes m =
          take_all _ (map_bytes m) (omega arith) in
        subst (λ b. MapsTo uni_output b (wrap_mmap m)) all
          (touch_lem _ (mem_map (new_map_buf m)) (map_chunk (new_map_buf m)) (h.sequential m) refl
            (omega (arith, ap length all)));
  }
