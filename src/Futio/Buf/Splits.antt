-- ===== src/Futio/Buf/Splits.antt =====
-- Splitting and advancing a `UniBodyBuf`.
use body_image.Common.{
  ℕ, ◌+◌, ◌-◌, ◌<◌, ◌≤◌, ◌≡◌, refl, sym, length, take, drop, length-take, length-drop, ltb, leb,
  lt→ltb, leb→le, leb-false→lt, ltb→lt, ltb-false→le, Option, none, some, Outcome, ok, err, panic,
  hang, arith, Bool-cases, inl, inr, Done, drop-drop, take-take, drop-take, map_ok,
}
use body_image.Io.{Bytes, IoError}
use body_image.Storage.{Storage}
use body_image.Futio.Buf.{
  MemMapBuf, map_chunk, map_split_to, map_advance, map_remaining, UniBodyBuf, bytes, mem_map, chunk,
  remaining, split_off, split_if, advance,
}

module _ ⦃st : Storage⦄ where
  open st use {map_bytes}

  -- The range of a mapping lies in it.
  abbrev pub InRange : UniBodyBuf → Type 0
  InRange (bytes b) = Unit
  InRange (mem_map b) = (b.pos ≤ b.len) × (b.len ≤ length (map_bytes b.mm))

  -- A buffer with the bytes `b`, no more, in its range.
  pub record Shows (u : UniBodyBuf) (b : Bytes) : Type 0 where
    pub range : InRange u
    pub shown : chunk u ≡ b

  -- How a split of a buffer at `max` may end.
  abbrev pub Split : ℕ → Bytes → Outcome IoError (Option UniBodyBuf) → UniBodyBuf → Type 0
  Split max b (ok none) u = (length b ≤ max) × Shows u b
  Split max b (ok (some front)) u =
      (max < length b) × Shows front (take max b) × Shows u (drop max b)
  Split max b (err e) u = ⊥
  Split max b panic u = ⊥
  Split max b hang u = ⊥

  chunk_size : (b : MemMapBuf) → InRange (mem_map b) → length (map_chunk b) ≡ b.len - b.pos
  chunk_size b h = omega (
    arith,
    h.0,
    h.1,
    length-take (b.len - b.pos) (drop b.pos (map_bytes b.mm)),
    length-drop b.pos (map_bytes b.mm),
  )

  -- The number of bytes in the chunk of a buffer in its range.
  pub remaining_lem : (u : UniBodyBuf) → InRange u → remaining u ≡ length (chunk u)
  remaining_lem (bytes b) h = refl
  remaining_lem (mem_map b) h = sym (chunk_size b h)

  front_lem :
      (p n m : ℕ) (xs : Bytes)
      → m ≤ n - p
      → take (p + m - p) (drop p xs) ≡ take m (take (n - p) (drop p xs))
  front_lem p n m xs h =
      let e : p + m - p ≡ m = omega arith in rw e (sym (take-take m (n - p) (drop p xs) h))

  back_lem :
      (p n m : ℕ) (xs : Bytes)
      → m ≤ n - p
      → take (n - (p + m)) (drop (p + m) xs) ≡ drop m (take (n - p) (drop p xs))
  back_lem p n m xs h =
      let e : n - p ≡ m + (n - (p + m)) = omega arith in
      rw (e, drop-drop p m xs) (sym (drop-take m (n - (p + m)) (drop p xs)))

  split_off-Split :
      (u : UniBodyBuf) (max : ℕ)
      → InRange u
      → 0 < max
      → max < length (chunk u)
      → let (r, u') = split_off max u in Split max (chunk u) (map_ok (λ front. some front) r) u'
  unfolding map_split_to
  split_off-Split (bytes b) max h pos lt =
      (lt, record { range = tt; shown = refl }, record { range = tt; shown = refl })
  split_off-Split (mem_map b) max h pos lt =
      let inside : b.pos + max < b.len = omega (arith, chunk_size b h, h.0) in
      rw (lt→ltb 0 max pos, lt→ltb (b.pos + max) b.len inside)
        (
          lt,
          record {
            range = (omega arith, omega (arith, inside, h.1));
            shown = front_lem b.pos b.len max (map_bytes b.mm) (omega (arith, inside));
          },
          record {
            range = (omega arith, h.1);
            shown = back_lem b.pos b.len max (map_bytes b.mm) (omega (arith, inside));
          },
        )

  -- For a buffer in its range and a positive maximum, `split_if` never panics. It splits exactly
  -- when the buffer has more bytes than the maximum: the first part is the first `max` bytes and
  -- the buffer keeps the others, both in their range. If it does not split, the buffer stays.
  pub split_if-Split :
      (u : UniBodyBuf) (max : ℕ)
      → InRange u
      → 0 < max
      → let (r, u') = split_if max u in Split max (chunk u) r u'
  unfolding split_if
  split_if-Split u max h pos = elim (Bool-cases (ltb max (length (chunk u)))) [
    | inl long ↦ rw long (split_off-Split u max h pos (ltb→lt max (length (chunk u)) long))
    | inr short ↦
        rw short (ltb-false→le max (length (chunk u)) short, record { range = h; shown = refl })
  ]

  -- How an advance by `n` over the bytes `b` ends.
  abbrev pub Advanced : ℕ → UniBodyBuf → Outcome IoError Done → UniBodyBuf → Type 0
  Advanced n u (ok _) u' = (n ≤ length (chunk u)) × Shows u' (drop n (chunk u))
  Advanced n u panic u' = (length (chunk u) < n) × (u' ≡ u)
  Advanced n u (err e) u' = ⊥
  Advanced n u hang u' = ⊥

  -- For a buffer in its range, `advance` drops the bytes that it is told to, and panics exactly
  -- when there are fewer.
  pub advance-Advanced :
      (u : UniBodyBuf) (n : ℕ) → InRange u → let (r, u') = advance n u in Advanced n u r u'
  unfolding advance map_advance
  advance-Advanced (bytes b) n h = elim (Bool-cases (leb n (length b))) [
    | inl some_left ↦ rw some_left (leb→le _ _ some_left, record { range = tt; shown = refl })
    | inr too_few ↦ rw too_few (leb-false→lt _ _ too_few, refl)
  ]
  advance-Advanced (mem_map b) n h = elim (Bool-cases (leb n (map_remaining b))) [
    | inl some_left ↦
        let room : n ≤ b.len - b.pos = leb→le _ _ some_left in
        rw some_left (
          omega (arith, room, chunk_size b h),
          record {
            range = (omega (arith, room, h.0), h.1);
            shown = back_lem b.pos b.len n (map_bytes b.mm) room;
          },
        )
    | inr too_few ↦ rw too_few (omega (arith, leb-false→lt _ _ too_few, chunk_size b h), refl)
  ]
