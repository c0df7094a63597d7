-- ===== src/Io/Seeking.antt =====
-- The calls on a file that move its position, flush it, or write at any position.
use body_image.Common.{
  ℕ, ◌+◌, ◌-◌, ◌≡◌, refl, List, [], ◌∷◌, ◌++◌, length, take, drop, take_front, drop_front,
  append_assoc, append-nil, length-append, Option, none, some, Done, arith,
}
use body_image.Common.Post.{After, After-mono}
use body_image.Io.Stream.{Bytes, IoError}
use body_image.Io.FileOps.{
  Fault, File, attempt, overwrite, put_bytes, file_write_all, file_flush, seek_start, seek_end,
  stream_position,
}
use body_image.Io.Laws.{Excuses, overwrite_end}

-- The file holds `c` and stands at `p`.
pub record StandsAt (P : IoError → Type 0) (f : File) (p : ℕ) (c : Bytes) : Type 0 where
  pub holds : f.content ≡ c
  pub at : f.pos ≡ p
  pub excused : Excuses P f.faults

module _ (P : IoError → Type 0) where
  attempt-After :
      {A : Type 0} (p : ℕ) (c : Bytes) (fs : List (Option Fault)) (fail : Fault → File) (a : A)
      (g : File)
      → Excuses P fs
      → StandsAt P g p c
      → After P ⊥
          (λ b f. (b ≡ a) × StandsAt P f p c)
          (attempt fs fail a g).0
          (attempt fs fail a g).1
  attempt-After p c [] fail a g x h = (refl, h)
  attempt-After p c (none ∷ rest) fail a g x h =
      (refl, record { holds = h.holds; at = h.at; excused = x })
  attempt-After p c (some y ∷ rest) fail a g x h = x.0

  pub seek_start-After :
      (p q : ℕ) (c : Bytes) (f : File)
      → StandsAt P f q c
      → After P ⊥ (λ n g. (n ≡ p) × StandsAt P g p c) (seek_start p f).0 (seek_start p f).1
  unfolding seek_start
  seek_start-After p q c f h =
      attempt-After p c f.faults _ p _ h.excused
        (record { holds = h.holds; at = refl; excused = h.excused })

  pub seek_end-After :
      (q : ℕ) (c : Bytes) (f : File)
      → StandsAt P f q c
      → After P ⊥ (λ n g. (n ≡ length c) × StandsAt P g (length c) c) (seek_end f).0 (seek_end f).1
  unfolding seek_end
  seek_end-After q c f h = rw (← h.holds) (
      attempt-After (length f.content) f.content f.faults _ (length f.content) _ h.excused
        (record { holds = refl; at = refl; excused = h.excused }))

  pub stream_position-After :
      (q : ℕ) (c : Bytes) (f : File)
      → StandsAt P f q c
      → After P ⊥ (λ n g. (n ≡ q) × StandsAt P g q c) (stream_position f).0 (stream_position f).1
  unfolding stream_position
  stream_position-After q c f h = rw (← h.at) (
      attempt-After f.pos c f.faults _ f.pos f h.excused
        (record { holds = h.holds; at = refl; excused = h.excused }))

  attempt_flush :
      (q : ℕ) (c : Bytes) (fs : List (Option Fault)) (g : File)
      → Excuses P fs
      → StandsAt P g q c
      → After P ⊥
          (λ _ g'. StandsAt P g' q c)
          (attempt {0} {A = Done} fs (λ _. g) tt g).0
          (attempt {0} {A = Done} fs (λ _. g) tt g).1
  attempt_flush q c [] g x k = k
  attempt_flush q c (none ∷ rest) g x k = record { holds = k.holds; at = k.at; excused = x }
  attempt_flush q c (some y ∷ rest) g x k = x.0

  pub file_flush-After :
      (q : ℕ) (c : Bytes) (f : File)
      → StandsAt P f q c
      → After P ⊥ (λ _ g. StandsAt P g q c) (file_flush f).0 (file_flush f).1
  unfolding file_flush
  file_flush-After q c f h = attempt_flush q c f.faults f h.excused h

  pub overwrite_middle :
      (c old b rest : Bytes)
      → length old ≡ length b
      → overwrite (length c) b (c ++ (old ++ rest)) ≡ c ++ (b ++ rest)
  overwrite_middle c old b rest e =
      let inside : length c - length (c ++ (old ++ rest)) ≡ 0 =
        omega (arith, length-append c (old ++ rest)) in
      let behind : drop (length c + length b) (c ++ (old ++ rest)) ≡ rest =
        rw (← append_assoc c old rest, ← e, ← length-append c old)
          (drop_front (length (c ++ old)) (c ++ old) rest refl) in
      rw
        (
          inside,
          append-nil (c ++ (old ++ rest)),
          take_front (length c) c (old ++ rest) refl,
          behind,
        )
        refl

  put-After :
      (b : Bytes) (q : ℕ) (c : Bytes) (f : File)
      → overwrite f.pos b f.content ≡ c
      → f.pos + length b ≡ q
      → Excuses P f.faults
      → After P ⊥ (λ _ g. StandsAt P g q c) (file_write_all b f).0 (file_write_all b f).1
  unfolding file_write_all
  put-After b q c f e p x =
      After-mono P ⊥ (λ d g. (d ≡ tt) × StandsAt P g q c) (λ _ g. StandsAt P g q c) _ _
        (attempt-After q c f.faults (λ y. put_bytes (take y.done b) f) tt (put_bytes b f) x
          (record { holds = e; at = p; excused = x }))
        (λ d g k. k.1)

  -- Bytes written over as many others in the middle of a file leave the rest as it is.
  pub write_over-After :
      (c old b rest : Bytes) (f : File)
      → length old ≡ length b
      → StandsAt P f (length c) (c ++ (old ++ rest))
      → After P ⊥
          (λ _ g. StandsAt P g (length c + length b) (c ++ (b ++ rest)))
          (file_write_all b f).0
          (file_write_all b f).1
  write_over-After c old b rest f e h =
      put-After b _ _ f (rw (h.at, h.holds) (overwrite_middle c old b rest e)) (omega (arith, h.at))
        h.excused

  pub append-After :
      (b c : Bytes) (f : File)
      → StandsAt P f (length c) c
      → After P ⊥
          (λ _ g. StandsAt P g (length (c ++ b)) (c ++ b))
          (file_write_all b f).0
          (file_write_all b f).1
  append-After b c f h =
      put-After b _ _ f (rw (h.holds) (overwrite_end f.pos b c h.at))
        (omega (arith, h.at, length-append c b)) h.excused
