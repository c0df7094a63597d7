-- ===== src/Image/Tune/Bounds.antt =====
-- What every finished `Tunables` guarantees to the code that reads bodies.
use body_image.Common.{◌≤◌, ◌<◌, ◌≡◌, sym, List, [], ◌∷◌, ok, >>=-eq-ok, arith}
use body_image.Io.{Bytes}
use body_image.Image.Tune.{
  Tunables, default_tunables, Setting, set_max_body_ram, set_max_body, set_buffer_size_ram,
  set_buffer_size_fs, set_size_estimate_deflate, set_size_estimate_gzip, set_size_estimate_brotli,
  set_temp_dir, apply, apply_all, finish, build,
}

-- The sizes that a loop divides by or allocates are positive.
pub record HasBuffers (t : Tunables) : Type 0 where
  pub ram : 0 < t.buffer_size_ram
  pub fs : 0 < t.buffer_size_fs
  pub deflate : 0 < t.size_estimate_deflate
  pub gzip : 0 < t.size_estimate_gzip
  pub brotli : 0 < t.size_estimate_brotli

apply-HasBuffers :
    (x : Setting) (t t' : Tunables) → HasBuffers t → apply x t ≡ ok t' → HasBuffers t'
unfolding apply
apply-HasBuffers (set_max_body_ram n) t t' h e = ground arith
apply-HasBuffers (set_max_body n) t t' h e = ground arith
apply-HasBuffers (set_buffer_size_ram n) t t' h e = ground arith
apply-HasBuffers (set_buffer_size_fs n) t t' h e = ground arith
apply-HasBuffers (set_size_estimate_deflate n) t t' h e = ground arith
apply-HasBuffers (set_size_estimate_gzip n) t t' h e = ground arith
apply-HasBuffers (set_size_estimate_brotli n) t t' h e = ground arith
apply-HasBuffers (set_temp_dir p) t t' h e = ground arith

apply_all-HasBuffers :
    (xs : List Setting) (t t' : Tunables) → HasBuffers t → apply_all xs t ≡ ok t' → HasBuffers t'
unfolding apply_all
apply_all-HasBuffers [] t t' h e = ground arith
apply_all-HasBuffers (x ∷ xs) t t' h e =
    let (u, p, q) = >>=-eq-ok (apply x t) (apply_all xs) (sym e) in
    apply_all-HasBuffers xs u t' (apply-HasBuffers x t u h p) q

finish-eq-ok : (t u : Tunables) → finish t ≡ ok u → (u ≡ t) × (t.max_body_ram ≤ t.max_body)
unfolding finish
finish-eq-ok t u e = ground arith

-- Whatever setters were called, a `Tunables` that a builder returns has positive buffer sizes and
-- size estimates, and its limit in RAM does not exceed the limit in any form.
pub build-HasBuffers :
    (dir : Bytes) (settings : List Setting) (t : Tunables)
    → build dir settings ≡ ok t
    → HasBuffers t × (t.max_body_ram ≤ t.max_body)
unfolding build
build-HasBuffers dir settings t e =
    let (u, p, q) = >>=-eq-ok (apply_all settings (default_tunables dir)) finish (sym e) in
    let (same, le) = finish-eq-ok u t q in
    rw same (apply_all-HasBuffers settings (default_tunables dir) u (omega arith) p, le)
