-- ===== src/Image/Tune.antt =====
-- `Tunables` and its builder `Tuner` of body-image/src/lib.rs.
pub mod Bounds
use body_image.Common.{ℕ, ◌*◌, ltb, leb, if◌then◌else◌, List, [], ◌∷◌, Outcome, ok, panic, ◌>>=◌}
use body_image.Io.{Bytes}
use body_image.Image.Errors.{BodyError}

-- `temp_dir` is `env::temp_dir()` in the default, which is a parameter of `new`.
pub record Tunables : Type 0 where
  pub max_body_ram : ℕ
  pub max_body : ℕ
  pub buffer_size_ram : ℕ
  pub buffer_size_fs : ℕ
  pub size_estimate_deflate : ℕ
  pub size_estimate_gzip : ℕ
  pub size_estimate_brotli : ℕ
  pub temp_dir : Bytes

abbrev pub default_tunables : Bytes → Tunables
default_tunables env_temp_dir = record {
  max_body_ram = 192 * 1024;
  max_body = 1024 * 1024 * 1024;
  buffer_size_ram = 8 * 1024;
  buffer_size_fs = 64 * 1024;
  size_estimate_deflate = 4;
  size_estimate_gzip = 5;
  size_estimate_brotli = 6;
  temp_dir = env_temp_dir;
}

-- One call of a setter of the builder.
pub data Setting : Type 0 where
  set_max_body_ram set_max_body set_buffer_size_ram set_buffer_size_fs : ℕ → Setting
  set_size_estimate_deflate set_size_estimate_gzip set_size_estimate_brotli : ℕ → Setting
  set_temp_dir : Bytes → Setting

-- A setter that asserts that its argument is positive.
abbrev pub asserting : ℕ → Tunables → Outcome BodyError Tunables
asserting size t = if ltb 0 size then ok t else panic

unfoldable pub apply : Setting → Tunables → Outcome BodyError Tunables
apply (set_max_body_ram size) t = ok (record t { max_body_ram = size })
apply (set_max_body size) t = ok (record t { max_body = size })
apply (set_buffer_size_ram size) t = asserting size (record t { buffer_size_ram = size })
apply (set_buffer_size_fs size) t = asserting size (record t { buffer_size_fs = size })
apply (set_size_estimate_deflate m) t = asserting m (record t { size_estimate_deflate = m })
apply (set_size_estimate_gzip m) t = asserting m (record t { size_estimate_gzip = m })
apply (set_size_estimate_brotli m) t = asserting m (record t { size_estimate_brotli = m })
apply (set_temp_dir path) t = ok (record t { temp_dir = path })

-- The calls of a builder expression, from left to right.
unfoldable pub apply_all : List Setting → Tunables → Outcome BodyError Tunables
unfolding apply
apply_all [] t = ok t
apply_all (x ∷ xs) t = apply x t >>= apply_all xs

unfoldable pub finish : Tunables → Outcome BodyError Tunables
finish t = if leb t.max_body_ram t.max_body then ok t else panic

-- `Tuner::new()`, the setters, `finish()`.
unfoldable pub build : Bytes → List Setting → Outcome BodyError Tunables
unfolding apply_all finish
build env_temp_dir settings = apply_all settings (default_tunables env_temp_dir) >>= finish
