-- ===== src/Futio/Tune.antt =====
-- body-image-futio/src/tune.rs.
pub mod Bounds
use body_image.Common.{
  ℕ, ◌*◌, ◌^◌, ltb, leb, if◌then◌else◌, List, [], ◌∷◌, Option, none, some, Outcome, ok, panic,
  ◌>>=◌,
}
use body_image.Image.Tune.{Tunables}
use body_image.Futio.Crates.{Runtime}
use body_image.Futio.Errors.{FutioError}

module _ ⦃rt : Runtime⦄ where
  open rt use {Semaphore}

  pub data BlockingPolicy : Type 0 where
    direct : BlockingPolicy
    permit : Semaphore → BlockingPolicy
    dispatch : BlockingPolicy

  -- Durations are numbers of nanoseconds.
  pub record FutioTunables : Type 0 where
    pub image : Tunables
    pub res_timeout : Option ℕ
    pub body_timeout : Option ℕ
    pub blocking_policy : BlockingPolicy
    pub stream_item_size : ℕ

  -- Over the base tunables, `Tunables::new()` in the source.
  abbrev pub default_futio : Tunables → FutioTunables
  default_futio base = record {
    image = base;
    res_timeout = none;
    body_timeout = some (60 * 10 ^ 9);
    blocking_policy = direct;
    stream_item_size = 512 * 1024;
  }

  abbrev pub policy_semaphore : BlockingPolicy → Option Semaphore
  policy_semaphore (permit sema) = some sema
  policy_semaphore _ = none

  abbrev pub blocking_semaphore : FutioTunables → Option Semaphore
  blocking_semaphore t = policy_semaphore t.blocking_policy

  -- One call of a setter of `FutioTuner`.
  pub data Setting : Type 0 where
    set_image : Tunables → Setting
    set_stream_item_size set_res_timeout set_body_timeout : ℕ → Setting
    unset_res_timeout unset_body_timeout : Setting
    set_blocking_policy : BlockingPolicy → Setting

  unfoldable pub apply : Setting → FutioTunables → Outcome FutioError FutioTunables
  apply (set_image base) t = ok (record t { image = base })
  apply (set_stream_item_size size) t =
      if ltb 0 size then ok (record t { stream_item_size = size }) else panic
  apply (set_res_timeout dur) t = ok (record t { res_timeout = some dur })
  apply unset_res_timeout t = ok (record t { res_timeout = none })
  apply (set_body_timeout dur) t = ok (record t { body_timeout = some dur })
  apply unset_body_timeout t = ok (record t { body_timeout = none })
  apply (set_blocking_policy policy) t = ok (record t { blocking_policy = policy })

  unfoldable pub apply_all : List Setting → FutioTunables → Outcome FutioError FutioTunables
  unfolding apply
  apply_all [] t = ok t
  apply_all (x ∷ xs) t = apply x t >>= apply_all xs

  abbrev pub check_timeouts : Option ℕ → Option ℕ → FutioTunables → Outcome FutioError FutioTunables
  check_timeouts (some r) (some b) t = if leb r b then ok t else panic
  check_timeouts _ _ t = ok t

  unfoldable pub finish : FutioTunables → Outcome FutioError FutioTunables
  finish t = check_timeouts t.res_timeout t.body_timeout t

  -- `FutioTuner::new()`, the setters, `finish()`.
  unfoldable pub build : Tunables → List Setting → Outcome FutioError FutioTunables
  unfolding apply_all finish
  build base settings = apply_all settings (default_futio base) >>= finish
