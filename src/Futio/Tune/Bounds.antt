-- ===== src/Futio/Tune/Bounds.antt =====
-- What every finished `FutioTunables` guarantees.
use body_image.Common.{
  ℕ, ◌≤◌, ◌<◌, ◌≡◌, sym, Option, none, some, List, [], ◌∷◌, ok, >>=-eq-ok, arith,
}
use body_image.Image.Tune.{Tunables}
use body_image.Futio.Crates.{Runtime}
use body_image.Futio.Tune.{
  FutioTunables, default_futio, Setting, set_image, set_stream_item_size, set_res_timeout,
  unset_res_timeout, set_body_timeout, unset_body_timeout, set_blocking_policy, apply, apply_all,
  check_timeouts, finish, build,
}

module _ ⦃rt : Runtime⦄ where
  apply_items :
      (x : Setting) (t t' : FutioTunables)
      → 0 < t.stream_item_size
      → apply x t ≡ ok t'
      → 0 < t'.stream_item_size
  unfolding apply
  apply_items (set_image base) t t' h e = ground arith
  apply_items (set_stream_item_size n) t t' h e = ground arith
  apply_items (set_res_timeout n) t t' h e = ground arith
  apply_items unset_res_timeout t t' h e = ground arith
  apply_items (set_body_timeout n) t t' h e = ground arith
  apply_items unset_body_timeout t t' h e = ground arith
  apply_items (set_blocking_policy p) t t' h e = ground arith

  apply_all_items :
      (xs : List Setting) (t t' : FutioTunables)
      → 0 < t.stream_item_size
      → apply_all xs t ≡ ok t'
      → 0 < t'.stream_item_size
  unfolding apply_all
  apply_all_items [] t t' h e = ground arith
  apply_all_items (x ∷ xs) t t' h e =
      let (u, p, q) = >>=-eq-ok (apply x t) (apply_all xs) (sym e) in
      apply_all_items xs u t' (apply_items x t u h p) q

  -- The response timeout is within that of the body, when both are set.
  abbrev pub Ordered : Option ℕ → Option ℕ → Type 0
  Ordered (some r) (some b) = r ≤ b
  Ordered _ _ = Unit

  checked-Ordered :
      (r b : Option ℕ) (t u : FutioTunables) → check_timeouts r b t ≡ ok u → (u ≡ t) × Ordered r b
  checked-Ordered (some r) (some b) t u e = ground arith
  checked-Ordered (some r) none t u e = (cc, tt)
  checked-Ordered none b t u e = (cc, tt)

  finish-Ordered :
      (t u : FutioTunables) → finish t ≡ ok u → (u ≡ t) × Ordered t.res_timeout t.body_timeout
  unfolding finish
  finish-Ordered t u e = checked-Ordered t.res_timeout t.body_timeout t u e

  -- Whatever setters were called, a `FutioTunables` that the builder returns has a positive item
  -- size for streams, and a response timeout that is no longer than the body timeout, if it has
  -- both.
  pub futio_build-Ordered :
      (base : Tunables) (settings : List Setting) (t : FutioTunables)
      → build base settings ≡ ok t
      → (0 < t.stream_item_size) × Ordered t.res_timeout t.body_timeout
  unfolding build
  futio_build-Ordered base settings t e =
      let (u, p, q) = >>=-eq-ok (apply_all settings (default_futio base)) finish (sym e) in
      let (same, order) = finish-Ordered u t q in
      rw same (apply_all_items settings (default_futio base) u (omega arith) p, order)
