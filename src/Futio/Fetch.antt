-- ===== src/Futio/Fetch.antt =====
-- The choice of a body sink in `resp_future` of body-image-futio/src/fetch.rs.
use body_image.Common.{
  ℕ, ◌<◌, ◌≤◌, ◌^◌, ◌≡◌, refl, ltb, ltb-false→le, if◌then◌else◌, Bool-cases, inl, inr, Bool, true,
  false, ◌==◌, [], length, Option, none, some, Outcome, ok, err, panic, hang, map_err, arith,
}
use mathlib.Core.Path.{subst}
use body_image.Io.{Bytes, IoError, File, interrupted}
use body_image.Storage.{Storage}
use body_image.Image.{SinkState, BodySink, with_ram, with_ram_buffers, empty_sink, with_fs, sink_in}
use body_image.Image.Content.{MakesFiles}
use body_image.Futio.{
  Runtime, FutioError, body, content_length_too_long, other_flaw, FutioTunables, LenientArbiter,
  lenient_arbiter, AsyncBodySink, new_sink, poll_flush_impl,
}
use body_image.Futio.Sink.Direct.{direct_ops}
use body_image.Futio.Contract.{Drives, Delivers}
use body_image.Futio.Forward.{Fits, direct_forward}

module _ ⦃rt : Runtime⦄ ⦃st : Storage⦄ where
  -- By what `try_decode::<ContentLength>` gives; an error of it is a code.
  unfoldable pub sink_for : Option (Outcome ℕ ℕ) → FutioTunables → Outcome FutioError BodySink
  unfolding with_fs with_ram
  sink_for (some (ok l)) t =
      if ltb t.image.max_body l
      then err (content_length_too_long l)
      else if ltb t.image.max_body_ram l
      then map_err (λ e. body e) (with_fs t.image.temp_dir)
      else ok (with_ram l)
  sink_for (some (err c)) t = err (other_flaw c)
  sink_for (some panic) t = panic
  sink_for (some hang) t = hang
  sink_for none t = ok (with_ram t.image.max_body_ram)

  with_ram-Fits : (P : IoError → Type 0) (t : FutioTunables) (n : ℕ) → Fits P t (with_ram n) []
  unfolding with_ram empty_sink with_ram_buffers
  with_ram-Fits P t n = elim (Bool-cases (n == 0)) [
    | inl is ↦ rw is (record {
      holds = record { state = refl; len = refl };
      bounded = omega arith;
      in_ram = λ r. omega arith;
    })
    | inr more ↦ rw more (record {
      holds = record { state = refl; len = refl };
      bounded = omega arith;
      in_ram = λ r. omega arith;
    })
  ]

  sink_in-Fits :
      (P : IoError → Type 0) (t : FutioTunables) (r : Outcome IoError File) (b : BodySink)
      → MakesFiles P st
      → st.tempfile_in t.image.temp_dir ≡ r
      → map_err (λ e. body e) (sink_in r) ≡ ok b
      → Fits P t b []
  sink_in-Fits P t (ok f) b makes made e =
      let same : ◌≡◌ {A = BodySink} (record { state = SinkState.fs_write f; len = 0 }) b = cc in
      subst (λ x. Fits P t x []) same
        (record {
          holds = record { state = makes.made t.image.temp_dir f made; len = refl };
          bounded = omega arith;
          in_ram = λ ram. omega arith;
        })
  sink_in-Fits P t (err x) b makes made e = cc
  sink_in-Fits P t panic b makes made e = cc
  sink_in-Fits P t hang b makes made e = cc

  chosen-Fits :
      (P : IoError → Type 0) (l : ℕ) (t : FutioTunables) (b : BodySink) (long big : Bool)
      → MakesFiles P st
      → (if long
          then err (content_length_too_long l)
          else if big
          then map_err (λ e. body e) (sink_in (st.tempfile_in t.image.temp_dir))
          else ok (with_ram l))
        ≡ ok b
      → Fits P t b [] × (long ≡ false)
  chosen-Fits P l t b true big makes e = cc
  chosen-Fits P l t b false true makes e =
      (sink_in-Fits P t (st.tempfile_in t.image.temp_dir) b makes refl e, refl)
  chosen-Fits P l t b false false makes e =
      let same : with_ram l ≡ b = cc in
      (subst (λ x. Fits P t x []) same (with_ram-Fits P t l), refl)

  -- A length that the headers declare is within the limit.
  abbrev pub Declared : Option (Outcome ℕ ℕ) → FutioTunables → Type 0
  Declared (some (ok l)) t = l ≤ t.image.max_body
  Declared _ t = Unit

  sink_for-Fits :
      (P : IoError → Type 0) (cl : Option (Outcome ℕ ℕ)) (t : FutioTunables) (b : BodySink)
      → MakesFiles P st
      → sink_for cl t ≡ ok b
      → Fits P t b [] × Declared cl t
  unfolding sink_for with_fs
  sink_for-Fits P (some (ok l)) t b makes e =
      let (fit, short) =
        chosen-Fits P l t b (ltb t.image.max_body l) (ltb t.image.max_body_ram l) makes e in
      (fit, ltb-false→le t.image.max_body l short)
  sink_for-Fits P (some (err c)) t b makes e = cc
  sink_for-Fits P (some panic) t b makes e = cc
  sink_for-Fits P (some hang) t b makes e = cc
  sink_for-Fits P none t b makes e =
      let same : with_ram t.image.max_body_ram ≡ b = cc in
      (subst (λ x. Fits P t x []) same (with_ram-Fits P t t.image.max_body_ram), tt)

  -- Under the direct policy, if temporary files are new and empty and no write is reported as
  -- interrupted: a response whose headers give a sink declares, if anything, a length of at most
  -- `max_body`. After any successful sends of its body and flushes, the next flush never panics,
  -- and if it is ready the sink gives a body that holds exactly what was sent, within `max_body`,
  -- and within `max_body_ram` if it is in RAM. If it fails, the bytes sent are more than
  -- `max_body`, or the file system failed.
  pub response_body :
      (P : IoError → Type 0) (cl : Option (Outcome ℕ ℕ)) (t : FutioTunables) (b : BodySink)
      → (sent : Bytes) (s : AsyncBodySink LenientArbiter) → MakesFiles P st
      → (P interrupted → ⊥)
      → length sent < 2 ^ 64
      → sink_for cl t ≡ ok b
      → Drives direct_ops (new_sink b t) sent s
      → Declared cl t
        × (let (r, s') = poll_flush_impl s in Delivers P (λ _. ⊥) t.image direct_ops sent r s')
  response_body P cl t b sent s makes quiet fits e d =
      let (fit, declared) = sink_for-Fits P cl t b makes e in
      (declared, direct_forward P t makes quiet b [] sent fit (omega (arith, fits)) s d)
