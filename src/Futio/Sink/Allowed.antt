-- ===== src/Futio/Sink/Allowed.antt =====
-- A sink under the stateful arbiter, before and after it is allowed one blocking operation.
use body_image.Common.{◌≡◌, refl, sym, inl, inr, false}
use mathlib.Core.Path.{subst}
use body_image.Io.{Bytes, IoError}
use body_image.Storage.{Storage}
use body_image.Futio.Crates.{Runtime}
use body_image.Futio.Arbiter.{Blocking, StatefulArbiter, stateful_arbiter, can_block_in, set}
use body_image.Futio.Tune.{FutioTunables}
use body_image.Futio.Sink.{AsyncBodySink, poll_flush_impl}
use body_image.Futio.Sink.Direct.{Carries, Within-same}
use body_image.Futio.Sink.Granted.{Blocked, flush_arbiter}

-- No blocking operation is allowed at present.
abbrev pub Unallowed : StatefulArbiter → Type 0
Unallowed a = (can_block_in a.state).0 ≡ false

pub can_block_in-Unallowed :
    (b : Blocking) → (can_block_in b).0 ≡ false → Unallowed (can_block_in b).1
can_block_in-Unallowed Blocking.void h = refl
can_block_in-Unallowed Blocking.pending h = refl
can_block_in-Unallowed Blocking.once h = cc
can_block_in-Unallowed Blocking.always h = cc

module _ ⦃rt : Runtime⦄ where
  pub allowed-Blocked :
      (s : AsyncBodySink StatefulArbiter)
      → Blocked s
      → Blocked (record s { arbiter = set Blocking.once s.arbiter })
  allowed-Blocked s b = record {
    buffer = b.buffer;
    waits = b.waits;
    needs = record { some_byte = b.needs.some_byte; short = b.needs.short; big = b.needs.big };
  }

  pub flush-Unallowed :
      ⦃st : Storage⦄ (s : AsyncBodySink StatefulArbiter)
      → Unallowed s.arbiter
      → Unallowed (poll_flush_impl s).1.arbiter
  flush-Unallowed s u = elim (flush_arbiter s) [
    | inl kept ↦ subst Unallowed (sym kept) u
    | inr asked ↦ subst Unallowed (sym asked) (can_block_in-Unallowed s.arbiter.state u)
  ]

module _ ⦃rt : Runtime⦄ (P : IoError → Type 0) (t : FutioTunables) where
  pub allowed-Carries :
      (s : AsyncBodySink StatefulArbiter) (total : Bytes)
      → Carries P t s total
      → Carries P t (record s { arbiter = set Blocking.once s.arbiter }) total
  allowed-Carries s total h = record {
    done = h.done;
    within =
        Within-same P t s (record s { arbiter = set Blocking.once s.arbiter }) h.done refl refl
          h.within;
    whole = h.whole;
    tuned = h.tuned;
  }
