-- ===== src/Examples/Executor.antt =====
-- An executor that grants and runs at once.
use body_image.Common.{Done, refl, [], some}
use body_image.Io.{IoError}
use body_image.Image.Tune.{Tunables, default_tunables}
use body_image.Futio.{Runtime, granted, FutioTunables, default_futio, permit}
use body_image.Futio.Permit.Fulfils.{Runs}
use body_image.Futio.Dispatch.Fulfils.{Dispatches}

instance abbrev pub executor : Runtime
executor = record {
  Semaphore = Done;
  PermitFuture = Done;
  Permit = Done;
  blocking_permit_future = λ sema. tt;
  poll_permit = λ pf. (granted tt, pf);
  canceled_error = λ c. IoError.other c;
  run = λ {A} p f. f tt;
  Dispatched = λ A. A;
  dispatch_rx = λ {A} f. some (f tt);
  poll_dispatched = λ {A} d. (granted d, d);
}

pub executor-Runs : Runs executor
executor-Runs = record { runs = λ {A} p f. refl }

pub executor-Dispatches : Dispatches executor
executor-Dispatches = record {
  result = λ {A} d. d;
  registered = λ {A} f. (f tt, refl, refl);
  answers = λ {A} d. (refl, refl);
}

-- Two bytes in RAM, ten in any form.
abbrev pub small : Tunables
small = record (default_tunables []) { max_body_ram = 2; max_body = 10 }

abbrev pub small_futio : FutioTunables
small_futio = record (default_futio small) { blocking_policy = permit tt }
