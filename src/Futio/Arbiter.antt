-- ===== src/Futio/Arbiter.antt =====
-- body-image-futio/src/blocking.rs.
use body_image.Common.{Bool, true, false}

pub data Blocking : Type 0 where
  void pending once always : Blocking

-- The trait, with the `Default` that its users ask for.
pub record BlockingArbiter (BA : Type 0) : Type 0 where
  pub initial : BA
  pub can_block : BA → Bool × BA
  pub state : BA → Blocking

pub data LenientArbiter : Type 0 where
  lenient : LenientArbiter

instance abbrev pub lenient_arbiter : BlockingArbiter LenientArbiter
lenient_arbiter = record {
  initial = lenient;
  can_block = λ a. (true, a);
  state = λ a. Blocking.always;
}

pub record StatefulArbiter : Type 0 where
  pub state : Blocking

abbrev pub set : Blocking → StatefulArbiter → StatefulArbiter
set b a = record a { state = b }

abbrev pub can_block_in : Blocking → Bool × StatefulArbiter
can_block_in Blocking.void = (false, record { state = Blocking.pending })
can_block_in Blocking.pending = (false, record { state = Blocking.pending })
can_block_in Blocking.once = (true, record { state = Blocking.void })
can_block_in Blocking.always = (true, record { state = Blocking.always })

instance abbrev pub stateful_arbiter : BlockingArbiter StatefulArbiter
stateful_arbiter = record {
  initial = record { state = Blocking.void };
  can_block = λ a. can_block_in a.state;
  state = λ a. a.state;
}

abbrev pub is_pending : Blocking → Bool
is_pending Blocking.pending = true
is_pending _ = false

abbrev pub is_void : Blocking → Bool
is_void Blocking.void = true
is_void _ = false
