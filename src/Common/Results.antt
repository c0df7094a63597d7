-- ===== src/Common/Results.antt =====
-- How a call ends, and calls that change a state.
use mathlib.Core.Path.{◌≡◌, refl, sym}
use mathlib.Core.Bool.{Bool, true, false}

-- Rust's `()`.
abbrev pub Done : Type 0
Done = Unit

-- `ok` and `err` are Rust's `Result`. `panic` is a failed assertion or another panic, which ends
-- the call. `hang` is no Rust value: a loop of the model ran out of fuel.
pub data Outcome {ℓ κ} (E : Type ℓ) (A : Type κ) : Type (ℓ ⊔ κ) where
  ok : A → Outcome E A
  err : E → Outcome E A
  panic : Outcome E A
  hang : Outcome E A

infixl 5 ◌>>=◌ ◌>>◌
-- The `?` of a pure call, and the calls that go on after it.
abbrev pub ◌>>=◌ {ℓ κ μ} :
    {E : Type ℓ} {A : Type κ} {B : Type μ} → Outcome E A → (A → Outcome E B) → Outcome E B
hang >>= next = hang
panic >>= next = panic
err e >>= next = err e
ok a >>= next = next a

abbrev pub ◌>>◌ {ℓ μ} : {E : Type ℓ} {B : Type μ} → Outcome E Done → Outcome E B → Outcome E B
call >> next = call >>= λ done. next

-- `Result::map_err`, also the `From` conversion that `?` makes.
abbrev pub map_err {ℓ κ μ} :
    {E : Type ℓ} {F : Type κ} {A : Type μ} → (E → F) → Outcome E A → Outcome F A
map_err f (ok a) = ok a
map_err f (err e) = err (f e)
map_err f panic = panic
map_err f hang = hang

abbrev pub map_ok {ℓ κ μ} :
    {E : Type ℓ} {A : Type κ} {B : Type μ} → (A → B) → Outcome E A → Outcome E B
map_ok f (ok a) = ok (f a)
map_ok f (err e) = err e
map_ok f panic = panic
map_ok f hang = hang

-- `assert!`.
abbrev pub assert {ℓ} : {E : Type ℓ} → Bool → Outcome E (Done)
assert true = ok tt
assert false = panic

-- A chain that ends well has a first call that ended well.
pub >>=-eq-ok {ℓ κ μ} :
    {E : Type ℓ} {A : Type κ} {B : Type μ} {end : B} (call : Outcome E A) (next : A → Outcome E B)
    → ok end ≡ (call >>= next)
    → (x : A) × (call ≡ ok x) × (next x ≡ ok end)
>>=-eq-ok hang next done = cc
>>=-eq-ok panic next done = cc
>>=-eq-ok (err _) next done = cc
>>=-eq-ok (ok x) next done = (x, refl, sym done)

-- `r.unwrap()` and `r.expect(…)`.
abbrev pub expect {ℓ κ μ} : {E : Type ℓ} {F : Type κ} {A : Type μ} → Outcome E A → Outcome F A
expect (ok a) = ok a
expect (err e) = panic
expect panic = panic
expect hang = hang
