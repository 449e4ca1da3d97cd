-- ===== src/Base/Errors.antt =====
-- Go errors as values, results of fallible calls, and runs that may panic.
use mathlib.Core.Path.{◌≡◌, refl}
use mathlib.Core.Logic.{◌⊎◌, inl, inr}
use ftpserver.Base.Bytes.{Text}

-- The errors that the modelled packages make, and `foreign` for those of other libraries.
pub data Error : Type 0 where
  unknown_user timeout not_enabled base_path_too_short missing_base_path : Error
  not_implemented not_found invalid_parameter eof : Error
  unsupported_fs : Text → Error
  unexpected_status : Error
  path_error : (op path : Text) → Error → Error
  bare_path_error : (op path : Text) → Error
  wrapped : (message : Text) → Error → Error
  foreign : Text → Error

-- `(T, error)` where exactly one of the two is set.
pub data Result {ℓ} (Value : Type ℓ) : Type ℓ where
  err : (failure : Error) → Result Value
  ok : (value : Value) → Result Value

-- `if err != nil { return nil, err }`, then the rest.
infixl 5 ◌>>=◌
abbrev pub ◌>>=◌ {ℓ κ} :
    {Value : Type ℓ} {Next : Type κ} → Result Value → (Value → Result Next) → Result Next
err failure >>= rest = err failure
ok value >>= rest = rest value

-- What a success after a call shows of the call.
pub >>=-eq-ok {ℓ κ} :
    {Value : Type ℓ} {Next : Type κ} (call : Result Value) (rest : Value → Result Next) {end : Next}
    → (call >>= rest) ≡ ok end
    → (value : Value) × (call ≡ ok value) × (rest value ≡ ok end)
>>=-eq-ok (err failure) rest eq = cc
>>=-eq-ok (ok value) rest eq = (value, refl, eq)

pub Result-cases {ℓ} :
    {Value : Type ℓ} (r : Result Value)
    → ((value : Value) × (r ≡ ok value)) ⊎ ((failure : Error) × (r ≡ err failure))
Result-cases (ok value) = inl (value, refl)
Result-cases (err failure) = inr (failure, refl)

-- A call that returns or panics.
pub data Run {ℓ} (A : Type ℓ) : Type ℓ where
  done : A → Run A
  panic : Run A

abbrev pub and_then {ℓ κ} : {A : Type ℓ} {B : Type κ} → Run A → (A → Run B) → Run B
and_then (done a) f = f a
and_then panic f = panic

pub and_then-eq-done {ℓ κ} :
    {A : Type ℓ} {B : Type κ} (r : Run A) (f : A → Run B) {b : B}
    → and_then r f ≡ done b
    → (a : A) × (r ≡ done a) × (f a ≡ done b)
and_then-eq-done (done a) f e = (a, refl, e)
and_then-eq-done panic f e = cc

pub Run-cases {ℓ} : {A : Type ℓ} (r : Run A) → ((a : A) × (r ≡ done a)) ⊎ (r ≡ panic)
Run-cases (done a) = inl (a, refl)
Run-cases panic = inr refl

pub and_then_assoc {ℓ κ μ} :
    {A : Type ℓ} {B : Type κ} {C : Type μ} (r : Run A) (f : A → Run B) (g : B → Run C)
    → and_then (and_then r f) g ≡ and_then r (λ a. and_then (f a) g)
and_then_assoc (done a) f g = refl
and_then_assoc panic f g = refl

pub done-inj {ℓ} : {A : Type ℓ} {x y : A} → done x ≡ done y → x ≡ y
done-inj e = cc
