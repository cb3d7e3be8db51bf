-- ===== src/Prelude/Result.antt =====
-- Go's `(value, error)` results, and the errors that the program tells apart.
use Prim.Native.Nat.{ℕ}
use native.Mathlib.Omega.{arith}
use mathlib.Core.Path.{◌≡◌}
use mathlib.Core.List.{List}

-- The codes of google.golang.org/grpc/codes that the program uses.
pub data Code : Type 0 where
  ok_code unknown not_found_code already_exists invalid_argument permission_denied internal : Code

-- The sentinels of shared/domain/errors.go, its ValidationError, a gRPC status, and any other
-- error with its text.
pub data Error : Type 0 where
  err_not_found err_conflict err_validation err_permission : Error
  validation_error : List ℕ → Error
  status_error : Code → List ℕ → Error
  other_error : List ℕ → Error

pub data Result {ℓ} (T : Type ℓ) : Type ℓ where
  err : Error → Result T
  ok : T → Result T

infixl 5 ◌>>=◌
-- `if err != nil { return err }`
abbrev pub ◌>>=◌ {κ ℓ} : {T : Type κ} {U : Type ℓ} → Result T → (T → Result U) → Result U
err failure >>= next = err failure
ok value >>= next = next value

infixl 5 ◌>>◌
abbrev pub ◌>>◌ {κ} : {U : Type κ} → Result (Unit {0}) → Result U → Result U
first >> next = first >>= λ done. next

pub ok_inj : {A : Type 0} {x y : A} → ok x ≡ ok y → x ≡ y
ok_inj h = ground (arith, h)
