-- ===== src/Grpc.antt =====
-- The mapping of errors to gRPC statuses, which both servers repeat, and
-- internal/platform/grpcx/gateway.go.
pub mod Interceptors
use go_ddd.Prelude.{
  ◌≡◌, refl, ◌⊎◌, inl, inr, true, false, Option, none, some, List, [], ◌∷◌, ◌==◌, text_eq,
  if◌then◌else◌,
}
use go_ddd.Prelude.Int.{ℤ}
use go_ddd.Prelude.Text.{Text, codes}
use go_ddd.Prelude.Text.Decimal.{atoi}
use go_ddd.Prelude.Result.{
  Code, Error, err_not_found, err_conflict, err_validation, err_permission, validation_error,
  status_error, other_error, not_found_code, already_exists, invalid_argument, permission_denied,
  internal,
}
use go_ddd.Shared.{Sentinel, not_found, conflict, validation, permission, error_is, error_text}

-- `mapError`
unfoldable pub map_error : Error → Error
unfolding error_is error_text
map_error e =
    if error_is e not_found
    then status_error not_found_code (error_text e)
    else if error_is e conflict
    then status_error already_exists (error_text e)
    else if error_is e validation
    then status_error invalid_argument (error_text e)
    else if error_is e permission
    then status_error permission_denied (error_text e)
    else status_error internal (codes "internal server error")

abbrev pub http_status_metadata_key : Text
http_status_metadata_key = codes "x-http-code"

abbrev pub location_metadata_key : Text
location_metadata_key = codes "location"

-- The metadata of a response: keys to values. `none` is a context without any.
first_of : Text → List (Text × List Text) → Option Text
first_of key [] = none
first_of key ((k, v ∷ vs) ∷ md) = if k == key then some v else first_of key md
first_of key ((k, []) ∷ md) = if k == key then none else first_of key md

code_of : Option Text → Option ℤ
code_of none = none
code_of (some v) = atoi v

-- StatusCodeOption: the status that it writes, if it writes one.
unfoldable pub status_code_option : Option (List (Text × List Text)) → Option ℤ
unfolding first_of code_of
status_code_option none = none
status_code_option (some md) = code_of (first_of http_status_metadata_key md)

-- OutgoingHeaderMatcher: the header that a key becomes, if it is forwarded.
unfoldable pub outgoing_header_matcher : Text → Option Text
outgoing_header_matcher key = if key == location_metadata_key then some (codes "Location") else none

-- The status of an error of the domain.
abbrev pub status_of : Sentinel → Code
status_of not_found = not_found_code
status_of conflict = already_exists
status_of validation = invalid_argument
status_of permission = permission_denied

-- What a caller learns: the text of an error goes out only for the errors of the domain, each under
-- its own code, and any other error shows nothing of its text.
pub map_error-codes :
    (e : Error)
    → ((k : Sentinel) × (error_is e k ≡ true)
        × (map_error e ≡ status_error (status_of k) (error_text e)))
      ⊎ (((k : Sentinel) → error_is e k ≡ false)
          × (map_error e ≡ status_error internal (codes "internal server error")))
unfolding map_error error_is
map_error-codes err_not_found = inl (not_found, refl, refl)
map_error-codes err_conflict = inl (conflict, refl, refl)
map_error-codes err_validation = inl (validation, refl, refl)
map_error-codes err_permission = inl (permission, refl, refl)
map_error-codes (validation_error msg) = inl (validation, refl, refl)
map_error-codes (status_error code msg) = inr (λ k. refl, refl)
map_error-codes (other_error msg) = inr (λ k. refl, refl)
