-- ===== src/Validation.antt =====
-- src/middleware/validation.pipe.ts: from the validator's tree of errors to the `details` of one
-- `ApiError`. Nest's validator makes the tree; its texts of the constraints are not read.
pub mod Paths
use Prim.Native.String
use nestjs_stay_api.Common.{
  ℕ, nat_eq, Bool, true, false, none, some, List, [], ◌∷◌, String, ◌==◌, if◌then◌else◌,
}
use nestjs_stay_api.Errors.{
  invalid_argument_error, ErrorCode, Details, ApiErrorResponse, ApiError, api_error, Exception,
  of_api, not_found_exception, other_exception,
}

-- A property, whether it has constraints, and its children; no children stands for undefined too.
mutual
  pub data ValidationError : Type 0 where
    failing : String → Bool → ValidationErrors → ValidationError

  pub data ValidationErrors : Type 0 where
    nil : ValidationErrors
    cons : ValidationError → ValidationErrors → ValidationErrors

-- `prefix ? prefix + '.' + property : property`
unfoldable pub property_path : String → String → String
property_path prefix property =
    if prefix == "" then property else String.◌++◌ prefix (String.◌++◌ "." property)

-- `details[key] = value` on a plain object. Assigning a text to `__proto__` does nothing.
unfoldable pub put : String → String → Details → Details
put key value [] = (key, value) ∷ []
put key value ((k, v) ∷ rest) = if k == key then (k, value) ∷ rest else (k, v) ∷ put key value rest

unfoldable pub set_detail : String → String → Details → Details
unfolding put
set_detail key value details = if key == "__proto__" then details else put key value details

-- `processValidationError`, and its loop over the children
unfoldable mutual
  unfolding property_path set_detail

  pub process_validation_error : ValidationError → Details → String → Details
  process_validation_error (failing property constraints children) details prefix =
      process_all children
        (if constraints
          then set_detail (property_path prefix property) "invalid" details
          else details)
        (property_path prefix property)

  pub process_all : ValidationErrors → Details → String → Details
  process_all nil details prefix = details
  process_all (cons e es) details prefix =
      process_all es (process_validation_error e details prefix) prefix

-- How the factory ends: Nest's own error for a status, without details, an `ApiError` to throw, or one
-- thrown.
pub data Created : Type 0 where
  http_error : ℕ → Created
  returned : ApiError → Created
  thrown : ApiError → Created

abbrev pub no_errors : ApiErrorResponse
no_errors = record {
  error_code = ErrorCode.internal_server_error;
  details = some (("error_id", "302ce322-5063-4d09-a3dc-78f0770d0c97") ∷ []);
  message = none;
}

-- The function that `createExceptionFactory` returns, with `getExceptionObj`; the first arguments are
-- `isDetailedOutputDisabled` and `errorHttpStatusCode`.
unfoldable pub create_exception : Bool → ℕ → ValidationErrors → Created
unfolding process_all api_error
create_exception true code errors = http_error code
create_exception false code nil = thrown (api_error no_errors)
create_exception false code (cons e es) = returned (
    api_error (record {
      error_code = invalid_argument_error;
      details = some (process_all (cons e es) [] "");
      message = none;
    }))

-- What reaches the exception filter: Nest throws what the function returns, and what it throws. The error
-- of the status 404 is a `NotFoundException`; where Nest has none for a status, making it is a TypeError.
unfoldable pub raised : Created → Exception
raised (http_error code) = if nat_eq code 404 then not_found_exception else other_exception
raised (returned e) = of_api e
raised (thrown e) = of_api e
