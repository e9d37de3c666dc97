-- ===== src/Errors.antt =====
-- src/error/types/error.ts and src/middleware/http-exception.filter.ts: the application's errors, the
-- status of each, and what the exception filter answers and logs.
pub mod Laws
use nestjs_stay_api.Common.{
  Bool, true, false, Option, none, some, List, [], ◌∷◌, String, ◌==◌, if◌then◌else◌,
}

pub data ErrorCode : Type 0 where
  bad_request_error invalid_argument_error internal_server_error unauthorized : ErrorCode
  order_bad_request_error send_bird_api_error send_bird_unknown_error : ErrorCode
  order_status_forbidden_error trading_api_error forbidden : ErrorCode

-- The members of HttpStatus that the source names.
pub data HttpStatus : Type 0 where
  bad_request unauthorized forbidden not_found internal_server_error service_unavailable :
      HttpStatus

unfoldable pub error_code_map : ErrorCode → HttpStatus
error_code_map bad_request_error = HttpStatus.bad_request
error_code_map invalid_argument_error = HttpStatus.bad_request
error_code_map order_bad_request_error = HttpStatus.bad_request
error_code_map ErrorCode.internal_server_error = HttpStatus.internal_server_error
error_code_map ErrorCode.unauthorized = HttpStatus.unauthorized
error_code_map send_bird_api_error = HttpStatus.bad_request
error_code_map send_bird_unknown_error = HttpStatus.internal_server_error
error_code_map order_status_forbidden_error = HttpStatus.forbidden
error_code_map trading_api_error = HttpStatus.service_unavailable
error_code_map ErrorCode.forbidden = HttpStatus.forbidden

-- An object of strings.
abbrev pub Details : Type 0
Details = List (String × String)

pub record ApiErrorResponse : Type 0 where
  pub error_code : ErrorCode
  pub details : Option Details
  pub message : Option String

-- The data of a SendBird answer; `code` is its text.
pub record ResponseData : Type 0 where
  pub code : String
  pub message : Option String

-- `ApiError`, and `SendBirdApiError` where the data is there.
pub record ApiError : Type 0 where
  pub status : HttpStatus
  pub error_code : ErrorCode
  pub details : Option Details
  pub message : Option String
  pub response_data : Option ResponseData

-- The constructor of `ApiError`
unfoldable pub api_error : ApiErrorResponse → ApiError
unfolding error_code_map
api_error response = record {
  status = error_code_map response.error_code;
  error_code = response.error_code;
  details = response.details;
  message = response.message;
  response_data = none;
}

-- The two codes that the constructor of `SendBirdApiError` takes.
pub data SendBirdCode : Type 0 where
  api unknown : SendBirdCode

abbrev pub send_bird_code : SendBirdCode → ErrorCode
send_bird_code api = send_bird_api_error
send_bird_code unknown = send_bird_unknown_error

unfoldable pub send_bird_error : SendBirdCode → ResponseData → ApiError
unfolding api_error
send_bird_error code answer =
    record (api_error (record {
      error_code = send_bird_code code;
      details = some (("code", answer.code) ∷ []);
      message = answer.message;
    })) { response_data = some answer }

-- What reaches the filter: an `ApiError`, Nest's `NotFoundException`, any other object that has no
-- `error_code`, or null or undefined.
pub data Exception : Type 0 where
  of_api : ApiError → Exception
  not_found_exception : Exception
  other_exception : Exception
  nothing : Exception

pub record Request : Type 0 where
  pub method : String
  pub body : String
  pub params : String
  pub query : String

-- `reqObj`, with a missing field for undefined
pub record RequestLog : Type 0 where
  pub method : String
  pub body : Option String
  pub params : Option String
  pub query : Option String

-- A call of the logger: the code with the request, with the stack, alone, with the SendBird data, or
-- the exception itself with its stack.
pub data LogLine : Type 0 where
  with_request : ErrorCode → RequestLog → LogLine
  with_stack : ErrorCode → LogLine
  alone : ErrorCode → LogLine
  with_data : ErrorCode → Option ResponseData → LogLine
  whole : Exception → LogLine

abbrev when {ℓ} : {A : Type ℓ} → Bool → A → Option A
when b a = if b then some a else none

unfoldable pub request_log : Request → RequestLog
request_log r = record {
  method = r.method;
  body = when (r.method == "POST") r.body;
  params = when (r.method == "GET") r.params;
  query = when (r.method == "GET") r.query;
}

-- `exceptionLogger` at an `ApiError`
unfoldable pub log_api_error : ErrorCode → ApiError → Request → LogLine
unfolding request_log
log_api_error invalid_argument_error e r = with_request invalid_argument_error (request_log r)
log_api_error bad_request_error e r = with_stack bad_request_error
log_api_error ErrorCode.internal_server_error e r = with_stack ErrorCode.internal_server_error
log_api_error ErrorCode.unauthorized e r = alone ErrorCode.unauthorized
log_api_error send_bird_api_error e r = with_data send_bird_api_error e.response_data
log_api_error send_bird_unknown_error e r = with_data send_bird_unknown_error e.response_data
log_api_error _ e r = whole (of_api e)

-- The code in a response's body: the error's own, or one of the filter's two texts.
pub data BodyCode : Type 0 where
  own : ErrorCode → BodyCode
  not_found_error internal_server_error : BodyCode

pub record Body : Type 0 where
  pub error_code : BodyCode
  pub details : Option Details
  pub message : Option String

abbrev pub only : BodyCode → Body
only code = record { error_code = code; details = none; message = none }

-- The logger's call and the response; reading `error_code` of null or undefined throws.
pub data Filtered : Type 0 where
  answered : LogLine → HttpStatus → Body → Filtered
  type_error : Filtered

-- `catch`
unfoldable pub catch : Exception → Request → Filtered
unfolding log_api_error
catch (of_api e) r =
    answered (log_api_error e.error_code e r) e.status
      (record { error_code = own e.error_code; details = e.details; message = e.message })
catch not_found_exception r =
    answered (whole not_found_exception) HttpStatus.not_found (only not_found_error)
catch other_exception r =
    answered (whole other_exception) HttpStatus.internal_server_error
      (only BodyCode.internal_server_error)
catch nothing r = type_error
