-- ===== src/Errors/Laws.antt =====
-- The filter's answer and log line for every exception.
use nestjs_stay_api.Common.{◌≡◌, refl, ◌↔◌, ◌⊎◌, arith, none, some, Option, [], ◌∷◌}
use nestjs_stay_api.Errors.{
  HttpStatus, error_code_map, ApiErrorResponse, api_error, SendBirdCode, ResponseData,
  send_bird_error, send_bird_code, Exception, of_api, not_found_exception, other_exception, nothing,
  Request, own, Filtered, answered, type_error, log_api_error, catch,
}

abbrev pub status_of : Filtered → Option HttpStatus
status_of (answered line status body) = some status
status_of type_error = none

-- Whatever an `ApiError` is built from, the filter answers with the status that the code maps to and
-- with the response's own three fields; a SendBird error with its code and message.
catch-api_error :
    (response : ApiErrorResponse) (code : SendBirdCode) (answer : ResponseData) (r : Request)
    → (catch (of_api (api_error response)) r
        ≡ answered
            (log_api_error response.error_code (api_error response) r)
            (error_code_map response.error_code)
            (record {
              error_code = own response.error_code;
              details = response.details;
              message = response.message;
            }))
      × (catch (of_api (send_bird_error code answer)) r
          ≡ answered
              (log_api_error (send_bird_code code) (send_bird_error code answer) r)
              (error_code_map (send_bird_code code))
              (record {
                error_code = own (send_bird_code code);
                details = some (("code", answer.code) ∷ []);
                message = answer.message;
              }))
unfolding catch send_bird_error
catch-api_error response code answer r = (refl, refl)

-- The filter answers every exception but null and undefined; with 404 only Nest's own
-- `NotFoundException`, since no code of an `ApiError` built by its constructor maps to 404.
catch-not_found_iff :
    (response : ApiErrorResponse) (r : Request) (x : Exception)
    → (x ≡ of_api (api_error response))
      ⊎ ((x ≡ not_found_exception) ⊎ ((x ≡ other_exception) ⊎ (x ≡ nothing)))
    → ((status_of (catch x r) ≡ some HttpStatus.not_found) ↔ (x ≡ not_found_exception))
      × ((status_of (catch x r) ≡ none) ↔ (x ≡ nothing))
unfolding catch api_error error_code_map
catch-not_found_iff response r x h = ground arith
