-- ===== src/Tests/Responses.antt =====
-- Validation errors and the exception filter on concrete inputs.
use nestjs_stay_api.Common.{◌≡◌, refl, ◌↔◌, true, false, none, some, [], ◌∷◌, String}
use nestjs_stay_api.Redis.{lookup}
use nestjs_stay_api.Errors.{
  bad_request_error, HttpStatus, invalid_argument_error, ApiErrorResponse, ResponseData, Request,
  request_log, with_request, other_exception, not_found_exception, own, answered, catch,
}
use nestjs_stay_api.Validation.{
  ValidationErrors, failing, nil, cons, put, process_all, create_exception, raised,
}
use nestjs_stay_api.Validation.Paths.{AnyFails, process_all_iff}

-- `{guest: {name: …, age: …}}` where the name and an item of the guest failed.
abbrev tree : ValidationErrors
tree =
    cons
      (failing "guest" false (
        cons (failing "name" true nil)
          (cons (failing "age" false (cons (failing "0" true nil) nil)) nil)))
      nil

tree_details : process_all tree [] "" ≡ ("guest.name", "invalid") ∷ ("guest.age.0", "invalid") ∷ []
unfolding process_all put
tree_details = refl

proto_details : process_all (cons (failing "__proto__" true nil) nil) [] "" ≡ []
unfolding process_all put
proto_details = refl

process_all_iff_example :
    (lookup "guest.name" (process_all tree [] "") ≡ some "invalid")
    ↔ (AnyFails "guest.name" "" tree × (◌≡◌ {A = String} "invalid" "invalid"))
process_all_iff_example = process_all_iff "guest.name" refl tree "invalid"

abbrev posted : Request
posted = record { method = "POST"; body = "{}"; params = "{}"; query = "{}" }

posted_log : (request_log posted).params ≡ none
unfolding request_log
posted_log = refl

-- With the details on, a failed property is answered with its path; with them off, by the status of the
-- pipe.
answered_with_details :
    catch (raised (create_exception false 400 (cons (failing "name" true nil) nil))) posted
    ≡ answered
        (with_request invalid_argument_error (request_log posted))
        HttpStatus.bad_request
        (record {
          error_code = own invalid_argument_error;
          details = some (("name", "invalid") ∷ []);
          message = none;
        })
unfolding raised create_exception catch process_all put
answered_with_details = refl

answered_without_details :
    (raised (create_exception true 404 nil) ≡ not_found_exception)
    × (raised (create_exception true 400 nil) ≡ other_exception)
unfolding raised create_exception
answered_without_details = (refl, refl)

abbrev refusal : ApiErrorResponse
refusal = record { error_code = bad_request_error; details = none; message = some "no" }

abbrev answer : ResponseData
answer = record { code = "400111"; message = some "not allowed" }
