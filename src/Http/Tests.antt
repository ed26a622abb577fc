-- ===== src/Http/Tests.antt =====
-- Some failures and origins, and the instance of the theorem on the filter.
use bankproject.Base.{◌≤◌, ◌<◌, ◌≡◌, refl, true, some, [], ◌∷◌}
use bankproject.Text.{trim}
use bankproject.Text.Split.{split}
use bankproject.Http.{
  is_request_id, request_id, http_exception, object_response, many_texts, other_exception,
  Exception, text_message, texts_message, status_of, client_message, catch_exception, allows_origin,
}
use bankproject.Http.Filter.{catch_exception_hides}

run_client :
    (catch_exception "request-123" (
      http_exception 400
        (object_response (some (many_texts (some "email must be an email" ∷ [])))))).message
    ≡ texts_message ("email must be an email" ∷ [])
unfolding catch_exception
run_client = refl

run_hidden :
    (catch_exception "request-123" (other_exception "database password leaked")).message
    ≡ text_message "Internal server error"
unfolding catch_exception
run_hidden = refl

run_origin :
    allows_origin (some "https://bank.example, https://soc.example") (some "https://soc.example")
    ≡ true
unfolding allows_origin split trim
run_origin = refl

catch_exception_hides_example :
    let reply = catch_exception (request_id (some "bad id") "a-1") in
    ((e f : Exception) → status_of e ≡ status_of f → 500 ≤ status_of e → reply e ≡ reply f)
    × ((e : Exception) → status_of e < 500 → (reply e).message ≡ client_message e)
    × ((e : Exception)
        → ((reply e).status_code ≡ status_of e) × (is_request_id ((reply e).request_id) ≡ true))
catch_exception_hides_example = catch_exception_hides (some "bad id") "a-1" refl
