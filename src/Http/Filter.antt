-- ===== src/Http/Filter.antt =====
-- What a client learns of a failure.
use bankproject.Base.{
  ◌≤◌, ◌<◌, ◌≡◌, refl, String, true, Option, none, some, arith, Bool-cases, inl, inr,
}
use bankproject.Text.{trim}
use bankproject.Http.{
  is_request_id, request_id, Exception, status_of, client_message, catch_exception,
}

-- An id is well formed if the new one is.
request_id-fine :
    (supplied : Option String) (uuid : String)
    → is_request_id uuid ≡ true
    → is_request_id (request_id supplied uuid) ≡ true
unfolding request_id
request_id-fine none uuid h = h
request_id-fine (some s) uuid h = elim (Bool-cases (is_request_id (trim s))) [
  | inl fine ↦ rw fine fine
  | inr bad ↦ rw bad h
]

-- The reply to a failed request says nothing of a failure of the server but its status: it is the
-- same for any two exceptions with one status of 500 or more. Below that it has the status and the
-- client's message of the exception. The id that it carries is well formed whatever the request
-- brought, if a new id is.
pub catch_exception_hides :
    (supplied : Option String) (uuid : String)
    → is_request_id uuid ≡ true
    → let reply = catch_exception (request_id supplied uuid) in
      ((e f : Exception) → status_of e ≡ status_of f → 500 ≤ status_of e → reply e ≡ reply f)
      × ((e : Exception) → status_of e < 500 → (reply e).message ≡ client_message e)
      × ((e : Exception)
          → ((reply e).status_code ≡ status_of e) × (is_request_id ((reply e).request_id) ≡ true))
unfolding catch_exception
catch_exception_hides supplied uuid h = (
  (λ e f same server. ground (arith, same, server)),
  (λ e client. ground (arith, client)),
  (λ e. (refl, request_id-fine supplied uuid h)),
)
