-- ===== src/App/Responses.antt =====
-- Every response carries an id, and an error body names the id of the request.
use whatsapp_api.Base.{ℕ, ◌≡◌, refl, Bool, true, false, String, Option, some}
use whatsapp_api.Errors.{prodaxis, http_exception, response_status, text_or}
use whatsapp_api.App.{
  service_error, request_validation, rate_limited, Body, content, detail, error_body, Request, Ran,
  gave, failed, Outcome, returned, raised, handle, handle_domain_error, handle_validation_error,
  handle_rate_limit, call_next, Line, unhandled, finished, request_context,
}

-- The status that the handlers give, and 500 where none does.
abbrev status_of : Outcome → ℕ
status_of (returned r) = r.status_code
status_of (raised e) = 500

abbrev pub expected_status : Ran → ℕ
expected_status (gave code text) = code
expected_status (failed (service_error e)) = response_status e
expected_status (failed request_validation) = 422
expected_status (failed rate_limited) = 429

-- The id in an error body is the one that the client sent, whether it sent one or not.
abbrev Names : Option String → Body → Type 0
Names sent (error_body code message id) = id ≡ sent
Names sent (detail text) = Unit
Names sent (content text) = Unit

-- The response has the id, and its body names the client's.
abbrev Carries : String → Option String → Outcome → Type 0
Carries id sent (returned r) = (r.x_request_id ≡ some id) × Names sent r.body
Carries id sent (raised e) = Unit

-- One line is logged, with the id of the request and the status of the response.
abbrev Logged : String → Outcome → Line → Type 0
Logged id (returned r) (finished id' method path code) = (id' ≡ id) × (code ≡ r.status_code)
Logged id (raised e) (unhandled id' path e') = (id' ≡ id) × (e' ≡ e)
Logged id _ _ = ⊥

-- Is there a handler?
abbrev handled : Ran → Bool
handled (failed (service_error (prodaxis f))) = true
handled (failed (service_error (http_exception code text))) = true
handled (failed (service_error e)) = false
handled _ = true

abbrev is_returned : Outcome → Bool
is_returned (returned r) = true
is_returned (raised e) = false

module _ (fresh : String) (request : Request) where
  abbrev pub Answers : Ran → Outcome × Line → Type 0
  Answers inner (outcome, line) =
      (is_returned outcome ≡ handled inner)
      × (status_of outcome ≡ expected_status inner)
      × Carries (text_or request.x_request_id fresh) request.x_request_id outcome
      × Logged (text_or request.x_request_id fresh) outcome line

  -- Each request that returns, or raises what a handler takes, is answered with the status of its
  -- error. The response carries the id that the client sent, or a fresh one where it sent none or
  -- an empty one; an error body names what the client sent, which is nothing where it sent none.
  -- One line with the id of the response is logged, on an exception that no handler takes too.
  pub request_context_lem : (inner : Ran) → Answers inner (request_context fresh request inner)
  unfolding request_context call_next handle handle_domain_error handle_validation_error
      handle_rate_limit response_status
  request_context_lem (gave code text) = (refl, refl, (refl, tt), (refl, refl))
  request_context_lem (failed (service_error (prodaxis f))) =
      (refl, refl, (refl, refl), (refl, refl))
  request_context_lem (failed (service_error (http_exception code text))) =
      (refl, refl, (refl, tt), (refl, refl))
  request_context_lem (failed (service_error _)) = (refl, refl, tt, (refl, refl))
  request_context_lem (failed request_validation) = (refl, refl, (refl, refl), (refl, refl))
  request_context_lem (failed rate_limited) = (refl, refl, (refl, refl), (refl, refl))
