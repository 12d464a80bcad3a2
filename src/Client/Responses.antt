-- ===== src/Client/Responses.antt =====
-- services/whatsapp_client.py: what `_raise_for_status` and `_do` make of what the HTTP client
-- answers.
use whatsapp_api.Base.{
  ℕ, Bool, false, not, ◌||◌, ◌&&◌, String, Option, none, some, leb, ltb, ◌==◌, if◌then◌else◌,
}
use whatsapp_api.Base.Int.{pos}
use whatsapp_api.Base.Exec.{Result, ok, err}
use whatsapp_api.Errors.{
  prodaxis, Failure, failure, meta_auth, meta_rate_limit, meta_invalid_request, meta_server,
  meta_error, transport_error, timeout_exception, value_error,
}
use whatsapp_api.Json.{Json, null, num, str, obj, end, field, lookup, truthy, to_str}

-- `json` is `resp.json()`, with no value where that raises `ValueError`.
pub record Response : Type 0 where
  pub status_code : ℕ
  pub text : String
  pub has_content : Bool
  pub json : Option Json

-- What `client.request` comes to.
pub data Outcome : Type 0 where
  response : Response → Outcome
  transport_failure timed_out : Outcome

-- The parsed body of an error response, or `{"raw": text}`.
abbrev body_or_raw : Response → Json
body_or_raw r = elim r.json [ some j ↦ j | none ↦ obj (field "raw" (str r.text) end) ]

-- `(payload or {}).get("error", payload) if isinstance(payload, dict) else {}`
abbrev error_object : Json → Json
error_object (obj fs) = lookup "error" (obj fs) fs
error_object _ = obj end

-- `err.get(k) if isinstance(err, dict) else None`
abbrev error_field : String → Json → Json
error_field k (obj fs) = lookup k null fs
error_field k _ = null

unfoldable pub is_code : ℕ → Json → Bool
is_code n (num (pos m)) = m == n
is_code n _ = false

-- `code in (4, 80007, 130429, 131048, 131056)`
unfoldable pub is_rate_code : Json → Bool
unfolding is_code
is_rate_code c =
    is_code 4 c || is_code 80007 c || is_code 130429 c || is_code 131048 c || is_code 131056 c

abbrev error_text : Json → String → String
error_text m text = if truthy m then to_str m else text

-- The branches on the status and Meta's code.
unfoldable pub classify : ℕ → Json → String → Failure
classify status code msg =
    if status == 401 || is_code 190 code
    then failure meta_auth (some msg) none none
    else if status == 429 || is_rate_code code
    then failure meta_rate_limit (some msg) none none
    else if leb 400 status && ltb status 500
    then failure meta_invalid_request (some msg) none (some status)
    else if leb 500 status
    then failure meta_server (some msg) none none
    else failure meta_error (some msg) none (some status)

-- The error that a response of status 400 or more raises.
unfoldable pub response_failure : Response → Failure
response_failure r =
    let e = error_object (body_or_raw r) in
    classify r.status_code (error_field "code" e) (error_text (error_field "message" e) r.text)

unfoldable pub raise_for_status : Response → Result (Unit {0})
raise_for_status r = if ltb r.status_code 400 then ok tt else err (prodaxis (response_failure r))

-- `resp.json()`, or its `ValueError`.
unfoldable pub parsed : Option Json → Result Json
parsed (some j) = ok j
parsed none = err value_error

-- `if resp.status_code == 204 or not resp.content: return {}`
unfoldable pub read_content : Response → Result Json
unfolding parsed
read_content r = if r.status_code == 204 || not r.has_content then ok (obj end) else parsed r.json

-- What `_do` returns for a response.
abbrev after_check : Result (Unit {0}) → Response → Result Json
after_check (ok _) r = read_content r
after_check (err e) r = err e

unfoldable pub read_response : Response → Result Json
read_response r = after_check (raise_for_status r) r

unfoldable pub read_outcome : Outcome → Result Json
read_outcome (response r) = read_response r
read_outcome transport_failure = err transport_error
read_outcome timed_out = err timeout_exception
