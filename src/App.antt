-- ===== src/App.antt =====
-- main.py: the exception handlers, and the middleware `request_context` around each request.
-- Starlette picks the handler by the class of the exception; what no handler takes is raised again.
-- The `details` of an error body and the durations in the log are not kept.
pub mod Responses
pub mod Connections
use whatsapp_api.Base.{ℕ, ◌&&◌, String, Option, none, some, ◌∷◌, ◌++◌, if◌then◌else◌}
use whatsapp_api.Errors.{Error, prodaxis, http_exception, text_or}

-- What a request may raise: an error of the services, or one of FastAPI and slowapi before them.
pub data Raised : Type 0 where
  service_error : Error → Raised
  request_validation : Raised
  rate_limited : Raised

-- The body of a response: what an endpoint returns, FastAPI's `detail`, or an error of the handlers.
pub data Body : Type 0 where
  content : String → Body
  detail : String → Body
  error_body : String → String → Option String → Body

pub record Response : Type 0 where
  pub status_code : ℕ
  pub body : Body
  pub x_request_id : Option String

-- The parts of a request that the middleware reads.
pub record Request : Type 0 where
  pub method : String
  pub path : String
  pub x_request_id : Option String

abbrev respond : ℕ → Body → Response
respond code b = record { status_code = code; body = b; x_request_id = none }

unfoldable pub handle_domain_error : Request → ℕ → String → String → Response
handle_domain_error request status_code error_code message =
    respond status_code (error_body error_code message request.x_request_id)

unfoldable pub handle_validation_error : Request → Response
handle_validation_error request =
    respond 422 (error_body "validation_error" "Request validation failed" request.x_request_id)

unfoldable pub handle_rate_limit : Request → Response
handle_rate_limit request =
    respond 429 (error_body "api_rate_limit" "Too many requests" request.x_request_id)

-- The handler for an exception, if there is one.
unfoldable pub handle : Request → Raised → Option Response
handle request (service_error (prodaxis f)) =
    some (handle_domain_error request f.status_code f.error_code f.message)
handle request (service_error (http_exception code text)) = some (respond code (detail text))
handle request request_validation = some (handle_validation_error request)
handle request rate_limited = some (handle_rate_limit request)
handle request (service_error e) = none

-- What the endpoint does, with what stands before it: it answers with a status and a content, or
-- raises.
pub data Ran : Type 0 where
  gave : ℕ → String → Ran
  failed : Raised → Ran

pub data Outcome : Type 0 where
  returned : Response → Outcome
  raised : Raised → Outcome

abbrev or_raised : Raised → Option Response → Outcome
or_raised e none = raised e
or_raised e (some r) = returned r

-- `call_next(request)`: the endpoint with the exception handlers around it.
unfoldable pub call_next : Request → Ran → Outcome
call_next request (gave code text) = returned (respond code (content text))
call_next request (failed e) = or_raised e (handle request e)

-- A line of the log, with the id that `contextualize` adds.
pub data Line : Type 0 where
  unhandled : String → String → Raised → Line
  finished : String → String → String → ℕ → Line

-- What the rest of `request_context` does with the outcome.
abbrev finish : String → Request → Outcome → Outcome × Line
finish request_id request (raised e) = (raised e, unhandled request_id request.path e)
finish request_id request (returned r) = (
  returned (record r { x_request_id = some request_id }),
  finished request_id request.method request.path r.status_code,
)

-- `request_context`: the outcome, and the line that is logged. `fresh` is the text of a new UUID.
unfoldable pub request_context : String → Request → Ran → Outcome × Line
request_context fresh request inner =
    finish (text_or request.x_request_id fresh) request (call_next request inner)
