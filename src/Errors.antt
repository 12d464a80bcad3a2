-- ===== src/Errors.antt =====
-- The exceptions: src/exceptions.py, and those of Python and of the libraries that the services
-- let through. A `details` dict is not kept.
pub mod Laws
use whatsapp_api.Base.{ℕ, String, ◌==◌, Option, none, some, if◌then◌else◌}

-- The subclasses of `ProdaxisError`.
pub data Kind : Type 0 where
  prodaxis_error validation_error not_found conflict unauthorized forbidden : Kind
  tenant_not_found template_not_found campaign_not_found : Kind
  tenant_quota_exceeded rate_limit_exceeded : Kind
  meta_error meta_auth meta_invalid_request meta_rate_limit meta_server : Kind
  webhook_signature : Kind

-- The class attribute `status_code`, inherited where a class has none of its own.
unfoldable pub class_status : Kind → ℕ
class_status prodaxis_error = 500
class_status validation_error = 422
class_status not_found = 404
class_status conflict = 409
class_status unauthorized = 401
class_status forbidden = 403
class_status tenant_not_found = 404
class_status template_not_found = 404
class_status campaign_not_found = 404
class_status tenant_quota_exceeded = 429
class_status rate_limit_exceeded = 429
class_status meta_error = 502
class_status meta_auth = 401
class_status meta_invalid_request = 400
class_status meta_rate_limit = 429
class_status meta_server = 502
class_status webhook_signature = 401

-- The class attribute `error_code`.
unfoldable class_code : Kind → String
class_code prodaxis_error = "internal_error"
class_code validation_error = "validation_error"
class_code not_found = "not_found"
class_code conflict = "conflict"
class_code unauthorized = "unauthorized"
class_code forbidden = "forbidden"
class_code tenant_not_found = "tenant_not_found"
class_code template_not_found = "template_not_found"
class_code campaign_not_found = "campaign_not_found"
class_code tenant_quota_exceeded = "tenant_quota_exceeded"
class_code rate_limit_exceeded = "rate_limit_exceeded"
class_code meta_error = "meta_error"
class_code meta_auth = "meta_auth_error"
class_code meta_invalid_request = "meta_invalid_request"
class_code meta_rate_limit = "meta_rate_limit"
class_code meta_server = "meta_server_error"
class_code webhook_signature = "webhook_signature_invalid"

-- The class attribute `message`.
unfoldable class_message : Kind → String
class_message tenant_not_found = "Tenant not found"
class_message template_not_found = "Template not found"
class_message campaign_not_found = "Campaign not found"
class_message tenant_quota_exceeded = "Monthly message quota exceeded for tenant"
class_message rate_limit_exceeded = "Rate limit exceeded — slow down"
class_message meta_error = "Meta WhatsApp Cloud API error"
class_message meta_auth = "Meta access token rejected"
class_message meta_invalid_request = "Meta rejected the request"
class_message meta_rate_limit = "Meta rate limit hit; retry later"
class_message meta_server = "Meta server error"
class_message webhook_signature = "Invalid webhook signature"
class_message _ = "An internal error occurred"

-- An instance of a `ProdaxisError`.
pub record Failure : Type 0 where
  pub kind : Kind
  pub message : String
  pub error_code : String
  pub status_code : ℕ

-- `given or default` on an optional text: an empty text counts as none.
abbrev pub text_or : Option String → String → String
text_or none d = d
text_or (some String.[]) d = d
text_or (some s) d = s

-- `if status_code: self.status_code = status_code`
abbrev status_or : Option ℕ → ℕ → ℕ
status_or none d = d
status_or (some n) d = if n == 0 then d else n

-- `ProdaxisError.__init__`
unfoldable pub failure : Kind → Option String → Option String → Option ℕ → Failure
unfolding class_status class_code class_message
failure k message error_code status_code = record {
  kind = k;
  message = text_or message (class_message k);
  error_code = text_or error_code (class_code k);
  status_code = status_or status_code (class_status k);
}

-- Everything that a service call may raise. `http_exception` is FastAPI's.
pub data Error : Type 0 where
  prodaxis : Failure → Error
  http_exception : ℕ → String → Error
  transport_error timeout_exception : Error
  multiple_results_found integrity_error : Error
  type_error attribute_error value_error key_error index_error runtime_error : Error
  redis_error : Error
  -- The fuel of a loop ran out: no behaviour of the program.
  out_of_fuel : Error

-- `raise K()`, `raise K(message)` and `raise K(message, error_code=code)`
abbrev pub plain : Kind → Error
plain k = prodaxis (failure k none none none)

abbrev pub saying : Kind → String → Error
saying k message = prodaxis (failure k (some message) none none)

abbrev pub coded : Kind → String → String → Error
coded k message code = prodaxis (failure k (some message) (some code) none)

-- The status of the response that the exception handlers of `main.py` give; what no handler
-- takes is an internal server error.
unfoldable pub response_status : Error → ℕ
response_status (prodaxis f) = f.status_code
response_status (http_exception code _) = code
response_status _ = 500
