-- ===== src/Api/Sending.antt =====
-- The two endpoints of api/v1/whatsapp.py that send.
pub mod Allowed
pub mod Laws
use whatsapp_api.Base.{not, String, ◌<>◌, Option, none, some, List, ◌∷◌, map}
use whatsapp_api.Base.Exec.{Action, ◌>>=◌, ◌>>◌, raise_if}
use whatsapp_api.Errors.{Error, http_exception}
use whatsapp_api.Json.{Json, null, str, arr, from_list, to_str}
use whatsapp_api.Models.{Settings}
use whatsapp_api.Tenants.{Fernet}
use whatsapp_api.Utils.Validators.{ParsedUrl}
use whatsapp_api.Client.{Http}
use whatsapp_api.RateLimiter.{Redis, RateLimiter}
use whatsapp_api.Auth.{AuthContext, has_scope, template_allowed, authenticate}
use whatsapp_api.Messages.{World, SendTextRequest, SendResponse, send_text, send_template}
use whatsapp_api.Messages.Components.{SendTemplateRequest}
use whatsapp_api.Api.{serve}

abbrev listed_templates : Option (List String) → Json
listed_templates none = null
listed_templates (some ts) = arr (from_list (map str ts))

unfoldable pub no_text_scope : Error
no_text_scope = http_exception 403 "API key not authorized for free-form text messages"

unfoldable pub no_template_scope : Error
no_template_scope = http_exception 403 "API key not authorized to send templates"

unfoldable pub not_in_allowlist : AuthContext → String → Error
not_in_allowlist ctx name = http_exception 403 (
    "Template '"
    <> name
    <> "' is not in this key's allowlist. "
    <> "Allowed: "
    <> to_str (listed_templates ctx.allowed_templates))

module _ (redis : Redis) (http : Http) (fernet : Option Fernet) (limiter : RateLimiter)
    (settings : Settings) (describe : Error → String) (hash_key : String → String)
    (x_api_key : Option String) where
  unfoldable pub post_text : SendTextRequest → Action (World redis http) SendResponse
  post_text payload = serve redis http (authenticate hash_key settings x_api_key) (λ ctx.
      raise_if (not (has_scope ctx "send_text")) no_text_scope
      >> send_text redis http fernet limiter settings describe payload)

  unfoldable pub post_template :
      (String → ParsedUrl) → SendTemplateRequest → Action (World redis http) SendResponse
  post_template urlparse payload =
      serve redis http (authenticate hash_key settings x_api_key) (λ ctx.
        raise_if (not (has_scope ctx "send_template")) no_template_scope
        >> (raise_if (not (template_allowed ctx payload.template_name))
              (not_in_allowlist ctx payload.template_name)
            >> send_template redis http fernet limiter settings describe urlparse payload))
