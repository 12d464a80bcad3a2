-- ===== src/Schemas.antt =====
-- The validation of requests by the schemas of src/schemas. Pydantic checks the fields in order: a
-- field that does not fit is collected, and an exception of a validator that is no `ValueError`
-- goes through at once, as the one of `normalize_phone` does. A request is typed already.
pub mod Laws
pub mod Slug
use whatsapp_api.Base.{
  ℕ, Bool, true, false, ◌&&◌, ◌||◌, String, Option, none, some, List, [], ◌∷◌, length, leb, ◌==◌,
  if◌then◌else◌,
}
use whatsapp_api.Base.Text.{codes}
use whatsapp_api.Base.Regex.{Match, once, many, at_end, Piece, match}
use whatsapp_api.Base.Exec.{Result, ok, err}
use whatsapp_api.Utils.Phone.{PhoneLib, normalize_phone}
use whatsapp_api.Messages.{SendTextRequest}
use whatsapp_api.Messages.Components.{SendTemplateRequest}
use whatsapp_api.Campaigns.{CampaignCreate}
use whatsapp_api.Tenants.{TenantCreate, TenantUpdate}
use whatsapp_api.Auth.{ApiKeyCreate}
use whatsapp_api.App.{Raised, service_error, request_validation}

-- What validation makes of a request.
pub data Validated {ℓ} (A : Type ℓ) : Type ℓ where
  valid : A → Validated A
  refused : Raised → Validated A

-- `Field(min_length=lo, max_length=hi)` and `Field(ge=lo, le=hi)`
abbrev pub between : ℕ → ℕ → ℕ → Bool
between lo hi n = leb lo n && leb n hi

abbrev pub text_between : ℕ → ℕ → String → Bool
text_between lo hi s = between lo hi (length (codes s))

abbrev optional : {A : Type 0} → (A → Bool) → Option A → Bool
optional p none = true
optional p (some a) = p a

abbrev pub valid_if : {A : Type 0} → Bool → A → Validated A
valid_if b a = if b then valid a else refused request_validation

-- `_PhoneMixin`: the request with the phone normalised, or the exception.
abbrev pub with_phone : {A : Type 0} → Result String → (String → Validated A) → Validated A
with_phone (ok to) k = k to
with_phone (err e) k = refused (service_error e)

module _ (lib : PhoneLib) where
  unfoldable pub validate_text : SendTextRequest → Validated SendTextRequest
  validate_text r =
      with_phone (normalize_phone lib r.to)
        (λ to. valid_if (text_between 1 4096 r.text) (record r { to = to }))

  unfoldable pub validate_template : SendTemplateRequest → Validated SendTemplateRequest
  validate_template r = with_phone (normalize_phone lib r.to) (λ to.
      valid_if (text_between 1 150 r.template_name && text_between 2 20 r.language_code)
        (record r { to = to }))

unfoldable validate_campaign : CampaignCreate → Validated CampaignCreate
validate_campaign r =
    valid_if
      (text_between 1 200 r.name
        && text_between 1 150 r.template_name
        && text_between 2 20 r.language_code)
      r

-- `[a-z0-9]`, and `[a-z0-9-]`
abbrev pub slug_char : ℕ → Bool
slug_char c = between b'a' b'z' c || between b'0' b'9' c

abbrev pub slug_or_dash : ℕ → Bool
slug_or_dash c = slug_char c || c == b'-'

-- `^[a-z0-9][a-z0-9-]*[a-z0-9]$`
abbrev pub slug_pattern : List Piece
slug_pattern = once slug_char ∷ many slug_or_dash ∷ once slug_char ∷ at_end ∷ []

abbrev pub is_match : Option Match → Bool
is_match none = false
is_match (some _) = true

unfoldable pub slug_fits : String → Bool
slug_fits slug = text_between 1 80 slug && is_match (match slug_pattern (codes slug))

unfoldable validate_tenant : TenantCreate → Validated TenantCreate
validate_tenant r =
    valid_if
      (text_between 1 150 r.name
        && slug_fits r.slug
        && text_between 1 64 r.waba_id
        && text_between 1 64 r.phone_number_id
        && leb 10 (length (codes r.access_token)))
      r

unfoldable validate_tenant_update : TenantUpdate → Validated TenantUpdate
validate_tenant_update r = valid_if (optional (λ s. leb (length (codes s)) 150) r.name) r

unfoldable validate_api_key : ApiKeyCreate → Validated ApiKeyCreate
validate_api_key r =
    valid_if
      (text_between 2 150 r.label
        && between 1 10000 r.rate_limit_per_hour
        && optional (between 1 3650) r.expires_in_days)
      r
