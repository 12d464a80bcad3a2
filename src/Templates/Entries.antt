-- ===== src/Templates/Entries.antt =====
-- services/template_service.py: what `sync_from_meta` reads of one template of Meta.
use whatsapp_api.Base.{String, Option, none, some, if◌then◌else◌}
use whatsapp_api.Base.Text.{upper_eq}
use whatsapp_api.Base.Exec.{Result, ok, err, chain}
use whatsapp_api.Errors.{attribute_error, type_error}
use whatsapp_api.Json.{Json, str, arr, obj, Items, get as get_field, get_or, truthy, or_else}
use whatsapp_api.Models.{TemplateCategory, TemplateStatus}

-- What the loop reads of a template of Meta.
pub record Entry : Type 0 where
  pub name : Json
  pub language : Json
  pub category : TemplateCategory
  pub status : TemplateStatus
  pub components : Json
  pub meta_id : Json

-- `_CATEGORY_MAP.get(text.upper(), TemplateCategory.utility)`
unfoldable pub category_of : String → TemplateCategory
category_of s =
    if upper_eq s "MARKETING"
    then TemplateCategory.marketing
    else if upper_eq s "AUTHENTICATION"
    then TemplateCategory.authentication
    else TemplateCategory.utility

-- `_STATUS_MAP.get(text.upper(), TemplateStatus.pending)`
unfoldable pub status_of : String → TemplateStatus
status_of s =
    if upper_eq s "APPROVED"
    then TemplateStatus.approved
    else if upper_eq s "REJECTED"
    then TemplateStatus.rejected
    else if upper_eq s "PAUSED"
    then TemplateStatus.paused
    else if upper_eq s "DISABLED"
    then TemplateStatus.disabled
    else TemplateStatus.pending

-- `(x or "")`, which must be a text for `.upper()`.
abbrev text_value : Json → Result String
text_value (str s) = ok s
text_value j = if truthy j then err attribute_error else ok ""

-- A list or a dict is no key of a dict.
abbrev hashable : Json → Result Json
hashable (arr _) = err type_error
hashable (obj _) = err type_error
hashable j = ok j

unfoldable pub read_named : Json → Json → Json → Result (Option Entry)
read_named raw name language = chain (get_field raw "category") λ category.
    chain (text_value category) λ category_text. chain (get_field raw "status") λ status.
      chain (text_value status) λ status_text. chain (get_field raw "components") λ components.
        chain (hashable name) λ _. chain (hashable language) λ _.
          chain (get_field raw "id") λ meta_id. ok (
            some (record {
              name = name;
              language = language;
              category = category_of category_text;
              status = status_of status_text;
              components = or_else components (arr Items.nil);
              meta_id = meta_id;
            }))

-- The reads of one round of the loop: none is `continue`.
unfoldable pub read_template : Json → Result (Option Entry)
read_template raw = chain (get_field raw "name") λ name.
    chain (get_or raw "language" (str "en_US")) λ language.
      (let named = read_named raw name language in if truthy name then named else ok none)
