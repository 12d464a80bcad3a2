-- ===== src/Messages/Components.antt =====
-- services/message_service.py: `_build_template_components`, on the request of schemas/message.py.
use whatsapp_api.Base.{ℕ, not, String, Option, none, some, List, [], ◌∷◌, ◌++◌, map, if◌then◌else◌}
use whatsapp_api.Base.Text.{is_empty}
use whatsapp_api.Base.Exec.{Result, ok, err}
use whatsapp_api.Json.{Json, str, arr, obj, Fields, end, field, Items, from_list}
use whatsapp_api.Utils.Validators.{ParsedUrl, validate_https_url}

pub record SendTemplateRequest : Type 0 where
  pub tenant_id : Option ℕ
  pub to : String
  pub template_name : String
  pub language_code : String
  pub variables : Option (List String)
  pub header_image_url : Option String
  pub header_document_url : Option String
  pub header_document_filename : Option String
  pub button_url_param : Option String

abbrev text_or_empty : Option String → String
text_or_empty none = ""
text_or_empty (some s) = s

abbrev kind_of : String → Fields → Json
kind_of t rest = obj (field "type" (str t) rest)

abbrev one : Json → Json
one j = arr (Items.cons j Items.nil)

abbrev text_parameter : String → Json
text_parameter v = kind_of "text" (field "text" (str v) end)

unfoldable pub image_header : String → Json
image_header url = kind_of "header" (
    field "parameters"
      (one (kind_of "image" (field "image" (obj (field "link" (str url) end)) end))) end)

abbrev filename_or : Option String → String
filename_or name = if is_empty (text_or_empty name) then "document.pdf" else text_or_empty name

unfoldable pub document_header : String → Option String → Json
document_header url name = kind_of "header" (
    field "parameters"
      (one (
        kind_of "document" (
          field "document"
            (obj (field "link" (str url) (field "filename" (str (filename_or name)) end))) end)))
      end)

abbrev then_ok : Result String → List Json → Result (List Json)
then_ok (ok _) js = ok js
then_ok (err e) js = err e

-- The header's component, if there is a URL for one, which must be valid.
unfoldable pub header_component : (String → ParsedUrl) → SendTemplateRequest → Result (List Json)
header_component urlparse p =
    let image = text_or_empty p.header_image_url in
    let document = text_or_empty p.header_document_url in
    if not (is_empty image)
    then then_ok (validate_https_url urlparse image "header_image_url") (image_header image ∷ [])
    else if not (is_empty document)
    then then_ok (validate_https_url urlparse document "header_document_url")
        (document_header document p.header_document_filename ∷ [])
    else ok []

unfoldable pub body_component : Option (List String) → List Json
body_component none = []
body_component (some []) = []
body_component (some (v ∷ vs)) =
    kind_of "body" (field "parameters" (arr (from_list (map text_parameter (v ∷ vs)))) end) ∷ []

unfoldable pub button_component : Option String → List Json
button_component param =
    if is_empty (text_or_empty param)
    then []
    else kind_of "button" (
        field "sub_type" (str "url") (
          field "index" (str "0")
            (field "parameters" (one (text_parameter (text_or_empty param))) end)))
      ∷ []

abbrev with_rest : Result (List Json) → List Json → Result (List Json)
with_rest (ok header) rest = ok (header ++ rest)
with_rest (err e) rest = err e

unfoldable pub build_template_components :
    (String → ParsedUrl) → SendTemplateRequest → Result (List Json)
build_template_components urlparse p =
    with_rest (header_component urlparse p)
      (body_component p.variables ++ button_component p.button_url_param)
