-- ===== src/Client/Bodies.antt =====
-- services/whatsapp_client.py: the JSON bodies that the calls of `WhatsAppClient` post.
use whatsapp_api.Base.{Bool, String, Option, none, some, List, [], ◌∷◌}
use whatsapp_api.Json.{Json, bool, str, arr, obj, Fields, end, field, from_list}
use whatsapp_api.Utils.Phone.{to_meta_format}

-- The bodies of the calls.
unfoldable pub text_body : String → String → Bool → Json
text_body to text preview_url = obj (
    field "messaging_product" (str "whatsapp") (
      field "recipient_type" (str "individual") (
        field "to" (str (to_meta_format to)) (
          field "type" (str "text") (
            field "text"
              (obj (field "preview_url" (bool preview_url) (field "body" (str text) end))) end)))))

abbrev with_components : List Json → Fields
with_components [] = end
with_components (c ∷ cs) = field "components" (arr (from_list (c ∷ cs))) end

unfoldable pub template_body : String → String → String → List Json → Json
template_body to template_name language_code components = obj (
    field "messaging_product" (str "whatsapp") (
      field "recipient_type" (str "individual") (
        field "to" (str (to_meta_format to)) (
          field "type" (str "template") (
            field "template"
              (obj (
                field "name" (str template_name) (
                  field "language" (obj (field "code" (str language_code) end))
                    (with_components components))))
              end)))))

abbrev captioned : Option String → Fields → Fields
captioned none fs = fs
captioned (some String.[]) fs = fs
captioned (some s) fs = field "caption" (str s) fs

unfoldable pub image_body : String → String → Option String → Json
image_body to image_url caption = obj (
    field "messaging_product" (str "whatsapp") (
      field "to" (str (to_meta_format to)) (
        field "type" (str "image")
          (field "image" (obj (field "link" (str image_url) (captioned caption end))) end))))

unfoldable pub document_body : String → String → String → Option String → Json
document_body to document_url filename caption = obj (
    field "messaging_product" (str "whatsapp") (
      field "to" (str (to_meta_format to)) (
        field "type" (str "document") (
          field "document"
            (obj (
              field "link" (str document_url)
                (field "filename" (str filename) (captioned caption end))))
            end))))

unfoldable pub read_body : String → Json
read_body wa_message_id = obj (
    field "messaging_product" (str "whatsapp")
      (field "status" (str "read") (field "message_id" (str wa_message_id) end)))
