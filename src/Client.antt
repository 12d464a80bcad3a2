-- ===== src/Client.antt =====
-- services/whatsapp_client.py: `WhatsAppClient`. The HTTP client (httpx) is the parameter `http`,
-- with `random.uniform` and `asyncio.sleep` over the same state.
pub mod Responses
pub mod Bodies
pub mod Laws
pub mod Listing
use whatsapp_api.Base.{
  ℕ, zero, suc, ◌≤◌, Bool, true, false, ◌||◌, ◌&&◌, String, ◌<>◌, Option, List, [], ◌∷◌, ◌++◌, ◌==◌,
  if◌then◌else◌,
}
use whatsapp_api.Base.Int.{pos}
use whatsapp_api.Base.Text.{rstrip_slash}
use whatsapp_api.Base.Exec.{Result, ok, err, Action, ◌>>=◌, ◌>>◌}
use whatsapp_api.Errors.{
  Error, prodaxis, Kind, transport_error, timeout_exception, type_error, out_of_fuel,
}
use whatsapp_api.Json.{
  Json, null, num, str, arr, obj, end, field, Items, get, get_or, truthy, iterate,
}
use whatsapp_api.Models.{Settings}
use whatsapp_api.Utils.Retry.{Policy, with_retry}
use whatsapp_api.Client.Bodies.{text_body, template_body, image_body, document_body, read_body}
use whatsapp_api.Client.Responses.{Outcome, read_outcome}

pub record Request : Type 0 where
  pub method : String
  pub url : String
  pub json : Json
  pub params : Json
  pub authorization : String

pub record Http : Type 1 where
  pub State : Type 0
  pub request : Request → State → Outcome × State
  pub uniform : ℕ → State → ℕ × State
  pub sleep : ℕ → State → State

-- The errors of the tuple `retry_on` that `_request` passes.
unfoldable pub is_transient : Error → Bool
is_transient (prodaxis f) = elim f.kind [ Kind.meta_server ↦ true | _ ↦ false ]
is_transient transport_error = true
is_transient timeout_exception = true
is_transient _ = false

abbrev pub policy : Policy
policy = record { attempts = 3; base_delay = 500; max_delay = 8000; retry_on = is_transient }

-- The attributes that `WhatsAppClient.__init__` sets, but the timeout.
pub record Client : Type 0 where
  pub access_token : String
  pub phone_number_id : String
  pub api_version : String
  pub base_url : String

unfoldable pub make_client : Settings → String → String → Client
make_client settings access_token phone_number_id = record {
  access_token = access_token;
  phone_number_id = phone_number_id;
  api_version = settings.meta_api_version;
  base_url = rstrip_slash settings.meta_api_base_url;
}

abbrev pub root : Client → String
root c = c.base_url <> "/" <> c.api_version

abbrev messages_url : Client → String
messages_url c = root c <> "/" <> c.phone_number_id <> "/messages"

-- What the loop of `get_templates` reads from one page: its templates and the next address.
unfoldable pub read_page : Json → Result (List Json × Json)
read_page data_ = elim (get_or data_ "data" (arr Items.nil)) [
  | err e ↦ err e
  | ok rows ↦ elim (iterate rows) [
    | err e ↦ err e
    | ok found ↦ elim (get_or data_ "paging" (obj end)) [
      | err e ↦ err e
      | ok paging ↦ elim (get paging "next") [ err e ↦ err e | ok next ↦ ok (found, next) ]
    ]
  ]
]

abbrev pub page_result : Result Json → Result (List Json × Json)
page_result (ok page) = read_page page
page_result (err e) = err e

module _ (http : Http) where
  -- `_do`: one HTTP call.
  unfoldable pub call_once : Request → Action http.State Json
  call_once req s = let (o, s') = http.request req s in (read_outcome o, s')

  unfoldable pub request : Client → String → String → Json → Json → Action http.State Json
  request c method url json params = with_retry policy http.uniform http.sleep (
      call_once (record {
        method = method;
        url = url;
        json = json;
        params = params;
        authorization = "Bearer " <> c.access_token;
      }))

  unfoldable pub send_text : Client → String → String → Bool → Action http.State Json
  send_text c to text preview_url =
      request c "POST" (messages_url c) (text_body to text preview_url) null

  unfoldable pub send_template :
      Client → String → String → String → List Json → Action http.State Json
  send_template c to template_name language_code components =
      request c "POST" (messages_url c) (template_body to template_name language_code components)
        null

  send_image : Client → String → String → Option String → Action http.State Json
  send_image c to image_url caption =
      request c "POST" (messages_url c) (image_body to image_url caption) null

  send_document : Client → String → String → String → Option String → Action http.State Json
  send_document c to document_url filename caption =
      request c "POST" (messages_url c) (document_body to document_url filename caption) null

  mark_as_read : Client → String → Action http.State Json
  mark_as_read c wa_message_id = request c "POST" (messages_url c) (read_body wa_message_id) null

  get_phone_number_info : Client → Action http.State Json
  get_phone_number_info c = request c "GET" (root c <> "/" <> c.phone_number_id) null null

  -- The `while True` loop, on fuel: each round is one page.
  unfoldable pub templates_from :
      ℕ → Client → Json → Json → List Json → Action http.State (List Json)
  templates_from zero c url params results s = (err out_of_fuel, s)
  templates_from (suc fuel) c (str url) params results s =
      let (r, s') = request c "GET" url null params s in
      elim (page_result r) [
        | err e ↦ (err e, s')
        | ok (found, next) ↦
            let rest = templates_from fuel c next null (results ++ found) s' in
            if truthy next then rest else (ok (results ++ found), s')
      ]
  templates_from (suc fuel) c _ params results s = (err type_error, s)

  unfoldable pub get_templates : ℕ → Client → String → ℕ → Action http.State (List Json)
  get_templates fuel c waba_id limit =
      templates_from fuel c (str (root c <> "/" <> waba_id <> "/message_templates"))
        (obj (field "limit" (num (pos limit)) end)) []
