-- ===== src/Messages.antt =====
-- services/message_service.py: `MessageService`, with the requests of schemas/message.py. The
-- service works on the session, on Redis and on the HTTP client, which are the three parts of a
-- `World`.
pub mod Components
pub mod Laws
use whatsapp_api.Base.{
  ℕ, ◌+◌, Bool, false, not, String, ◌<>◌, Option, none, some, List, ◌∷◌, ◌++◌, str_eq, select,
  if◌then◌else◌,
}
use whatsapp_api.Base.Exec.{
  Result, ok, err, Action, ◌>>=◌, ◌>>◌, pure, raise, gets, lift, modify, within, or_raise, raise_if,
}
use whatsapp_api.Errors.{Error, plain, coded, value_error, not_found, rate_limit_exceeded}
use whatsapp_api.Json.{Json, null, bool, str, arr, obj, end, field, from_list, item, first}
use whatsapp_api.Models.{Tenant, Message, MessageDirection, MessageStatus, MessageType, Settings}
use whatsapp_api.Store.{Db, one_or_none, get_message, put_message, flush}
use whatsapp_api.Utils.Validators.{ParsedUrl}
use whatsapp_api.Tenants.{Fernet, decrypt, resolve, assert_quota, increment_usage}
use whatsapp_api.Client.{
  Http, Client, make_client, send_text as post_text, send_template as post_template,
}
use whatsapp_api.RateLimiter.{Redis, RateLimiter, acquire}
use whatsapp_api.Webhooks.Events.{add_message}
use whatsapp_api.Messages.Components.{SendTemplateRequest, build_template_components}

-- The phone `to` is normalised already, by the validator of the request.
pub record SendTextRequest : Type 0 where
  pub tenant_id : Option ℕ
  pub to : String
  pub text : String
  pub preview_url : Bool

pub record SendResponse : Type 0 where
  pub message_id : ℕ
  pub wa_message_id : String
  pub status : MessageStatus
  pub to : String

pub record World (redis : Redis) (http : Http) : Type 0 where
  pub db : Db
  pub counters : redis.State
  pub remote : http.State

-- The row that a send adds, before the call.
abbrev pub outbound :
    Tenant → String → MessageType → Json → Option String → Option String → Db → Message
outbound t to type_ content name language s = record {
  id = s.next_id;
  created_at = s.now;
  tenant_id = t.id;
  direction = MessageDirection.outbound;
  wa_message_id = null;
  recipient_phone = str to;
  sender_phone = str t.phone_number_id;
  message_type = type_;
  content = content;
  template_name = name;
  template_language = language;
  status = MessageStatus.queued;
  error_code = null;
  error_message = null;
  meta_pricing = null;
  sent_at = none;
  delivered_at = none;
  read_at = none;
  failed_at = none;
  campaign_recipient_id = none;
}

abbrev pub failed_with : String → ℕ → Message → Message
failed_with text now m = record m {
  status = MessageStatus.failed;
  failed_at = some now;
  error_message = str text;
}

abbrev pub sent_as : Json → ℕ → Message → Message
sent_as wa_id now m = record m {
  wa_message_id = wa_id;
  status = MessageStatus.sent;
  sent_at = some now;
}

-- `response["messages"][0]["id"]`
unfoldable pub response_id : Json → Action Db Json
response_id response = do
  messages ← lift (item response "messages")
  message ← lift (first messages)
  lift (item message "id")

-- The row is stored before the call.
unfoldable pub store_queued : (Db → Message) → Action Db Message
store_queued make = do m ← gets make; modify (add_message m); flush; pure m

-- The `except` around the call: the row is marked as failed, and the error raised again.
unfoldable pub record_failure : (Error → String) → Error → Message → Action Db SendResponse
record_failure describe e m = do
  now ← gets (λ (s : Db). s.now)
  modify (put_message (failed_with (describe e) now m))
  flush
  raise e

-- The field of the response is a text.
unfoldable pub id_text : Json → Result String
id_text (str s) = ok s
id_text _ = err value_error

-- What follows the call's response.
unfoldable pub record_sent : Tenant → String → Message → Json → Action Db SendResponse
record_sent t to m response = do
  wa_id ← response_id response
  now ← gets (λ (s : Db). s.now)
  modify (put_message (sent_as wa_id now m))
  flush
  increment_usage t.id 1
  shown ← lift (id_text wa_id)
  pure (record { message_id = m.id; wa_message_id = shown; status = MessageStatus.sent; to = to })

module _ (redis : Redis) (http : Http) (fernet : Option Fernet) (limiter : RateLimiter)
    (settings : Settings) (describe : Error → String) where
  abbrev in_db : {A : Type 0} → Action Db A → Action (World redis http) A
  in_db m =
      within (λ (w : World redis http). w.db) (λ d (w : World redis http). record w { db = d }) m

  unfoldable pub client_for : Tenant → Client
  client_for t = make_client settings (decrypt fernet t.access_token) t.phone_number_id

  -- `if not await self.rate_limiter.acquire(...): raise`
  unfoldable pub limited : Tenant → String → Action (World redis http) (Unit {0})
  limited t to w =
      let (granted, c) = acquire redis limiter t.phone_number_id to w.counters in
      raise_if (not granted) (plain rate_limit_exceeded) (record w { counters = c })

  -- A call of the client, whose error is caught.
  abbrev pub attempt : Action http.State Json → Action (World redis http) (Result Json)
  attempt m w = let (r, h) = m w.remote in (ok r, record w { remote = h })

  abbrev pub settle :
      Tenant → String → Message → Result Json → Action (World redis http) SendResponse
  settle t to m (ok response) = in_db (record_sent t to m response)
  settle t to m (err e) = in_db (record_failure describe e m)

  abbrev pub text_row : Tenant → SendTextRequest → Db → Message
  text_row t p =
      outbound t p.to MessageType.text
        (obj (field "text" (str p.text) (field "preview_url" (bool p.preview_url) end))) none none

  unfoldable pub send_text : SendTextRequest → Action (World redis http) SendResponse
  send_text p = do
    t ← in_db (resolve settings p.tenant_id)
    in_db (assert_quota t)
    limited t p.to
    m ← in_db (store_queued (text_row t p))
    r ← attempt (post_text http (client_for t) p.to p.text p.preview_url)
    settle t p.to m r

  abbrev template_row : Tenant → SendTemplateRequest → List Json → Db → Message
  template_row t p components =
      outbound t p.to MessageType.template
        (obj (
          field "template_name" (str p.template_name) (
            field "language_code" (str p.language_code)
              (field "components" (arr (from_list components)) end))))
        (some p.template_name) (some p.language_code)

  unfoldable pub send_template :
      (String → ParsedUrl) → SendTemplateRequest → Action (World redis http) SendResponse
  send_template urlparse p = do
    t ← in_db (resolve settings p.tenant_id)
    in_db (assert_quota t)
    limited t p.to
    components ← lift (build_template_components urlparse p)
    m ← in_db (store_queued (template_row t p components))
    r ← attempt (post_template http (client_for t) p.to p.template_name p.language_code components)
    settle t p.to m r

unfoldable pub get : ℕ → Action Db Message
get message_id = do
  found ← gets (get_message message_id)
  or_raise found (coded not_found "Message not found" "message_not_found")

abbrev pub id_is : String → Json → Bool
id_is s (str t) = str_eq t s
id_is s _ = false

unfoldable pub get_by_wa_id : String → Action Db (Option Message)
get_by_wa_id wa_id s =
    (one_or_none (select (λ (m : Message). id_is wa_id m.wa_message_id) s.messages), s)
