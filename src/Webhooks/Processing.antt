-- ===== src/Webhooks/Processing.antt =====
-- `WebhookService.process_event` and `_handle_template_update`, and the endpoint `receive_webhook`
-- of api/v1/webhooks.py. `str(exc)` is the parameter `describe`.
pub mod Kept
pub mod Frame
pub mod Laws
use whatsapp_api.Base.{
  ℕ, ◌≡◌, Bool, true, not, ◌&&◌, ◌||◌, String, Option, none, some, ◌∷◌, select, str_eq, ◌==◌,
  if◌then◌else◌,
}
use whatsapp_api.Base.Text.{lower_eq, is_empty}
use whatsapp_api.Base.Exec.{Result, ok, err, Action, ◌>>=◌, ◌>>◌, pure, raise, lift, modify}
use whatsapp_api.Errors.{Error, type_error, attribute_error}
use whatsapp_api.Json.{Json, str, arr, obj, get, get_or, truthy, or_else}
use whatsapp_api.Models.{WebhookEvent, Template, TemplateStatus}
use whatsapp_api.Store.{Db, one_or_none, get_event, put_event, put_template, flush}
use whatsapp_api.Webhooks.Signature.{assert_signature}
use whatsapp_api.Webhooks.Events.{empty_dict, rows_of, for_each, handle_messages, store_raw_event}

-- `(a or b or "").upper()`, before the case is changed: only a text has the method.
unfoldable pub status_text : Json → Json → Result String
status_text a b = elim (or_else (or_else a b) (str "")) [ str s ↦ ok s | _ ↦ err attribute_error ]

-- `TemplateStatus(raw.lower())`
unfoldable pub template_status : String → Option TemplateStatus
template_status s =
    if lower_eq s "approved"
    then some TemplateStatus.approved
    else if lower_eq s "pending"
    then some TemplateStatus.pending
    else if lower_eq s "rejected"
    then some TemplateStatus.rejected
    else if lower_eq s "paused"
    then some TemplateStatus.paused
    else if lower_eq s "disabled"
    then some TemplateStatus.disabled
    else none

abbrev has_key : ℕ → String → String → Template → Bool
has_key tenant_id name language t =
    t.tenant_id == tenant_id && str_eq t.name name && str_eq t.language language

-- The query by tenant, name and language, where the payload's values must be texts.
unfoldable pub find_template : ℕ → Json → Json → Action Db (Option Template)
find_template tenant_id (str name) (str language) s =
    (one_or_none (select (has_key tenant_id name language) s.templates), s)
find_template tenant_id name language s = (err type_error, s)

abbrev pub set_status : Option TemplateStatus → Template → Db → Db
set_status none t s = s
set_status (some status) t s = put_template (record t { status = status }) s

unfoldable pub update_found : Option Template → String → Action Db (Unit {0})
update_found none raw = pure tt
update_found (some t) raw = modify (set_status (template_status raw) t)

unfoldable pub update_template : Option ℕ → Json → Json → String → Action Db (Unit {0})
update_template none name language raw = pure tt
update_template (some tenant_id) name language raw =
    let update = find_template tenant_id name language >>= (λ t. update_found t raw) in
    if truthy name && not (is_empty raw) then update else pure tt

unfoldable pub handle_template_update : WebhookEvent → Json → Action Db (Unit {0})
handle_template_update event value = do
  long_name ← lift (get value "message_template_name")
  short_name ← lift (get value "name")
  long_language ← lift (get value "message_template_language")
  short_language ← lift (get value "language")
  event_name ← lift (get value "event")
  status ← lift (get value "status")
  raw ← lift (status_text event_name status)
  let language = or_else (or_else long_language short_language) (str "en_US")
  update_template event.tenant_id (or_else long_name short_name) language raw

-- The dispatch on the field of a change. A list or a dict cannot be hashed for the test of
-- membership.
unfoldable pub handle_field : WebhookEvent → Json → Json → Action Db (Unit {0})
handle_field event (str field) value =
    if str_eq field "messages"
    then handle_messages event value
    else if str_eq field "message_template_status_update" || str_eq field "template_category_update"
    then handle_template_update event value
    else pure tt
handle_field event (arr _) value = raise type_error
handle_field event (obj _) value = raise type_error
handle_field event _ value = pure tt

unfoldable pub handle_change : WebhookEvent → Json → Action Db (Unit {0})
handle_change event change = do
  field ← lift (get change "field")
  value ← lift (get_or change "value" empty_dict)
  handle_field event field (or_else value empty_dict)

unfoldable pub handle_entry : WebhookEvent → Json → Action Db (Unit {0})
handle_entry event entry = rows_of entry "changes" >>= for_each (handle_change event)

unfoldable pub handle_payload : WebhookEvent → Action Db (Unit {0})
handle_payload event = rows_of event.payload "entry" >>= for_each (handle_entry event)

module _ (describe : Error → String) where
  -- The attributes that the end of the `try` or its handler assigns.
  unfoldable pub concluded : Result (Unit {0}) → ℕ → WebhookEvent → WebhookEvent
  concluded (ok _) now event = record event {
    processed = true;
    processed_at = some now;
    error = none;
  }
  concluded (err e) now event = record event { error = some (describe e) }

  -- The `finally` flushes whatever the handlers left.
  unfoldable pub process_new : WebhookEvent → Action Db (Unit {0})
  unfolding handle_payload
  process_new event s =
      let (r, u) = handle_payload event s in flush (put_event (concluded r u.now event) u)

  unfoldable pub process_found : Option WebhookEvent → Action Db (Unit {0})
  process_found none = pure tt
  process_found (some event) =
      let process = process_new event in if event.processed then pure tt else process

  unfoldable pub process_event : ℕ → Action Db (Unit {0})
  process_event event_id s = process_found (get_event event_id s) s

  -- The `except` of the endpoint around the processing.
  unfoldable pub process_and_log : ℕ → Action Db (Unit {0})
  process_and_log event_id s = let (r, u) = process_event event_id s in (ok tt, u)

  -- The endpoint, with the body as the digest reads it and as `request.json()` does. The commit is
  -- the flush that it starts with; the response is the event's id.
  unfoldable pub receive_webhook :
      (String → String) → String → Option String → Result Json → Action Db ℕ
  receive_webhook digest body header json = do
    lift (assert_signature digest body header)
    payload ← lift json
    object_type ← lift (get_or payload "object" (str "messages"))
    event ← store_raw_event payload object_type
    flush
    process_and_log event.id
    flush
    pure event.id
