-- ===== src/Webhooks/Events.antt =====
-- `WebhookService`: storing and processing of events, and the endpoint of api/v1/webhooks.py.
-- `str(exc)` is the parameter `describe`.
use whatsapp_api.Base.{
  ℕ, ◌+◌, false, String, Option, none, some, List, [], ◌∷◌, ◌++◌, if◌then◌else◌,
}
use whatsapp_api.Base.Exec.{Result, ok, err, Action, ◌>>=◌, ◌>>◌, pure, gets, lift, modify}
use whatsapp_api.Json.{
  Json, null, str, arr, obj, Items, end, get, get_or, truthy, or_else, iterate, first, to_str,
}
use whatsapp_api.Models.{
  Tenant, Message, MessageDirection, MessageStatus, MessageType, message_type, WebhookEvent,
}
use whatsapp_api.Store.{Db, get_tenant, flush}
use whatsapp_api.Tenants.{get_by_phone_number_id, get_by_waba_id}
use whatsapp_api.Webhooks.Status.{apply_status_update}

abbrev empty_list : Json
empty_list = arr Items.nil

abbrev pub empty_dict : Json
empty_dict = obj end

-- `(value.get("metadata") or {}).get(k)`
unfoldable pub metadata_field : Json → String → Action Db Json
metadata_field value k = do
  metadata ← lift (get value "metadata")
  lift (get (or_else metadata empty_dict) k)

abbrev tenant_id_of : Option Tenant → Option ℕ
tenant_id_of none = none
tenant_id_of (some t) = some t.id

abbrev pub or_next : Option ℕ → Action Db (Option ℕ) → Action Db (Option ℕ)
or_next (some id) rest = pure (some id)
or_next none rest = rest

-- The tenant of a phone number id or of a business account id, if the payload has one.
unfoldable pub tenant_by_phone : Json → Action Db (Option ℕ)
tenant_by_phone phone_id =
    let found = get_by_phone_number_id (to_str phone_id) >>= (λ t. pure (tenant_id_of t)) in
    if truthy phone_id then found else pure none

unfoldable pub tenant_by_waba : Json → Action Db (Option ℕ)
tenant_by_waba waba_id =
    let found = get_by_waba_id (to_str waba_id) >>= (λ t. pure (tenant_id_of t)) in
    if truthy waba_id then found else pure none

-- The loop over the changes of the first entry.
unfoldable pub infer_from_changes : List Json → Action Db (Option ℕ)
infer_from_changes [] = pure none
infer_from_changes (change ∷ changes) = do
  value ← lift (get change "value")
  phone_id ← metadata_field (or_else value empty_dict) "phone_number_id"
  found ← tenant_by_phone phone_id
  or_next found (infer_from_changes changes)

unfoldable pub infer_from_entry : Json → Action Db (Option ℕ)
infer_from_entry entry = do
  waba_id ← lift (get entry "id")
  by_waba ← tenant_by_waba waba_id
  or_next by_waba (do
    changes ← lift (get entry "changes")
    rows ← lift (iterate (or_else changes empty_list))
    infer_from_changes rows)

-- The `try` block of `_infer_tenant_id`.
unfoldable pub infer_body : Json → Action Db (Option ℕ)
infer_body payload = do
  entries ← lift (get_or payload "entry" empty_list)
  let inferred = lift (first (or_else entries empty_list)) >>= infer_from_entry
  if truthy entries then inferred else pure none

abbrev none_on_error : Result (Option ℕ) → Option ℕ
none_on_error (ok t) = t
none_on_error (err e) = none

unfoldable pub infer_tenant_id : Json → Action Db (Option ℕ)
infer_tenant_id payload s = let (r, s') = infer_body payload s in (ok (none_on_error r), s')

abbrev new_event : Option ℕ → Json → Json → Db → WebhookEvent
new_event tenant_id event_type payload s = record {
  id = s.next_id;
  tenant_id = tenant_id;
  event_type = event_type;
  payload = payload;
  processed = false;
  processed_at = none;
  error = none;
}

unfoldable pub store_raw_event : Json → Json → Action Db WebhookEvent
store_raw_event payload event_type = do
  tenant_id ← infer_tenant_id payload
  event ← gets (new_event tenant_id event_type payload)
  modify (λ (s : Db). record s { events = s.events ++ (event ∷ []); next_id = s.next_id + 1 })
  flush
  pure event

abbrev fallback : Option ℕ → Db → Option Tenant
fallback none s = none
fallback (some id) s = get_tenant id s

abbrev pub or_fallback : Option Tenant → Option ℕ → Action Db (Option Tenant)
or_fallback (some t) id = pure (some t)
or_fallback none id = gets (fallback id)

unfoldable pub tenant_for_value : Json → Option ℕ → Action Db (Option Tenant)
tenant_for_value value fallback_tenant_id = do
  phone_id ← metadata_field value "phone_number_id"
  let found = get_by_phone_number_id (to_str phone_id)
  tenant ← (if truthy phone_id then found else pure none)
  or_fallback tenant fallback_tenant_id

-- `MessageType(raw)`, or `unsupported` for its `ValueError`.
unfoldable pub inbound_type : Json → MessageType
inbound_type (str s) = elim (message_type s) [ some t ↦ t | none ↦ MessageType.unsupported ]
inbound_type _ = MessageType.unsupported

abbrev pub inbound_message : Tenant → Json → Json → Json → Json → Json → Db → Message
inbound_message tenant msg raw wa_id display sender s = record {
  id = s.next_id;
  created_at = s.now;
  tenant_id = tenant.id;
  direction = MessageDirection.inbound;
  wa_message_id = wa_id;
  recipient_phone = or_else (or_else display (str "")) (str tenant.phone_number_id);
  sender_phone = sender;
  message_type = inbound_type raw;
  content = msg;
  template_name = none;
  template_language = none;
  status = MessageStatus.delivered;
  error_code = null;
  error_message = null;
  meta_pricing = null;
  sent_at = none;
  delivered_at = none;
  read_at = none;
  failed_at = none;
  campaign_recipient_id = none;
}

-- `session.add(record)`: not flushed yet.
abbrev pub add_message : Message → Db → Db
add_message m s = record s { pending = s.pending ++ (m ∷ []); next_id = s.next_id + 1 }

unfoldable pub save_inbound_message : Option Tenant → Json → Json → Action Db (Unit {0})
save_inbound_message none value msg = lift (get msg "from") >>= (λ _. pure tt)
save_inbound_message (some tenant) value msg = do
  raw ← lift (get_or msg "type" (str "unsupported"))
  display ← metadata_field value "display_phone_number"
  wa_id ← lift (get msg "id")
  sender ← lift (get_or msg "from" (str ""))
  record_ ← gets (inbound_message tenant msg raw wa_id display sender)
  modify (add_message record_)

-- `for x in xs: f(x)`
abbrev pub for_each : (Json → Action Db (Unit {0})) → List Json → Action Db (Unit {0})
for_each f [] = pure tt
for_each f (x ∷ xs) = f x >> for_each f xs

-- `value.get(k, []) or []`, as the list that a loop runs over.
unfoldable pub rows_of : Json → String → Action Db (List Json)
rows_of value k = do
  found ← lift (get_or value k empty_list)
  lift (iterate (or_else found empty_list))

unfoldable pub handle_messages : WebhookEvent → Json → Action Db (Unit {0})
handle_messages event value = do
  tenant ← tenant_for_value value event.tenant_id
  messages ← rows_of value "messages"
  for_each (save_inbound_message tenant value) messages
  statuses ← rows_of value "statuses"
  for_each apply_status_update statuses
