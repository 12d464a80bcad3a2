-- ===== src/Webhooks/Processing/Kept.antt =====
-- The handlers of an event keep what their writes keep: the messages that come in, the reports, and
-- the status of a template.
use whatsapp_api.Base.{ℕ, Option, none, some, String}
use whatsapp_api.Base.Exec.{◌>>=◌, gets, modify}
use whatsapp_api.Base.Keeps.{Keeps, Keeps-pure, Keeps-bind, keeps_rules}
use whatsapp_api.Json.{Json, str}
use whatsapp_api.Models.{Tenant, WebhookEvent}
use whatsapp_api.Store.{Db}
use whatsapp_api.Webhooks.Status.{apply_status_update}
use whatsapp_api.Webhooks.Events.{
  save_inbound_message, inbound_message, add_message, handle_messages,
}
use whatsapp_api.Base.{ℕ, Option, none, some, String}
use whatsapp_api.Base.Exec.{modify}
use whatsapp_api.Base.Keeps.{Keeps, Keeps-pure, Keeps-raise, Keeps-bind, keeps_rules}
use whatsapp_api.Json.{Json, str, arr, obj}
use whatsapp_api.Models.{WebhookEvent, Template, TemplateStatus}
use whatsapp_api.Store.{Db}
use whatsapp_api.Webhooks.Processing.{
  set_status, update_found, update_template, template_status, handle_template_update, handle_field,
  handle_change, handle_entry, handle_payload,
}
use whatsapp_api.Webhooks.Kept.{
  Keeps-for_each, Keeps-rows_of, Keeps-metadata_field, Keeps-tenant_for_value, Keeps-find_template,
}

module _ {P : Db → Type 0}
    (came : (t : Tenant) (msg raw wa_id display sender : Json)
      → Keeps P
          (gets (inbound_message t msg raw wa_id display sender) >>= λ m. modify (add_message m)))
    (reported : (status : Json) → Keeps P (apply_status_update status))
    (written : (status : Option TemplateStatus) (t : Template)
      → Keeps P (modify (set_status status t))) where
  Keeps-save : (t : Option Tenant) (value msg : Json) → Keeps P (save_inbound_message t value msg)
  unfolding save_inbound_message
  Keeps-save none value msg = search keeps_rules
  Keeps-save (some t) value msg = search (keeps_rules, Keeps-metadata_field, came) depth 14

  Keeps-handle_messages :
      (event : WebhookEvent) (value : Json) → Keeps P (handle_messages event value)
  unfolding handle_messages
  Keeps-handle_messages event value =
      search
        (keeps_rules, Keeps-tenant_for_value, Keeps-rows_of, Keeps-for_each, Keeps-save, reported)
        depth 14

  Keeps-update_found : (t : Option Template) (raw : String) → Keeps P (update_found t raw)
  unfolding update_found
  Keeps-update_found none raw = Keeps-pure tt
  Keeps-update_found (some t) raw = written (template_status raw) t

  Keeps-update_template :
      (id : Option ℕ) (name language : Json) (raw : String)
      → Keeps P (update_template id name language raw)
  unfolding update_template
  Keeps-update_template none name language raw = Keeps-pure tt
  Keeps-update_template (some id) name language raw =
      search (keeps_rules, Keeps-find_template, Keeps-update_found) depth 12

  Keeps-template_update :
      (event : WebhookEvent) (value : Json) → Keeps P (handle_template_update event value)
  unfolding handle_template_update
  Keeps-template_update event value = search (keeps_rules, Keeps-update_template) depth 20

  Keeps-handle_field :
      (event : WebhookEvent) (field value : Json) → Keeps P (handle_field event field value)
  unfolding handle_field
  Keeps-handle_field event (str field) value =
      search (keeps_rules, Keeps-handle_messages, Keeps-template_update)
  Keeps-handle_field event (arr _) value = Keeps-raise _
  Keeps-handle_field event (obj _) value = Keeps-raise _
  Keeps-handle_field event _ value = Keeps-pure tt

  Keeps-handle_change :
      (event : WebhookEvent) (change : Json) → Keeps P (handle_change event change)
  unfolding handle_change
  Keeps-handle_change event change = search (keeps_rules, Keeps-handle_field)

  Keeps-handle_entry : (event : WebhookEvent) (entry : Json) → Keeps P (handle_entry event entry)
  unfolding handle_entry
  Keeps-handle_entry event entry =
      Keeps-bind _ _ (Keeps-rows_of entry "changes") (Keeps-for_each _ (Keeps-handle_change event))

  pub Keeps-handle_payload : (event : WebhookEvent) → Keeps P (handle_payload event)
  unfolding handle_payload
  Keeps-handle_payload event =
      Keeps-bind _ _ (Keeps-rows_of event.payload "entry")
        (Keeps-for_each _ (Keeps-handle_entry event))
