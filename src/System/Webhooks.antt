-- ===== src/System/Webhooks.antt =====
-- The webhooks leave every phone in E.164: what they add is inbound, and a report keeps the phone of
-- its message and of its recipient.
use whatsapp_api.Base.{◌≡◌, true, ℕ, refl, Option, none, some, [], ◌∷◌, String, ◌==◌, arith}
use whatsapp_api.Base.Exec.{◌>>=◌, gets, modify}
use whatsapp_api.Base.Keeps.{
  Keeps, Keeps-pure, Keeps-modify, keeps_rules, Yields, Yields-raise, Yields-query,
}
use whatsapp_api.Json.{Json, str}
use whatsapp_api.Models.{
  CampaignRecipient, CampaignRecipientStatus, Campaign, MessageStatus, Tenant, WebhookEvent,
}
use whatsapp_api.Store.{Db, get_recipient, get_campaign}
use whatsapp_api.Webhooks.Status.{
  find_by_wa_id, propagate, propagate_campaign_status, propagate_to, roll_up, recipient_status,
  advanced,
}
use whatsapp_api.Webhooks.Events.{inbound_message, add_message}
use whatsapp_api.Store.Rows.{Found, Found-find, Found-one}
use whatsapp_api.System.Dialable.{
  Dialable-same, Keeps-add_message, Dialable, Dials, HasPhone, Keeps-put_message,
  Keeps-put_recipient,
}
use whatsapp_api.Base.{ℕ, Option, none, some, [], ◌∷◌, ◌++◌, ◌+◌, String}
use whatsapp_api.Base.Exec.{Result, pure, modify}
use whatsapp_api.Base.Keeps.{Keeps, Keeps-pure, Keeps-if, Keeps-modify, keeps_rules}
use whatsapp_api.Errors.{Error}
use whatsapp_api.Json.{Json, str}
use whatsapp_api.Models.{WebhookEvent, Template, TemplateStatus}
use whatsapp_api.Store.{Db, put_event, get_event}
use whatsapp_api.Webhooks.Events.{store_raw_event}
use whatsapp_api.Webhooks.Processing.{
  set_status, handle_payload, concluded, process_new, process_found, process_event, process_and_log,
  receive_webhook,
}
use whatsapp_api.System.Dialable.{Dialable, Keeps-flush}
use whatsapp_api.Webhooks.Kept.{Keeps-infer_tenant_id}
use whatsapp_api.Webhooks.Status.Kept.{Keeps-apply_status_update}
use whatsapp_api.Webhooks.Processing.Kept.{Keeps-handle_payload}
use whatsapp_api.System.Dialable.{dials_as}

-- A message that came in.
Keeps-add_inbound :
    (t : Tenant) (msg raw wa_id display sender : Json)
    → Keeps Dialable
        (gets (inbound_message t msg raw wa_id display sender) >>= λ m. modify (add_message m))
Keeps-add_inbound t msg raw wa_id display sender = record {
  at = λ s h. (Keeps-add_message (inbound_message t msg raw wa_id display sender s) refl).at s h;
}

propagate-Dialable :
    (id : Option ℕ) (new : MessageStatus) (s : Db) → Dialable s → Dialable (propagate id new s)
unfolding propagate_campaign_status
propagate-Dialable none new s h = h
propagate-Dialable (some id) new s h =
    to (get_recipient id s) (recipient_status new)
      (Found-find HasPhone (λ (r : CampaignRecipient). r.id == id) s.recipients h.of_recipients)
  where
    rolled :
        (old n : CampaignRecipientStatus) (c : Option Campaign) (u : Db)
        → Dialable u
        → Dialable (roll_up old n new c u)
    rolled old n none u k = k
    rolled old n (some c) u k = Dialable-same refl refl refl k

    moved :
        (n : CampaignRecipientStatus) (r : CampaignRecipient)
        → HasPhone r
        → HasPhone (advanced s.now n new r)
    moved n r k = ground arith

    to :
        (r : Option CampaignRecipient) (n : Option CampaignRecipientStatus)
        → Found HasPhone r
        → Dialable (propagate_to r n new s)
    to none n k = h
    to (some r) none k = h
    to (some r) (some n) k =
        rolled r.status n (get_campaign r.campaign_id s) _
          ((Keeps-put_recipient (advanced s.now n new r) (moved n r k)).at s h)

Keeps-propagate : (id : Option ℕ) (new : MessageStatus) → Keeps Dialable (modify (propagate id new))
Keeps-propagate id new = Keeps-modify _ (propagate-Dialable id new)

Yields-find : (wa_id : Json) → Yields Dialable (Found Dials) (find_by_wa_id wa_id)
unfolding find_by_wa_id
Yields-find (str wa_id) =
    Yields-query _ (λ s h m found. Found-one Dials _ s.messages h.of_messages m found)
Yields-find _ = Yields-raise _

Keeps-set_status :
    (status : Option TemplateStatus) (t : Template) → Keeps Dialable (modify (set_status status t))
Keeps-set_status none t = record { at = λ s h. h }
Keeps-set_status (some status) t = record { at = λ s h. Dialable-same refl refl refl h }

payload-Dialable : (event : WebhookEvent) → Keeps Dialable (handle_payload event)
payload-Dialable =
    Keeps-handle_payload Keeps-add_inbound
      (Keeps-apply_status_update (λ direction phone. dials_as direction phone ≡ true)
        Keeps-put_message Yields-find Keeps-propagate)
      Keeps-set_status

Keeps-add_event :
    (e : WebhookEvent)
    → Keeps Dialable
        (modify (λ (s : Db). record s { events = s.events ++ (e ∷ []); next_id = s.next_id + 1 }))
Keeps-add_event e = record { at = λ s h. Dialable-same refl refl refl h }

Keeps-store_raw_event :
    (payload event_type : Json) → Keeps Dialable (store_raw_event payload event_type)
unfolding store_raw_event
Keeps-store_raw_event payload event_type =
    search (keeps_rules, Keeps-infer_tenant_id, Keeps-add_event, Keeps-flush) depth 14

put_event-Dialable : (e : WebhookEvent) (s : Db) → Dialable s → Dialable (put_event e s)
put_event-Dialable e s h = Dialable-same refl refl refl h

module _ (describe : Error → String) where
  Keeps-process_found : (e : Option WebhookEvent) → Keeps Dialable (process_found describe e)
  unfolding process_found process_new
  Keeps-process_found none = Keeps-pure tt
  Keeps-process_found (some event) = Keeps-if event.processed (pure tt) _ (Keeps-pure tt) (record {
    at = λ s h.
        let (r, u) = handle_payload event s in
        Keeps-flush.at _ (
          put_event-Dialable (concluded describe r u.now event) u
            ((payload-Dialable event).at s h));
  })

  pub Keeps-process_event : (event_id : ℕ) → Keeps Dialable (process_event describe event_id)
  unfolding process_event
  Keeps-process_event event_id = record {
    at = λ s h. (Keeps-process_found (get_event event_id s)).at s h;
  }

  Keeps-process_and_log : (event_id : ℕ) → Keeps Dialable (process_and_log describe event_id)
  unfolding process_and_log
  Keeps-process_and_log event_id = record { at = (Keeps-process_event event_id).at }

  pub Keeps-receive_webhook :
      (digest : String → String) (body : String) (header : Option String) (json : Result Json)
      → Keeps Dialable (receive_webhook describe digest body header json)
  unfolding receive_webhook
  Keeps-receive_webhook digest body header json =
      search (keeps_rules, Keeps-flush, Keeps-process_and_log, Keeps-store_raw_event) depth 20
