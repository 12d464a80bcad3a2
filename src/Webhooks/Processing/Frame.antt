-- ===== src/Webhooks/Processing/Frame.antt =====
-- What the handlers of a webhook leave alone.
use whatsapp_api.Base.{ℕ, ◌≡◌, refl, ◌∙◌, Option, none, some, List}
use whatsapp_api.Base.Exec.{modify}
use whatsapp_api.Json.{Json, str}
use whatsapp_api.Models.{
  Campaign, CampaignRecipient, CampaignRecipientStatus, Tenant, Message, WebhookEvent, ApiKey,
  MessageStatus, Template, TemplateStatus,
}
use whatsapp_api.Store.{Db, get_recipient, get_campaign}
use whatsapp_api.Webhooks.Status.{
  find_by_wa_id, propagate, propagate_campaign_status, propagate_to, roll_up, recipient_status,
}
use whatsapp_api.Webhooks.Processing.{set_status, handle_payload}
use whatsapp_api.Base.Keeps.{Keeps, Yields, Yields-query, Yields-raise}
use whatsapp_api.Store.Rows.{Found}
use whatsapp_api.Webhooks.Status.Kept.{Keeps-apply_status_update}
use whatsapp_api.Webhooks.Processing.Kept.{Keeps-handle_payload}

-- The tables that the handlers have no business with.
abbrev pub Untouched : Type 0
Untouched = List WebhookEvent × List Tenant × List ApiKey

abbrev untouched : Db → Untouched
untouched s = (s.events, s.tenants, s.api_keys)

propagate_keeps :
    (id : Option ℕ) (new : MessageStatus) (s : Db) → untouched (propagate id new s) ≡ untouched s
unfolding propagate_campaign_status
propagate_keeps none new s = refl
propagate_keeps (some id) new s = to (get_recipient id s) (recipient_status new)
  where
    rolled :
        (old n : CampaignRecipientStatus) (c : Option Campaign) (u : Db)
        → untouched (roll_up old n new c u) ≡ untouched u
    rolled old n none u = refl
    rolled old n (some c) u = refl

    to :
        (r : Option CampaignRecipient) (n : Option CampaignRecipientStatus)
        → untouched (propagate_to r n new s) ≡ untouched s
    to none n = refl
    to (some r) none = refl
    to (some r) (some n) = rolled r.status n (get_campaign r.campaign_id s) _

module _ (before : Untouched) where
  abbrev Same : Db → Type 0
  Same s = untouched s ≡ before

  found : (wa_id : Json) → Yields Same (Found (λ (m : Message). Unit)) (find_by_wa_id wa_id)
  unfolding find_by_wa_id
  found (str wa_id) = Yields-query _ (λ s h o e. any o)
    where
      any : (o : Option Message) → Found (λ (m : Message). Unit) o
      any none = tt
      any (some m) = tt
  found _ = Yields-raise _

  written :
      (status : Option TemplateStatus) (t : Template) → Keeps Same (modify (set_status status t))
  written none t = record { at = λ s h. h }
  written (some status) t = record { at = λ s h. h }

  Keeps-payload : (event : WebhookEvent) → Keeps Same (handle_payload event)
  Keeps-payload =
      Keeps-handle_payload (λ t msg raw wa_id display sender. record { at = λ s h. h })
        (Keeps-apply_status_update (λ _ _. Unit) (λ m _. record { at = λ s h. h }) found
          (λ id new. record { at = λ s h. propagate_keeps id new s ∙ h }))
        written

-- No payload makes the handlers touch the stored events, the tenants or the API keys, whether they
-- return or raise.
pub handle_payload-untouched :
    (event : WebhookEvent) (s : Db) → untouched ((handle_payload event s).1) ≡ untouched s
handle_payload-untouched event s = (Keeps-payload (untouched s) event).at s refl
