-- ===== src/System/Deliveries.antt =====
-- The task that sends to a recipient, and the phones.
use whatsapp_api.Base.{ℕ, refl, String, Option, none, some, ◌==◌}
use whatsapp_api.Base.Exec.{Result, ok, err, modify}
use whatsapp_api.Base.Keeps.{
  Keeps, Keeps-pure, Keeps-raise, Keeps-if, Keeps-from, Yields, keeps_rules, yields_rules,
}
use whatsapp_api.Errors.{Error}
use whatsapp_api.Json.{Json}
use whatsapp_api.Models.{Campaign, CampaignRecipient, Message, Settings, Tenant}
use whatsapp_api.Store.{Db, get_recipient, get_campaign, put_campaign, put_recipient, put_message}
use whatsapp_api.Store.Kept.{Keeps-session_scope}
use whatsapp_api.Tenants.{Fernet}
use whatsapp_api.Client.{Http}
use whatsapp_api.RateLimiter.{Redis, RateLimiter}
use whatsapp_api.Messages.{failed_with, sent_as}
use whatsapp_api.Api.{world_view, world_put}
use whatsapp_api.Tasks.Delivery.{
  refusal, one_failed, one_sent, recipient_failed, recipient_sent, write_failed, write_sent,
  settle_failed, settle_sent, settle_error, settle_answer, mark_started, call_meta, send_marked,
  send_unsent, send_for, send_found, send_recipient, is_unsent,
}
use whatsapp_api.Store.Rows.{Found, Found-find}
use whatsapp_api.System.Dialable.{
  Dialable-same, Dialable, Dials, HasPhone, Keeps-flush, Keeps-put_message, Keeps-put_recipient,
}
use whatsapp_api.Tenants.Kept.{Keeps-get}
use whatsapp_api.System.Access.{Keeps-increment_usage}
use whatsapp_api.System.Sends.{
  OnDb, Keeps-within_db, Yields-within_db, Keeps-limited, Keeps-attempt, Keeps-stored,
  Keeps-response_id,
}

put_campaign-Dialable : (c : Campaign) (s : Db) → Dialable s → Dialable (put_campaign c s)
put_campaign-Dialable c s h = Dialable-same refl refl refl h

-- The three rows of a delivery are written back with their phones.
Keeps-write :
    (make : Db → Campaign × CampaignRecipient × Message)
    → ((s : Db) → HasPhone (make s).1)
    → ((s : Db) → Dials (make s).2)
    → Keeps Dialable (
        modify (λ s. put_campaign (make s).0 (put_recipient (make s).1 (put_message (make s).2 s))))
Keeps-write make r m = record {
  at = λ s h.
      put_campaign-Dialable (make s).0 _
        ((Keeps-put_recipient (make s).1 (r s)).at _ ((Keeps-put_message (make s).2 (m s)).at s h));
}

module _ (c : Campaign) (r : CampaignRecipient) (phone : HasPhone r) (m : Message)
    (d : Dials m) where
  Keeps-write_failed : (text : String) → Keeps Dialable (modify (write_failed text c r m))
  Keeps-write_failed text =
      Keeps-write (λ s. (one_failed c, recipient_failed text s.now r, failed_with text s.now m))
        (λ _. phone) (λ _. d)

  Keeps-write_sent : (wa_id : Json) → Keeps Dialable (modify (write_sent wa_id c r m))
  Keeps-write_sent wa_id =
      Keeps-write (λ s. (one_sent c, recipient_sent wa_id r, sent_as wa_id s.now m)) (λ _. phone)
        (λ _. d)

  Keeps-settle_failed : (text : String) → Keeps Dialable (settle_failed text c r m)
  unfolding settle_failed
  Keeps-settle_failed text = search (keeps_rules, Keeps-write_failed, Keeps-flush)

  Keeps-settle_error : (o : Option String) (e : Error) → Keeps Dialable (settle_error o e c r m)
  unfolding settle_error
  Keeps-settle_error none e = Keeps-raise e
  Keeps-settle_error (some text) e = Keeps-settle_failed text

  Keeps-settle_answer :
      (t : Tenant) (answer : Result Json) → Keeps Dialable (settle_answer t c r m answer)
  unfolding settle_answer settle_sent
  Keeps-settle_answer t (ok response) =
      search (keeps_rules, Keeps-response_id, Keeps-write_sent, Keeps-increment_usage, Keeps-flush)
        depth 14
  Keeps-settle_answer t (err e) = Keeps-settle_error (refusal e) e

-- A recipient that a delivery starts on keeps its phone.
Yields-mark_started :
    (r : CampaignRecipient) → HasPhone r → Yields Dialable HasPhone (mark_started r)
unfolding mark_started
Yields-mark_started r phone =
    search (keeps_rules, yields_rules, Keeps-put_recipient, Keeps-flush) depth 12

module _ (redis : Redis) (http : Http) (fernet : Option Fernet) (limiter : RateLimiter)
    (settings : Settings) (describe : Error → String) where
  Keeps-call_meta :
      (t : Tenant) (c : Campaign) (q : CampaignRecipient) (m : Message)
      → HasPhone q
      → Dials m
      → Keeps (OnDb redis http) (call_meta redis http fernet limiter settings describe t c q m)
  unfolding call_meta
  Keeps-call_meta t c q m phone d =
      search (keeps_rules, Keeps-within_db, Keeps-attempt, Keeps-settle_answer)

  Keeps-send_marked :
      (q : CampaignRecipient) (c : Campaign)
      → HasPhone q
      → Keeps (OnDb redis http) (send_marked redis http fernet limiter settings describe q c)
  unfolding send_marked
  Keeps-send_marked q c phone =
      search (keeps_rules, Keeps-within_db, Keeps-get, Keeps-limited, Keeps-stored, Keeps-call_meta)
        depth 14

  Keeps-send_for :
      (r : CampaignRecipient) (c : Option Campaign)
      → HasPhone r
      → Keeps (OnDb redis http) (send_for redis http fernet limiter settings describe r c)
  unfolding send_for send_unsent
  Keeps-send_for r none phone = Keeps-pure _
  Keeps-send_for r (some c) phone =
      Keeps-if (is_unsent r.status) _ _
        (Keeps-from HasPhone _ _
          (Yields-within_db redis http HasPhone _ (Yields-mark_started r phone))
          (λ q k. Keeps-send_marked q c k))
        (Keeps-pure _)

  Keeps-send_found :
      (o : Option CampaignRecipient)
      → Found HasPhone o
      → Keeps (OnDb redis http) (send_found redis http fernet limiter settings describe o)
  unfolding send_found
  Keeps-send_found none f = record { at = λ w h. h }
  Keeps-send_found (some r) f = record {
    at = λ w h. (Keeps-send_for r (get_campaign r.campaign_id w.db) f).at w h;
  }

  pub Keeps-send_recipient :
      (k : ℕ)
      → Keeps (OnDb redis http) (send_recipient redis http fernet limiter settings describe k)
  unfolding send_recipient
  Keeps-send_recipient k =
      Keeps-session_scope Dialable (world_view redis http) (world_put redis http) (λ _ _. refl)
        Keeps-flush _
        (record {
          at = λ w h.
              (Keeps-send_found (get_recipient k w.db) (
                  Found-find HasPhone (λ (r : CampaignRecipient). r.id == k) w.db.recipients
                    h.of_recipients)).at
                w h;
        })
