-- ===== src/Tasks/Delivery/Outcome.antt =====
-- A delivery of `send_recipient` by what it leaves in the tables of campaigns and recipients,
-- whatever the state it starts in, and a delivery after it.
use whatsapp_api.Base.{
  ℕ, ◌≡◌, refl, ◌⊎◌, inl, inr, Bool, true, false, Option, none, some, String, ◌∙◌, ap,
  if◌then◌else◌,
}
use whatsapp_api.Base.Exec.{Result, ok, err, lift, pure, raise, modify, ◌>>=◌, ◌>>◌}
use whatsapp_api.Base.Ensures.{Ensures, Ensures-bind, Ensures-map}
use whatsapp_api.Errors.{Error, plain, tenant_not_found}
use whatsapp_api.Json.{Json, item, first}
use whatsapp_api.Models.{Tenant, Campaign, CampaignRecipient, CampaignRecipientStatus, Message}
use whatsapp_api.Store.{Db, get_tenant, replace, flush}
use whatsapp_api.Store.Laws.{IsClean, SameWork, flush-Ensures}
use whatsapp_api.Tenants.{get, live_or_missing, is_live, increment_usage, used}
use whatsapp_api.Messages.{store_queued, response_id}
use whatsapp_api.Webhooks.Events.{add_message}
use whatsapp_api.Tasks.Delivery.{
  write_failed, write_sent, refusal, settle_answer, settle_error, settle_failed, settle_sent,
  one_sent, one_failed, recipient_sent, recipient_failed,
}

pub SameWork-refl : (s : Db) → SameWork s s
SameWork-refl s = record { recipients_eq = refl; campaigns_eq = refl }

pub SameWork-trans : (s u v : Db) → SameWork s u → SameWork u v → SameWork s v
SameWork-trans s u v h k = record {
  recipients_eq = k.recipients_eq ∙ h.recipients_eq;
  campaigns_eq = k.campaigns_eq ∙ h.campaigns_eq;
}

-- The row and its campaign as a delivery with an answer leaves them, from those before it.
pub record Concluded (r : CampaignRecipient) (c : Campaign) (s u : Db) : Type 0 where
  pub row : CampaignRecipient
  pub campaign : Campaign
  pub same_id : row.id ≡ r.id
  pub same_campaign : row.campaign_id ≡ r.campaign_id
  pub outcome :
      ((row.status ≡ CampaignRecipientStatus.sent) × (campaign ≡ one_sent c))
      ⊎ ((row.status ≡ CampaignRecipientStatus.failed) × (campaign ≡ one_failed c))
  pub recipients_eq : u.recipients ≡ replace (λ (x : CampaignRecipient). x.id) row s.recipients
  pub campaigns_eq : u.campaigns ≡ replace (λ (x : Campaign). x.id) campaign s.campaigns

used_same : (o : Option Tenant) (n : ℕ) (s : Db) → SameWork s (used o n s)
used_same none n s = SameWork-refl s
used_same (some t) n s = record { recipients_eq = refl; campaigns_eq = refl }

pub flush_same : (s u : Db) → SameWork s u → Ensures (λ _ v. SameWork s v) (flush u)
flush_same s u h =
    Ensures-map (λ _ v. IsClean v × SameWork u v) (λ _ v. SameWork s v) (flush u) (flush-Ensures u)
      (λ _ v k. SameWork-trans s u v h k.1)

pub store_same :
    (make : Db → Message) (s : Db) → Ensures (λ _ u. SameWork s u) (store_queued make s)
unfolding store_queued
store_same make s =
    Ensures-bind (λ _ u. SameWork s u) (λ _ u. SameWork s u) flush (λ _ u. (ok (make s), u))
      (add_message (make s) s)
      (flush_same s (add_message (make s) s) (record { recipients_eq = refl; campaigns_eq = refl }))
      (λ _ u h. h)

lift_same :
    {A : Type 0} (r : Result A) (s u : Db) → SameWork s u → Ensures (λ _ v. SameWork s v) (lift r u)
lift_same (ok a) s u h = h
lift_same (err e) s u h = tt

id_same : (answer : Json) (s : Db) → Ensures (λ _ u. SameWork s u) (response_id answer s)
unfolding response_id
id_same answer s =
    Ensures-bind (λ _ u. SameWork s u) (λ _ u. SameWork s u) (lift (item answer "messages"))
      (λ messages. lift (first messages) >>= λ message. lift (item message "id")) s
      (lift_same (item answer "messages") s s (SameWork-refl s))
      (λ messages u h.
        Ensures-bind (λ _ v. SameWork s v) (λ _ v. SameWork s v) (lift (first messages))
          (λ message. lift (item message "id")) u (lift_same (first messages) s u h)
          (λ message v k. lift_same (item message "id") s v k))

pub tenant_same : (tenant_id : ℕ) (s : Db) → Ensures (λ _ u. SameWork s u) (get tenant_id s)
unfolding get
tenant_same tenant_id s = go (get_tenant tenant_id s)
  where
    checked :
        (b : Bool) (t : Tenant)
        → Ensures (λ _ u. SameWork s u) ((if b then pure t else raise (plain tenant_not_found)) s)
    checked true t = SameWork-refl s
    checked false t = tt

    go : (o : Option Tenant) → Ensures (λ _ u. SameWork s u) (live_or_missing o s)
    go none = tt
    go (some t) = checked (is_live t) t

pub Concluded-same :
    (r : CampaignRecipient) (c : Campaign) (s u v : Db)
    → Concluded r c s u
    → SameWork u v
    → Concluded r c s v
Concluded-same r c s u v h same = record {
  row = h.row;
  campaign = h.campaign;
  same_id = h.same_id;
  same_campaign = h.same_campaign;
  outcome = h.outcome;
  recipients_eq = same.recipients_eq ∙ h.recipients_eq;
  campaigns_eq = same.campaigns_eq ∙ h.campaigns_eq;
}

module _ (t : Tenant) (c : Campaign) (r : CampaignRecipient) (m : Message) where
  sent-Ensures :
      (answer : Json) (s : Db) → Ensures (λ _ u. Concluded r c s u) (settle_sent t c r m answer s)
  unfolding settle_sent increment_usage
  sent-Ensures answer s =
      Ensures-bind (λ _ u. SameWork s u) (λ _ u. Concluded r c s u) (response_id answer)
        (λ wa. modify (write_sent wa c r m) >> (increment_usage t.id 1 >> (flush >> pure "sent"))) s
        (id_same answer s)
        (λ wa u h.
          Ensures-bind (λ _ v. SameWork (write_sent wa c r m u) v) (λ _ v. Concluded r c s v)
            (increment_usage t.id 1) (λ _. flush >> pure "sent") (write_sent wa c r m u)
            (flush_same (write_sent wa c r m u)
              (used (get_tenant t.id (write_sent wa c r m u)) 1 (write_sent wa c r m u))
              (used_same (get_tenant t.id (write_sent wa c r m u)) 1 (write_sent wa c r m u)))
            (λ _ v k.
              Ensures-bind (λ _ x. SameWork (write_sent wa c r m u) x) (λ _ x. Concluded r c s x)
                flush (λ _. pure "sent") v (flush_same (write_sent wa c r m u) v k)
                (λ _ x l. Concluded-same r c s (write_sent wa c r m u) x (written wa u h) l)))
    where
      written : (wa : Json) (u : Db) → SameWork s u → Concluded r c s (write_sent wa c r m u)
      written wa u h = record {
        row = recipient_sent wa r;
        campaign = one_sent c;
        same_id = refl;
        same_campaign = refl;
        outcome = inl (refl, refl);
        recipients_eq =
            ap (replace (λ (x : CampaignRecipient). x.id) (recipient_sent wa r)) h.recipients_eq;
        campaigns_eq = ap (replace (λ (x : Campaign). x.id) (one_sent c)) h.campaigns_eq;
      }

  failed-Ensures :
      (text : String) (s : Db) → Ensures (λ _ u. Concluded r c s u) (settle_failed text c r m s)
  unfolding settle_failed
  failed-Ensures text s =
      Ensures-bind (λ _ u. SameWork (write_failed text c r m s) u) (λ _ u. Concluded r c s u) flush
        (λ _. pure "failed") (write_failed text c r m s)
        (flush_same (write_failed text c r m s) (write_failed text c r m s)
          (SameWork-refl (write_failed text c r m s)))
        (λ _ u h. Concluded-same r c s (write_failed text c r m s) u written h)
    where
      written : Concluded r c s (write_failed text c r m s)
      written = record {
        row = recipient_failed text s.now r;
        campaign = one_failed c;
        same_id = refl;
        same_campaign = refl;
        outcome = inr (refl, refl);
        recipients_eq = refl;
        campaigns_eq = refl;
      }

  error-Ensures :
      (o : Option String) (e : Error) (s : Db)
      → Ensures (λ _ u. Concluded r c s u) (settle_error o e c r m s)
  unfolding settle_error
  error-Ensures none e s = tt
  error-Ensures (some text) e s = failed-Ensures text s

  pub answer-Ensures :
      (a : Result Json) (s : Db) → Ensures (λ _ u. Concluded r c s u) (settle_answer t c r m a s)
  unfolding settle_answer
  answer-Ensures (ok answer) s = sent-Ensures answer s
  answer-Ensures (err e) s = error-Ensures (refusal e) e s
