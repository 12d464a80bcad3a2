-- ===== src/Tasks/Delivery/Runs.antt =====
-- Deliveries of `send_recipient` from any state: what one that returned leaves, and the next one.
use whatsapp_api.Base.{◌≡◌, refl, Bool, true, false, not, Option, String, ◌∙◌, ap}
use whatsapp_api.Base.Exec.{Result, ok, err, Action, pure, raise_if}
use whatsapp_api.Base.Ensures.{Ensures, Ensures-bind, Ensures-map}
use whatsapp_api.Errors.{Error, plain, rate_limit_exceeded}
use whatsapp_api.Json.{Json}
use whatsapp_api.Models.{Tenant, Campaign, CampaignRecipient, Message, Settings}
use whatsapp_api.Store.{Db, put_recipient, flush, replace}
use whatsapp_api.Store.Laws.{SameWork, replace-replace_last}
use whatsapp_api.Tenants.{Fernet, get}
use whatsapp_api.Client.{Http, send_template as post_template}
use whatsapp_api.RateLimiter.{Redis, RateLimiter, acquire}
use whatsapp_api.Messages.{World, client_for, limited, store_queued}
use whatsapp_api.Tasks.Delivery.{
  started, task_row, mark_started, body_components, settle_answer, send_unsent, send_marked,
  call_meta, on_db,
}
use whatsapp_api.Tasks.Delivery.Outcome.{
  SameWork-refl, SameWork-trans, store_same, tenant_same, flush_same, Concluded, answer-Ensures,
}

mark-Ensures :
    (r : CampaignRecipient) (s : Db)
    → Ensures
        (λ q u. (q ≡ started s.now r) × SameWork (put_recipient (started s.now r) s) u)
        (mark_started r s)
unfolding mark_started
mark-Ensures r s =
    Ensures-bind (λ _ u. SameWork (put_recipient (started s.now r) s) u)
      (λ q u. (q ≡ started s.now r) × SameWork (put_recipient (started s.now r) s) u) flush
      (λ _. pure (started s.now r)) (put_recipient (started s.now r) s)
      (flush_same (put_recipient (started s.now r) s) (put_recipient (started s.now r) s)
        (SameWork-refl (put_recipient (started s.now r) s)))
      (λ _ u h. (refl, h))

-- The row that was marked is overwritten by the row with its outcome.
over_mark :
    (r q : CampaignRecipient) (c : Campaign) (s u v : Db)
    → q ≡ started s.now r
    → SameWork (put_recipient (started s.now r) s) u
    → Concluded q c u v
    → Concluded r c s v
over_mark r q c s u v marked same h = record {
  row = h.row;
  campaign = h.campaign;
  same_id = h.same_id ∙ ap (λ (x : CampaignRecipient). x.id) marked;
  same_campaign = h.same_campaign ∙ ap (λ (x : CampaignRecipient). x.campaign_id) marked;
  outcome = h.outcome;
  recipients_eq =
      h.recipients_eq
      ∙ ap (replace (λ (x : CampaignRecipient). x.id) h.row) same.recipients_eq
      ∙ replace-replace_last (λ (x : CampaignRecipient). x.id) h.row (started s.now r) s.recipients
          (h.same_id ∙ ap (λ (x : CampaignRecipient). x.id) marked);
  campaigns_eq =
      h.campaigns_eq ∙ ap (replace (λ (x : Campaign). x.id) h.campaign) same.campaigns_eq;
}

Concluded-from :
    (r : CampaignRecipient) (c : Campaign) (s u v : Db)
    → SameWork s u
    → Concluded r c u v
    → Concluded r c s v
Concluded-from r c s u v same h = record {
  row = h.row;
  campaign = h.campaign;
  same_id = h.same_id;
  same_campaign = h.same_campaign;
  outcome = h.outcome;
  recipients_eq =
      h.recipients_eq ∙ ap (replace (λ (x : CampaignRecipient). x.id) h.row) same.recipients_eq;
  campaigns_eq =
      h.campaigns_eq ∙ ap (replace (λ (x : Campaign). x.id) h.campaign) same.campaigns_eq;
}

module _ (redis : Redis) (http : Http) (fernet : Option Fernet) (limiter : RateLimiter)
    (settings : Settings) (describe : Error → String) where
  abbrev W : Type 0
  W = World redis http

  on_db-Ensures :
      {A : Type 0} (Q : A → Db → Type 0) (m : Action Db A) (w : W)
      → Ensures Q (m w.db)
      → Ensures (λ a (u : W). Q a u.db) (on_db redis http fernet limiter settings describe m w)
  on_db-Ensures {A} Q m w h = go (m w.db) h
    where
      go :
          (p : Result A × Db)
          → Ensures Q p
          → Ensures (λ a (u : W). Q a u.db) (p.0, record w { db = p.1 })
      go (ok a, u) h = h
      go (err e, u) h = tt

  limited_same :
      (t : Tenant) (to : String) (s : Db) (w : W)
      → SameWork s w.db
      → Ensures
          (λ _ (u : W). SameWork s u.db)
          (limited redis http fernet limiter settings describe t to w)
  unfolding limited
  limited_same t to s w h = go (acquire redis limiter t.phone_number_id to w.counters)
    where
      go :
          (p : Bool × redis.State)
          → Ensures
              (λ _ (u : W). SameWork s u.db)
              (raise_if (not p.0) (plain rate_limit_exceeded) (record w { counters = p.1 }))
      go (true, k) = h
      go (false, k) = tt

  call-Ensures :
      (t : Tenant) (c : Campaign) (q : CampaignRecipient) (m : Message) (s : Db) (w : W)
      → SameWork s w.db
      → Ensures
          (λ _ (u : W). Concluded q c s u.db)
          (call_meta redis http fernet limiter settings describe t c q m w)
  unfolding call_meta
  call-Ensures t c q m s w h = go (
      post_template http (client_for redis http fernet limiter settings describe t) q.phone
        c.template_name c.template_language (body_components q.variables) w.remote)
    where
      go :
          (p : Result Json × http.State)
          → Ensures
              (λ _ (u : W). Concluded q c s u.db)
              (on_db redis http fernet limiter settings describe
                (settle_answer t c q m p.0)
                (record w { remote = p.1 }))
      go (a, k) =
          on_db-Ensures (λ _ u. Concluded q c s u) (settle_answer t c q m a)
            (record w { remote = k })
            (Ensures-map (λ _ u. Concluded q c w.db u) (λ _ u. Concluded q c s u)
              (settle_answer t c q m a w.db) (answer-Ensures t c q m a w.db)
              (λ _ u k. Concluded-from q c s w.db u h k))

  marked-Ensures :
      (q : CampaignRecipient) (c : Campaign) (w : W)
      → Ensures
          (λ _ (u : W). Concluded q c w.db u.db)
          (send_marked redis http fernet limiter settings describe q c w)
  unfolding send_marked
  marked-Ensures q c w =
      Ensures-bind (λ _ (u : W). SameWork w.db u.db) (λ _ (u : W). Concluded q c w.db u.db)
        (on_db redis http fernet limiter settings describe (get c.tenant_id)) _ w
        (on_db-Ensures (λ _ u. SameWork w.db u) (get c.tenant_id) w (tenant_same c.tenant_id w.db))
        (λ t u h.
          Ensures-bind (λ _ (v : W). SameWork w.db v.db) (λ _ (v : W). Concluded q c w.db v.db)
            (limited redis http fernet limiter settings describe t q.phone) _ u
            (limited_same t q.phone w.db u h)
            (λ _ v k.
              Ensures-bind (λ _ (x : W). SameWork w.db x.db) (λ _ (x : W). Concluded q c w.db x.db)
                (on_db redis http fernet limiter settings describe (store_queued (task_row t c q)))
                _ v
                (on_db-Ensures (λ _ x. SameWork w.db x) (store_queued (task_row t c q)) v
                  (stored t v k))
                (λ m x l. call-Ensures t c q m w.db x l)))
    where
      stored :
          (t : Tenant) (v : W)
          → SameWork w.db v.db
          → Ensures (λ _ x. SameWork w.db x) (store_queued (task_row t c q) v.db)
      stored t v k =
          Ensures-map (λ _ x. SameWork v.db x) (λ _ x. SameWork w.db x)
            (store_queued (task_row t c q) v.db) (store_same (task_row t c q) v.db)
            (λ _ x l. SameWork-trans w.db v.db x k l)

  pub unsent-Ensures :
      (r : CampaignRecipient) (c : Campaign) (w : W)
      → Ensures
          (λ _ (u : W). Concluded r c w.db u.db)
          (send_unsent redis http fernet limiter settings describe r c w)
  unfolding send_unsent
  unsent-Ensures r c w =
      Ensures-bind
        (λ q (u : W).
          (q ≡ started w.db.now r) × SameWork (put_recipient (started w.db.now r) w.db) u.db)
        (λ _ (u : W). Concluded r c w.db u.db)
        (on_db redis http fernet limiter settings describe (mark_started r)) _ w
        (on_db-Ensures
          (λ q u. (q ≡ started w.db.now r) × SameWork (put_recipient (started w.db.now r) w.db) u)
          (mark_started r) w (mark-Ensures r w.db))
        (λ q u h.
          Ensures-map (λ _ (v : W). Concluded q c u.db v.db) (λ _ (v : W). Concluded r c w.db v.db)
            (send_marked redis http fernet limiter settings describe q c u) (marked-Ensures q c u)
            (λ _ v k. over_mark r q c w.db u.db v.db h.0 h.1 k))
