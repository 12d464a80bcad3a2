-- ===== src/Campaigns/Kept.antt =====
-- The calls of `CampaignService` keep what the flush keeps, and the write of a campaign in the status
-- that a call gives it.
use whatsapp_api.Base.{ℕ, String, Option}
use whatsapp_api.Base.Exec.{Action, ◌>>=◌, ◌>>◌, pure, gets, modify}
use whatsapp_api.Base.Keeps.{Keeps, keeps_rules}
use whatsapp_api.Models.{Campaign, CampaignStatus, Settings}
use whatsapp_api.Store.{Db, put_campaign, flush}
use whatsapp_api.Tenants.Kept.{Keeps-resolve}
use whatsapp_api.Campaigns.{
  CampaignCreate, find_template, create, new_campaign, add_campaign, first_status, get, pause,
  cancel, cancel_open, cancelled,
}
use whatsapp_api.Campaigns.Lifecycle.{Refuses}

module _ {P : Db → Type 0} where
  pub Keeps-get : (campaign_id : ℕ) → Keeps P (get campaign_id)
  unfolding get
  Keeps-get campaign_id = search keeps_rules

  Keeps-find_template : (id : ℕ) (name language : String) → Keeps P (find_template id name language)
  unfolding find_template
  Keeps-find_template id name language = record { at = λ s h. h }

  pub Keeps-Refuses : {A : Type 0} (m : Action Db A) → Refuses m → Keeps P m
  Keeps-Refuses m r = record { at = λ s h. rw ((r.outcome s).1) h }

module _ {P : Db → Type 0} (C : CampaignStatus → Type 0) (flushed : Keeps P flush)
    (put : (c : Campaign) → C c.status → Keeps P (modify (put_campaign c)))
    (add : (c : Campaign) → C c.status → Keeps P (modify (add_campaign c)))
    (fresh : (t : Option ℕ) → C (first_status t)) (halted : C CampaignStatus.paused)
    (over : C CampaignStatus.cancelled) where
  -- `draft` or `scheduled`, by the payload.
  Keeps-add_new :
      (tenant_id : ℕ) (payload : CampaignCreate)
      → Keeps P (
          gets (new_campaign tenant_id payload) >>= λ c.
          modify (add_campaign c) >> (flush >> pure c))
  Keeps-add_new tenant_id payload = record {
    at = λ s h. (stored s (new_campaign tenant_id payload s) (fresh payload.scheduled_at)).at s h;
  }
    where
      stored :
          (s : Db) (c : Campaign)
          → C c.status
          → Keeps P (modify (add_campaign c) >> (flush >> pure c))
      stored s c i = search keeps_rules

  pub Keeps-create :
      (settings : Settings) (payload : CampaignCreate) → Keeps P (create settings payload)
  unfolding create
  Keeps-create settings payload =
      search (keeps_rules, Keeps-resolve, Keeps-find_template, Keeps-add_new) depth 14

  pub Keeps-pause : (campaign_id : ℕ) → Keeps P (pause campaign_id)
  unfolding pause
  Keeps-pause campaign_id = search (keeps_rules, Keeps-get) depth 10

  Keeps-cancel_open : (c : Campaign) → Keeps P (cancel_open c)
  unfolding cancel_open
  Keeps-cancel_open c = record { at = λ s h. (stored (cancelled s.now c) over).at s h }
    where
      stored : (d : Campaign) → C d.status → Keeps P (modify (put_campaign d) >> (flush >> pure d))
      stored d i = search keeps_rules

  pub Keeps-cancel : (campaign_id : ℕ) → Keeps P (cancel campaign_id)
  unfolding cancel
  Keeps-cancel campaign_id = search (keeps_rules, Keeps-get, Keeps-cancel_open) depth 10
