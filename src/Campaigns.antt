-- ===== src/Campaigns.antt =====
-- services/campaign_service.py: `CampaignService`, with the request schemas of
-- schemas/campaign.py. The recipients' upload is in Campaigns/Upload.
pub mod Kept
pub mod Upload
pub mod Lifecycle
pub mod Idle
use whatsapp_api.Base.{
  ℕ, ◌+◌, ◌-◌, ◌*◌, ◌≡◌, Bool, true, false, not, ◌&&◌, String, ◌<>◌, Option, none, some, List, [],
  ◌∷◌, ◌++◌, select, leb, max, length, take, drop, ◌==◌, str_eq, if◌then◌else◌,
}
use whatsapp_api.Base.Newest.{newest_first}
use whatsapp_api.Base.Exec.{Action, ◌>>=◌, ◌>>◌, pure, raise, gets, modify, raise_if, or_raise}
use whatsapp_api.Errors.{
  plain, saying, coded, campaign_not_found, template_not_found, validation_error, conflict,
}
use whatsapp_api.Models.{
  Campaign, CampaignStatus, CampaignRecipient, CampaignRecipientStatus, Template, TemplateStatus,
  Settings, campaign_value, template_value, template_eq, recipient_eq, is_running,
}
use whatsapp_api.Store.{Db, one_or_none, get_campaign, put_campaign, flush}
use whatsapp_api.Tenants.{resolve}

-- schemas/campaign.py
pub record CampaignCreate : Type 0 where
  pub tenant_id : Option ℕ
  pub name : String
  pub template_name : String
  pub language_code : String
  pub scheduled_at : Option ℕ

unfoldable pub get : ℕ → Action Db Campaign
get campaign_id = do
  found ← gets (get_campaign campaign_id)
  or_raise found (plain campaign_not_found)

abbrev pub has_key : ℕ → String → String → Template → Bool
has_key tenant_id name language t =
    t.tenant_id == tenant_id && str_eq t.name name && str_eq t.language language

unfoldable pub find_template : ℕ → String → String → Action Db (Option Template)
find_template tenant_id name language s =
    (one_or_none (select (has_key tenant_id name language) s.templates), s)

abbrev first_status : Option ℕ → CampaignStatus
first_status none = CampaignStatus.draft
first_status (some _) = CampaignStatus.scheduled

abbrev pub new_campaign : ℕ → CampaignCreate → Db → Campaign
new_campaign tenant_id payload s = record {
  id = s.next_id;
  created_at = s.now;
  tenant_id = tenant_id;
  name = payload.name;
  template_name = payload.template_name;
  template_language = payload.language_code;
  total_recipients = 0;
  sent_count = 0;
  delivered_count = 0;
  read_count = 0;
  failed_count = 0;
  status = first_status payload.scheduled_at;
  scheduled_at = payload.scheduled_at;
  started_at = none;
  completed_at = none;
}

abbrev pub add_campaign : Campaign → Db → Db
add_campaign c s = record s { campaigns = s.campaigns ++ (c ∷ []); next_id = s.next_id + 1 }

unfoldable pub create : Settings → CampaignCreate → Action Db Campaign
create settings payload = do
  tenant ← resolve settings payload.tenant_id
  found ← find_template tenant.id payload.template_name payload.language_code
  template ← or_raise found (
      saying template_not_found (
        "Template '" <> payload.template_name <> "' (" <> payload.language_code
        <> ") not found — run /api/v1/templates/sync first"))
  raise_if (not (template_eq template.status TemplateStatus.approved)) (
      coded validation_error
        ("Template '"
          <> template.name
          <> "' is not approved (status="
          <> template_value template.status
          <> ")")
        "template_not_approved")
  campaign ← gets (new_campaign tenant.id payload)
  modify (add_campaign campaign)
  flush
  pure campaign

-- `draft` or `scheduled`
abbrev pub is_open : CampaignStatus → Bool
is_open CampaignStatus.draft = true
is_open CampaignStatus.scheduled = true
is_open _ = false

abbrev is_startable : CampaignStatus → Bool
is_startable CampaignStatus.draft = true
is_startable CampaignStatus.scheduled = true
is_startable CampaignStatus.paused = true
is_startable _ = false

abbrev is_paused : CampaignStatus → Bool
is_paused CampaignStatus.paused = true
is_paused _ = false

-- `completed` or `cancelled`
abbrev pub is_over : CampaignStatus → Bool
is_over CampaignStatus.completed = true
is_over CampaignStatus.cancelled = true
is_over _ = false

unfoldable pub start : ℕ → Action Db Campaign
start campaign_id = do
  campaign ← get campaign_id
  raise_if (not (is_startable campaign.status)) (
      saying conflict ("Campaign cannot be started from status " <> campaign_value campaign.status))
  raise_if (campaign.total_recipients == 0)
      (saying conflict "Campaign has no recipients — upload a CSV first")
  raise (
      saying conflict
        "Campaign dispatch is disabled in this deployment. Use the single-message endpoints (POST /api/v1/messages/send/template) or run the worker stack.")

abbrev paused : Campaign → Campaign
paused c = record c { status = CampaignStatus.paused }

unfoldable pub pause : ℕ → Action Db Campaign
pause campaign_id = do
  campaign ← get campaign_id
  raise_if (not (is_running campaign.status))
      (saying conflict "Only running campaigns can be paused")
  modify (put_campaign (paused campaign))
  flush
  pure (paused campaign)

unfoldable pub resume : ℕ → Action Db Campaign
resume campaign_id = do
  campaign ← get campaign_id
  raise_if (not (is_paused campaign.status))
      (saying conflict "Only paused campaigns can be resumed")
  start campaign_id

abbrev pub cancelled : ℕ → Campaign → Campaign
cancelled now c = record c { status = CampaignStatus.cancelled; completed_at = some now }

unfoldable pub cancel_open : Campaign → Action Db Campaign
cancel_open campaign = do
  closed ← gets (λ (s : Db). cancelled s.now campaign)
  modify (put_campaign closed)
  flush
  pure closed

unfoldable pub cancel : ℕ → Action Db Campaign
cancel campaign_id = do
  campaign ← get campaign_id
  let closing = cancel_open campaign
  if is_over campaign.status then pure campaign else closing

unfoldable pub list_for_tenant : ℕ → Db → List Campaign
list_for_tenant tenant_id s =
    newest_first (λ (c : Campaign). c.created_at)
      (select (λ (c : Campaign). c.tenant_id == tenant_id) s.campaigns)

-- `order_by(CampaignRecipient.created_at)`: rows of the same time stay in the table's order.
abbrev insert_by_time : CampaignRecipient → List CampaignRecipient → List CampaignRecipient
insert_by_time r [] = r ∷ []
insert_by_time r (x ∷ xs) =
    let rest = insert_by_time r xs in if leb r.created_at x.created_at then r ∷ x ∷ xs else x ∷ rest

abbrev by_time : List CampaignRecipient → List CampaignRecipient
by_time [] = []
by_time (r ∷ rs) = insert_by_time r (by_time rs)

abbrev status_is : Option CampaignRecipientStatus → CampaignRecipient → Bool
status_is none r = true
status_is (some status) r = recipient_eq r.status status

abbrev rows_with : ℕ → Option CampaignRecipientStatus → Db → List CampaignRecipient
rows_with campaign_id status s =
    select (λ (r : CampaignRecipient). r.campaign_id == campaign_id && status_is status r)
      s.recipients

unfoldable pub list_recipients :
    ℕ → Option CampaignRecipientStatus → ℕ → ℕ → Db → List CampaignRecipient × ℕ
list_recipients campaign_id status page page_size s =
    let rows = rows_with campaign_id status s in
    (take page_size (drop ((max 1 page - 1) * page_size) (by_time rows)), length rows)

unfoldable fetch_pending_recipients : ℕ → ℕ → Db → List CampaignRecipient
fetch_pending_recipients campaign_id limit s =
    take limit (by_time (rows_with campaign_id (some CampaignRecipientStatus.queued) s))
