-- ===== src/Api/Bulk.antt =====
-- api/v1/campaigns.py: every endpoint checks the key, of which it uses nothing.
pub mod Laws
use whatsapp_api.Base.{
  ℕ, Bool, true, not, String, ◌<>◌, Option, none, some, List, ◌∷◌, str_eq, ◌||◌,
}
use whatsapp_api.Base.Exec.{Action, ◌>>=◌, ◌>>◌, gets, raise_if, pure}
use whatsapp_api.Errors.{coded, validation_error}
use whatsapp_api.Models.{
  Campaign, CampaignStatus, CampaignRecipient, CampaignRecipientStatus, Settings,
}
use whatsapp_api.Store.{Db}
use whatsapp_api.Tenants.{resolve}
use whatsapp_api.Utils.Phone.{PhoneLib}
use whatsapp_api.Utils.Pagination.{Paginated, page_count}
use whatsapp_api.Auth.{AuthContext, authenticate}
use whatsapp_api.Campaigns.{
  CampaignCreate, create, get, list_for_tenant, start, pause, resume, cancel, list_recipients,
}
use whatsapp_api.Campaigns.Upload.{Csv, CampaignUploadResponse, upload_recipients}
use whatsapp_api.Api.{read_with, write_with}

-- schemas/campaign.py
pub record CampaignActionResponse : Type 0 where
  pub campaign_id : ℕ
  pub status : CampaignStatus
  pub message : String

abbrev pub acted : String → Campaign → CampaignActionResponse
acted text c = record { campaign_id = c.id; status = c.status; message = text }

abbrev named_content : Option String → String
named_content none = "None"
named_content (some s) = s

-- Is the content type one that an upload may have?
abbrev pub content_allowed : Option String → Bool
content_allowed none = true
content_allowed (some s) =
    str_eq s "text/csv"
    || str_eq s "application/vnd.ms-excel"
    || str_eq s "application/octet-stream"

abbrev paged : ℕ → ℕ → List CampaignRecipient × ℕ → Paginated CampaignRecipient
paged page page_size (rows, total) = record {
  items = rows;
  total = total;
  page = page;
  page_size = page_size;
  pages = page_count total page_size;
}

module _ (hash_key : String → String) (settings : Settings) (x_api_key : Option String) where
  abbrev with_key : Action Db AuthContext
  with_key = authenticate hash_key settings x_api_key

  unfoldable pub create_campaign : CampaignCreate → Action Db Campaign
  create_campaign payload = write_with with_key (create settings payload)

  unfoldable list_campaigns : Option ℕ → Action Db (List Campaign)
  list_campaigns tenant_id =
      read_with with_key (do t ← resolve settings tenant_id; gets (list_for_tenant t.id))

  unfoldable get_campaign : ℕ → Action Db Campaign
  get_campaign campaign_id = read_with with_key (get campaign_id)

  unfoldable pub post_recipients :
      PhoneLib → ℕ → Option String → Csv → Action Db CampaignUploadResponse
  post_recipients lib campaign_id content_type csv = write_with with_key (
      raise_if (not (content_allowed content_type)) (
        coded validation_error ("Unsupported content type: " <> named_content content_type)
          "invalid_content_type")
      >> upload_recipients lib campaign_id csv)

  -- A service's call on a campaign, committed and reported.
  abbrev act : (ℕ → Action Db Campaign) → String → ℕ → Action Db CampaignActionResponse
  act service text campaign_id =
      write_with with_key (do c ← service campaign_id; pure (acted text c))

  unfoldable pub start_campaign : ℕ → Action Db CampaignActionResponse
  start_campaign = act start "Campaign started"

  unfoldable pub pause_campaign : ℕ → Action Db CampaignActionResponse
  pause_campaign = act pause "Campaign paused"

  unfoldable pub resume_campaign : ℕ → Action Db CampaignActionResponse
  resume_campaign = act resume "Campaign resumed"

  unfoldable pub cancel_campaign : ℕ → Action Db CampaignActionResponse
  cancel_campaign = act cancel "Campaign cancelled"

  unfoldable get_recipients :
      ℕ → Option CampaignRecipientStatus → ℕ → ℕ → Action Db (Paginated CampaignRecipient)
  get_recipients campaign_id status page page_size = read_with with_key (
      gets (λ (s : Db). paged page page_size (list_recipients campaign_id status page page_size s)))
