-- ===== src/Api/Bulk/Laws.antt =====
-- The campaign endpoints over any sequence of requests.
use whatsapp_api.Base.{ℕ, not, String, Option}
use whatsapp_api.Base.Exec.{Action, ◌>>=◌, pure}
use whatsapp_api.Models.{Campaign, Settings}
use whatsapp_api.Store.{Db}
use whatsapp_api.Utils.Phone.{PhoneLib}
use whatsapp_api.Auth.{authenticate}
use whatsapp_api.Campaigns.{CampaignCreate, start, pause, resume, cancel}
use whatsapp_api.Campaigns.Upload.{Csv}
use whatsapp_api.Campaigns.Lifecycle.{start-Refuses, resume-Refuses}
use whatsapp_api.Base.Keeps.{Keeps, Keeps-bind, Keeps-pure, Keeps-raise_if}
use whatsapp_api.Auth.Kept.{Keeps-authenticate}
use whatsapp_api.Api.Kept.{Keeps-write_with}
use whatsapp_api.Campaigns.Kept.{Keeps-Refuses}
use whatsapp_api.Campaigns.Idle.{
  NoneRunning, Keeps-flush, Keeps-upload, create-NoneRunning, pause-NoneRunning, cancel-NoneRunning,
}
use whatsapp_api.Api.{write_with}
use whatsapp_api.Api.Bulk.{
  acted, content_allowed, create_campaign, post_recipients, start_campaign, pause_campaign,
  resume_campaign, cancel_campaign,
}

authenticate-NoneRunning :
    (hash_key : String → String) (settings : Settings) (x_api_key : Option String)
    → Keeps NoneRunning (authenticate hash_key settings x_api_key)
authenticate-NoneRunning = Keeps-authenticate Keeps-flush (λ k. record { at = λ s h. h })

-- The requests of the campaign endpoints that may write, each with the key it was sent with.
pub data CampaignRequest : Type 1 where
  create_request : CampaignCreate → CampaignRequest
  upload_request : PhoneLib → ℕ → Option String → Csv → CampaignRequest
  start_request pause_request resume_request cancel_request : ℕ → CampaignRequest

module _ (hash_key : String → String) (settings : Settings) where
  abbrev pub answer : Option String → CampaignRequest → Db → Db
  answer key (create_request payload) s = (create_campaign hash_key settings key payload s).1
  answer key (upload_request lib campaign_id content_type csv) s =
      (post_recipients hash_key settings key lib campaign_id content_type csv s).1
  answer key (start_request campaign_id) s = (start_campaign hash_key settings key campaign_id s).1
  answer key (pause_request campaign_id) s = (pause_campaign hash_key settings key campaign_id s).1
  answer key (resume_request campaign_id) s =
      (resume_campaign hash_key settings key campaign_id s).1
  answer key (cancel_request campaign_id) s =
      (cancel_campaign hash_key settings key campaign_id s).1

  -- The databases that requests lead to, from `s`.
  pub data Answered (s : Db) : Db → Type 1 where
    at_first : Answered s s
    answered :
        (key : Option String) (request : CampaignRequest) (u : Db)
        → Answered s u
        → Answered s (answer key request u)

  Keeps-request :
      {A : Type 0} (key : Option String) (m : Action Db A)
      → Keeps NoneRunning m
      → Keeps NoneRunning (write_with (authenticate hash_key settings key) m)
  Keeps-request key m km =
      Keeps-write_with Keeps-flush _ m (authenticate-NoneRunning hash_key settings key) km

  acted-Keeps :
      (key : Option String) (m : Action Db Campaign) (text : String)
      → Keeps NoneRunning m
      → Keeps NoneRunning
          (write_with (authenticate hash_key settings key) (m >>= λ c. pure (acted text c)))
  acted-Keeps key m text k = Keeps-request key _ (Keeps-bind m _ k (λ c. Keeps-pure (acted text c)))

  answer_keeps :
      (key : Option String) (request : CampaignRequest) (s : Db)
      → NoneRunning s
      → NoneRunning (answer key request s)
  unfolding create_campaign post_recipients start_campaign pause_campaign resume_campaign
      cancel_campaign
  answer_keeps key (create_request payload) =
      (Keeps-request key _ (create-NoneRunning settings payload)).at
  answer_keeps key (upload_request lib campaign_id content_type csv) =
      (Keeps-request key _ (
        Keeps-raise_if (not (content_allowed content_type)) _ _
          (λ _. Keeps-upload lib campaign_id csv))).at
  answer_keeps key (start_request campaign_id) =
      (acted-Keeps key (start campaign_id) "Campaign started"
        (Keeps-Refuses (start campaign_id) (start-Refuses campaign_id))).at
  answer_keeps key (pause_request campaign_id) =
      (acted-Keeps key (pause campaign_id) "Campaign paused" (pause-NoneRunning campaign_id)).at
  answer_keeps key (resume_request campaign_id) =
      (acted-Keeps key (resume campaign_id) "Campaign resumed"
        (Keeps-Refuses (resume campaign_id) (resume-Refuses campaign_id))).at
  answer_keeps key (cancel_request campaign_id) =
      (acted-Keeps key (cancel campaign_id) "Campaign cancelled"
        (cancel-NoneRunning campaign_id)).at

  -- No sequence of requests to the campaign endpoints, with whatever keys and however they are
  -- answered, stores a running campaign where none was.
  pub endpoints_idle : (s u : Db) → NoneRunning s → Answered s u → NoneRunning u
  endpoints_idle s u h at_first = h
  endpoints_idle s u h (answered key request v r) =
      answer_keeps key request v (endpoints_idle s v h r)
