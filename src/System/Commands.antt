-- ===== src/System/Commands.antt =====
-- The requests that write to the database alone: on campaigns, tenants and API keys.
use whatsapp_api.Base.{ℕ, String, Option}
use whatsapp_api.Base.Exec.{Action, ◌>>=◌, ◌>>◌, pure}
use whatsapp_api.Base.Keeps.{Keeps, Keeps-bind, Keeps-pure, keeps_rules}
use whatsapp_api.Models.{Campaign, Settings}
use whatsapp_api.Store.{Db}
use whatsapp_api.Api.Kept.{Keeps-write_with}
use whatsapp_api.Utils.Phone.{PhoneLib, IsLawful}
use whatsapp_api.Auth.{authenticate}
use whatsapp_api.Campaigns.{CampaignCreate, start, pause, resume, cancel}
use whatsapp_api.Campaigns.Upload.{Csv}
use whatsapp_api.Campaigns.Kept.{Keeps-Refuses}
use whatsapp_api.Campaigns.Lifecycle.{start-Refuses, resume-Refuses}
use whatsapp_api.Api.{write_with}
use whatsapp_api.Api.Bulk.{
  acted, create_campaign, post_recipients, start_campaign, pause_campaign, resume_campaign,
  cancel_campaign,
}
use whatsapp_api.System.Dialable.{Dialable, Keeps-flush}
use whatsapp_api.System.Access.{Keeps-authenticate}
use whatsapp_api.System.Uploads.{Keeps-upload}
use whatsapp_api.Tenants.{Fernet, TenantCreate, TenantUpdate}
use whatsapp_api.Auth.{ApiKeyCreate, require_admin}
use whatsapp_api.Api.Manage.{
  ensure_multi_tenant, create_tenant, update_tenant, delete_tenant, mint_api_key, post_revoke,
}
use whatsapp_api.System.Campaigns.{create-Dialable, pause-Dialable, cancel-Dialable}
use whatsapp_api.System.Manage.{
  Keeps-require_admin, Keeps-ensure, Keeps-create as create_tenant_kept, Keeps-update,
  Keeps-soft_delete, Keeps-create_api_key, Keeps-revoke_api_key,
}

-- A request that writes, but an upload; a key is minted from a random text.
pub data Command : Type 0 where
  create_command : CampaignCreate → Command
  start_command pause_command resume_command cancel_command : ℕ → Command
  create_tenant_command : TenantCreate → Command
  update_tenant_command : ℕ → TenantUpdate → Command
  delete_tenant_command : ℕ → Command
  mint_command : ApiKeyCreate → String → Command
  revoke_command : ℕ → Command

module _ (fernet : Option Fernet) (hash_key : String → String) (settings : Settings)
    (x_api_key : Option String) where
  abbrev pub obey : Command → Db → Db
  obey (create_command payload) s = (create_campaign hash_key settings x_api_key payload s).1
  obey (start_command k) s = (start_campaign hash_key settings x_api_key k s).1
  obey (pause_command k) s = (pause_campaign hash_key settings x_api_key k s).1
  obey (resume_command k) s = (resume_campaign hash_key settings x_api_key k s).1
  obey (cancel_command k) s = (cancel_campaign hash_key settings x_api_key k s).1
  obey (create_tenant_command p) s = (create_tenant hash_key settings x_api_key fernet p s).1
  obey (update_tenant_command k u) s = (update_tenant hash_key settings x_api_key fernet k u s).1
  obey (delete_tenant_command k) s = (delete_tenant hash_key settings x_api_key k s).1
  obey (mint_command p raw) s = (mint_api_key hash_key settings x_api_key p raw s).1
  obey (revoke_command k) s = (post_revoke hash_key settings x_api_key k s).1

  Keeps-request :
      {A : Type 0} (m : Action Db A)
      → Keeps Dialable m
      → Keeps Dialable (write_with (authenticate hash_key settings x_api_key) m)
  Keeps-request m km =
      Keeps-write_with Keeps-flush _ m (Keeps-authenticate hash_key settings x_api_key) km

  Keeps-tenant_request :
      {A : Type 0} (m : Action Db A)
      → Keeps Dialable m
      → Keeps Dialable (
          write_with (authenticate hash_key settings x_api_key) (ensure_multi_tenant settings >> m))
  Keeps-tenant_request m km = Keeps-request _ (Keeps-bind _ _ (Keeps-ensure settings) (λ _. km))

  Keeps-admin_request :
      {A : Type 0} (m : Action Db A)
      → Keeps Dialable m
      → Keeps Dialable (write_with (require_admin hash_key settings x_api_key) m)
  Keeps-admin_request m km =
      Keeps-write_with Keeps-flush _ m (Keeps-require_admin hash_key settings x_api_key) km

  Keeps-act :
      (m : Action Db Campaign) (text : String)
      → Keeps Dialable m
      → Keeps Dialable
          (write_with (authenticate hash_key settings x_api_key) (m >>= λ c. pure (acted text c)))
  Keeps-act m text k = Keeps-request _ (Keeps-bind m _ k (λ c. Keeps-pure (acted text c)))

  pub obey-Dialable : (command : Command) (s : Db) → Dialable s → Dialable (obey command s)
  unfolding create_campaign start_campaign pause_campaign resume_campaign cancel_campaign
      create_tenant update_tenant delete_tenant mint_api_key post_revoke
  obey-Dialable (create_command payload) = (Keeps-request _ (create-Dialable settings payload)).at
  obey-Dialable (start_command k) =
      (Keeps-act (start k) "Campaign started" (Keeps-Refuses (start k) (start-Refuses k))).at
  obey-Dialable (pause_command k) = (Keeps-act (pause k) "Campaign paused" (pause-Dialable k)).at
  obey-Dialable (resume_command k) =
      (Keeps-act (resume k) "Campaign resumed" (Keeps-Refuses (resume k) (resume-Refuses k))).at
  obey-Dialable (cancel_command k) =
      (Keeps-act (cancel k) "Campaign cancelled" (cancel-Dialable k)).at
  obey-Dialable (create_tenant_command p) =
      (Keeps-tenant_request _ (create_tenant_kept fernet p)).at
  obey-Dialable (update_tenant_command k u) = (Keeps-tenant_request _ (Keeps-update fernet k u)).at
  obey-Dialable (delete_tenant_command k) = (Keeps-tenant_request _ (Keeps-soft_delete k)).at
  obey-Dialable (mint_command p raw) =
      (Keeps-admin_request _ (Keeps-create_api_key hash_key settings p raw)).at
  obey-Dialable (revoke_command k) = (Keeps-admin_request _ (Keeps-revoke_api_key k)).at

  module _ (lib : PhoneLib) (laws : IsLawful lib) where
    pub Keeps-post_recipients :
        (campaign_id : ℕ) (content_type : Option String) (csv : Csv)
        → Keeps Dialable
            (post_recipients hash_key settings x_api_key lib campaign_id content_type csv)
    unfolding post_recipients
    Keeps-post_recipients campaign_id content_type csv =
        Keeps-request _ (search (keeps_rules, Keeps-upload))
