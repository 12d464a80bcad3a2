-- ===== src/System/Phones.antt =====
-- Any run of the program: the requests that write, the webhooks and the tasks, on one database.
use whatsapp_api.Base.{Bool, ℕ, ◌≡◌, refl, true, String, Option}
use whatsapp_api.Base.Exec.{Result}
use whatsapp_api.Base.Keeps.{Keeps}
use whatsapp_api.Errors.{Error}
use whatsapp_api.Json.{Json}
use whatsapp_api.Models.{Settings}
use whatsapp_api.Store.{Db}
use whatsapp_api.Store.Kept.{Keeps-session_scope}
use whatsapp_api.Utils.Phone.{PhoneLib, IsLawful}
use whatsapp_api.Utils.Validators.{ParsedUrl}
use whatsapp_api.Tenants.{Fernet}
use whatsapp_api.Client.{Http}
use whatsapp_api.RateLimiter.{Redis, RateLimiter}
use whatsapp_api.Messages.{World, SendTextRequest}
use whatsapp_api.Messages.Components.{SendTemplateRequest}
use whatsapp_api.Campaigns.Upload.{Csv}
use whatsapp_api.Webhooks.Processing.{receive_webhook}
use whatsapp_api.Api.{db_view, db_put}
use whatsapp_api.Api.Sending.{post_text, post_template}
use whatsapp_api.Api.Bulk.{post_recipients}
use whatsapp_api.Tasks.{process_webhook}
use whatsapp_api.Tasks.Dispatch.{process_campaign}
use whatsapp_api.Tasks.Delivery.{send_recipient}
use whatsapp_api.Schemas.{valid, validate_text, validate_template}
use whatsapp_api.Schemas.Laws.{validate_text_lem, validate_template_lem}
use whatsapp_api.System.Dialable.{Dialable, in_e164, Keeps-flush}
use whatsapp_api.System.Webhooks.{Keeps-process_event, Keeps-receive_webhook}
use whatsapp_api.System.Sends.{Keeps-post_text, Keeps-post_template}
use whatsapp_api.System.Deliveries.{Keeps-send_recipient}
use whatsapp_api.Api.Manage.{sync_templates}
use whatsapp_api.System.Manage.{Keeps-sync_templates}
use whatsapp_api.System.Commands.{Command, obey, obey-Dialable, Keeps-post_recipients}

module _ (lib : PhoneLib) (laws : IsLawful lib) where
  text-in_e164 : (raw p : SendTextRequest) → validate_text lib raw ≡ valid p → in_e164 p.to ≡ true
  text-in_e164 raw p h = (rw h at (validate_text_lem lib laws raw)).1

  template-in_e164 :
      (raw p : SendTemplateRequest) → validate_template lib raw ≡ valid p → in_e164 p.to ≡ true
  template-in_e164 raw p h = (rw h at (validate_template_lem lib laws raw)).1

Keeps-process_webhook :
    (describe : Error → String) (event_id : ℕ) → Keeps Dialable (process_webhook describe event_id)
unfolding process_webhook
Keeps-process_webhook describe event_id =
    Keeps-session_scope Dialable db_view db_put (λ _ _. refl) Keeps-flush _
      (Keeps-process_event describe event_id)

Keeps-process_campaign : (campaign_id : ℕ) → Keeps Dialable (process_campaign campaign_id)
unfolding process_campaign
Keeps-process_campaign campaign_id =
    Keeps-session_scope Dialable db_view db_put (λ _ _. refl) Keeps-flush _
      (record { at = λ s h. h })

module _ (redis : Redis) (http : Http) (fernet : Option Fernet) (limiter : RateLimiter)
    (settings : Settings) (describe : Error → String) (hash_key : String → String)
    (digest : String → String) (urlparse : String → ParsedUrl) (collate : String → String → Bool)
    (lib : PhoneLib) where
  abbrev W : Type 0
  W = World redis http

  abbrev on_table : (Db → Db) → W → W
  on_table f w = record w { db = f w.db }

  -- What happens to the world, in any order: a request that writes is handled, with whatever key and
  -- however it is answered, a task is delivered, however it ends, or other programs use Redis and
  -- Meta. A request that sends was validated; a sync reads as many pages as its fuel allows.
  pub data Runs (w : W) : W → Type 0 where
    at_first : Runs w w
    text_sent :
        (x_api_key : Option String) (raw p : SendTextRequest) (v : W)
        → validate_text lib raw ≡ valid p
        → Runs w v
        → Runs w (post_text redis http fernet limiter settings describe hash_key x_api_key p v).1
    template_sent :
        (x_api_key : Option String) (raw p : SendTemplateRequest) (v : W)
        → validate_template lib raw ≡ valid p
        → Runs w v
        → Runs w
            (post_template redis http fernet limiter settings describe hash_key x_api_key urlparse p
              v).1
    uploaded :
        (x_api_key : Option String) (campaign_id : ℕ) (content_type : Option String) (csv : Csv)
        (v : W)
        → Runs w v
        → Runs w (
            on_table
              (λ s.
                (post_recipients hash_key settings x_api_key lib campaign_id content_type csv s).1)
              v)
    commanded :
        (x_api_key : Option String) (command : Command) (v : W)
        → Runs w v
        → Runs w (on_table (obey fernet hash_key settings x_api_key command) v)
    templates_synced :
        (x_api_key : Option String) (fuel : ℕ) (tenant_id : Option ℕ) (v : W)
        → Runs w v
        → Runs w
            (sync_templates hash_key settings x_api_key redis http fernet limiter describe collate
              fuel tenant_id v).1
    webhook_received :
        (body : String) (header : Option String) (json : Result Json) (v : W)
        → Runs w v
        → Runs w (on_table (λ s. (receive_webhook describe digest body header json s).1) v)
    webhook_processed :
        (event_id : ℕ) (v : W)
        → Runs w v
        → Runs w (on_table (λ s. (process_webhook describe event_id s).1) v)
    campaign_processed :
        (campaign_id : ℕ) (v : W)
        → Runs w v
        → Runs w (on_table (λ s. (process_campaign campaign_id s).1) v)
    recipient_processed :
        (recipient_id : ℕ) (v : W)
        → Runs w v
        → Runs w (send_recipient redis http fernet limiter settings describe recipient_id v).1
    elsewhere :
        (k : redis.State) (h : http.State) (v : W)
        → Runs w v
        → Runs w (record { db = v.db; counters = k; remote = h })

  -- If numbers are formatted in E.164 and read back, and every recipient of a campaign and every
  -- outbound message, flushed or not, has its phone in E.164, then so it is after any run: of the
  -- requests that write, those that send being validated, of webhooks, and of the tasks.
  pub Runs-Dialable : IsLawful lib → (w u : W) → Dialable w.db → Runs w u → Dialable u.db
  Runs-Dialable laws w u h at_first = h
  Runs-Dialable laws w u h (text_sent key raw p v e r) =
      (Keeps-post_text redis http fernet limiter settings describe hash_key key p
          (text-in_e164 lib laws raw p e)).at
        v (Runs-Dialable laws w v h r)
  Runs-Dialable laws w u h (template_sent key raw p v e r) =
      (Keeps-post_template redis http fernet limiter settings describe hash_key key urlparse p
          (template-in_e164 lib laws raw p e)).at
        v (Runs-Dialable laws w v h r)
  Runs-Dialable laws w u h (uploaded key campaign_id content_type csv v r) =
      (Keeps-post_recipients fernet hash_key settings key lib laws campaign_id content_type csv).at
        v.db (Runs-Dialable laws w v h r)
  Runs-Dialable laws w u h (commanded key command v r) =
      obey-Dialable fernet hash_key settings key command v.db (Runs-Dialable laws w v h r)
  Runs-Dialable laws w u h (templates_synced key fuel tenant_id v r) =
      (Keeps-sync_templates redis http fernet limiter settings describe hash_key key collate fuel
          tenant_id).at
        v (Runs-Dialable laws w v h r)
  Runs-Dialable laws w u h (webhook_received body header json v r) =
      (Keeps-receive_webhook describe digest body header json).at v.db (Runs-Dialable laws w v h r)
  Runs-Dialable laws w u h (webhook_processed event_id v r) =
      (Keeps-process_webhook describe event_id).at v.db (Runs-Dialable laws w v h r)
  Runs-Dialable laws w u h (campaign_processed campaign_id v r) =
      (Keeps-process_campaign campaign_id).at v.db (Runs-Dialable laws w v h r)
  Runs-Dialable laws w u h (recipient_processed recipient_id v r) =
      (Keeps-send_recipient redis http fernet limiter settings describe recipient_id).at v
        (Runs-Dialable laws w v h r)
  Runs-Dialable laws w u h (elsewhere k m v r) = Runs-Dialable laws w v h r
