-- ===== src/Models.antt =====
-- The tables of src/models, a record for a row. `updated_at`, `__repr__` and the relationships are
-- not kept. An id is a number, a time is a number of seconds, and `created_at` is the row's time.
-- A column that a webhook fills with whatever the payload holds keeps a `Json`.
mod Enums
unfoldable pub use Enums.*
use whatsapp_api.Base.{ℕ, Bool, String, Option, List}
use whatsapp_api.Json.{Json}

-- models/tenant.py
pub record Tenant : Type 0 where
  pub id : ℕ
  pub created_at : ℕ
  pub deleted_at : Option ℕ
  pub name : String
  pub slug : String
  pub waba_id : String
  pub phone_number_id : String
  pub access_token : String
  pub is_active : Bool
  pub plan : String
  pub monthly_message_limit : ℕ
  pub messages_sent_this_month : ℕ

-- models/template.py
pub record Template : Type 0 where
  pub id : ℕ
  pub tenant_id : ℕ
  pub name : String
  pub language : String
  pub category : TemplateCategory
  pub status : TemplateStatus
  pub components : Json
  pub meta_template_id : Json
  pub last_synced_at : Option ℕ

-- models/campaign.py
pub record Campaign : Type 0 where
  pub id : ℕ
  pub created_at : ℕ
  pub tenant_id : ℕ
  pub name : String
  pub template_name : String
  pub template_language : String
  pub total_recipients : ℕ
  pub sent_count : ℕ
  pub delivered_count : ℕ
  pub read_count : ℕ
  pub failed_count : ℕ
  pub status : CampaignStatus
  pub scheduled_at : Option ℕ
  pub started_at : Option ℕ
  pub completed_at : Option ℕ

-- models/campaign.py. `variables` is a dict.
pub record CampaignRecipient : Type 0 where
  pub id : ℕ
  pub created_at : ℕ
  pub campaign_id : ℕ
  pub phone : String
  pub variables : List (String × Json)
  pub status : CampaignRecipientStatus
  pub wa_message_id : Json
  pub error_message : Option String
  pub attempted_at : Option ℕ
  pub completed_at : Option ℕ
  pub attempt_count : ℕ

-- models/message.py
pub record Message : Type 0 where
  pub id : ℕ
  pub created_at : ℕ
  pub tenant_id : ℕ
  pub direction : MessageDirection
  pub wa_message_id : Json
  pub recipient_phone : Json
  pub sender_phone : Json
  pub message_type : MessageType
  pub content : Json
  pub template_name : Option String
  pub template_language : Option String
  pub status : MessageStatus
  pub error_code : Json
  pub error_message : Json
  pub meta_pricing : Json
  pub sent_at : Option ℕ
  pub delivered_at : Option ℕ
  pub read_at : Option ℕ
  pub failed_at : Option ℕ
  pub campaign_recipient_id : Option ℕ

-- models/webhook_event.py
pub record WebhookEvent : Type 0 where
  pub id : ℕ
  pub tenant_id : Option ℕ
  pub event_type : Json
  pub payload : Json
  pub processed : Bool
  pub processed_at : Option ℕ
  pub error : Option String

-- models/api_key.py
pub record ApiKey : Type 0 where
  pub id : ℕ
  pub created_at : ℕ
  pub tenant_id : ℕ
  pub key_hash : String
  pub key_prefix : String
  pub label : String
  pub allowed_templates : Option (List String)
  pub allowed_scopes : List String
  pub rate_limit_per_hour : ℕ
  pub is_active : Bool
  pub expires_at : Option ℕ
  pub last_used_at : Option ℕ
  pub revoked_at : Option ℕ

-- The fields of config.py that the modelled code reads. An unset optional text is `none`.
pub record Settings : Type 0 where
  pub is_production : Bool
  pub api_key : Option String
  pub enable_multi_tenant : Bool
  pub default_tenant_slug : String
  pub meta_app_secret : String
  pub meta_webhook_verify_token : String
  pub meta_max_messages_per_second : ℕ
  pub meta_max_burst_per_recipient : ℕ
  pub meta_api_base_url : String
  pub meta_api_version : String
