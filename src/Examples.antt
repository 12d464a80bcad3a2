-- ===== src/Examples.antt =====
-- The concrete data of the examples: a small database, a JSON payload, and instances of the
-- interfaces of the packages.
mod Platform
mod Utils
mod Calls
mod Accounts
mod Reports
mod Bulk
mod Lines
mod Work
mod Sync
mod Requests
mod Runs
use whatsapp_api.Base.{
  ◌+◌, Bool, true, false, String, ◌<>◌, Option, none, some, [], ◌∷◌, str_eq, ◌==◌, if◌then◌else◌,
  refl, ◌≡◌,
}
use whatsapp_api.Base.Int.{pos}
use whatsapp_api.Json.{Json, null, str, num, arr, obj, Items, field, end}
use whatsapp_api.Models.{
  Tenant, Campaign, CampaignStatus, CampaignRecipient, CampaignRecipientStatus, Message,
  MessageDirection, MessageStatus, MessageType, WebhookEvent, ApiKey, Settings,
}
use whatsapp_api.Store.{Db}
use whatsapp_api.Store.Laws.{IsClean}
use whatsapp_api.Utils.Phone.{PhoneLib, IsLawful, plus_digits}
use whatsapp_api.Base.Text.{codes}

abbrev pub acme : Tenant
acme = record {
  id = 1;
  created_at = 10;
  deleted_at = none;
  name = "Acme";
  slug = "acme";
  waba_id = "w1";
  phone_number_id = "100";
  access_token = "token";
  is_active = true;
  plan = "free";
  monthly_message_limit = 1000;
  messages_sent_this_month = 10;
}

abbrev closed_shop : Tenant
closed_shop = record acme {
  id = 2;
  slug = "closed";
  waba_id = "w2";
  phone_number_id = "200";
  deleted_at = some 20;
}

abbrev pub spring : Campaign
spring = record {
  id = 5;
  created_at = 30;
  tenant_id = 1;
  name = "Spring";
  template_name = "offer";
  template_language = "en_US";
  total_recipients = 2;
  sent_count = 2;
  delivered_count = 0;
  read_count = 0;
  failed_count = 0;
  status = CampaignStatus.running;
  scheduled_at = none;
  started_at = none;
  completed_at = none;
}

abbrev pub summer : Campaign
summer = record spring {
  id = 6;
  name = "Summer";
  total_recipients = 0;
  sent_count = 0;
  status = CampaignStatus.draft;
}

abbrev pub first_recipient : CampaignRecipient
first_recipient = record {
  id = 7;
  created_at = 40;
  campaign_id = 5;
  phone = "+14155552671";
  variables = [];
  status = CampaignRecipientStatus.sent;
  wa_message_id = str "m1";
  error_message = none;
  attempted_at = none;
  completed_at = none;
  attempt_count = 1;
}

abbrev pub first_message : Message
first_message = record {
  id = 8;
  created_at = 50;
  tenant_id = 1;
  direction = MessageDirection.outbound;
  wa_message_id = str "m1";
  recipient_phone = str "+14155552671";
  sender_phone = str "100";
  message_type = MessageType.template;
  content = null;
  template_name = some "offer";
  template_language = some "en_US";
  status = MessageStatus.sent;
  error_code = null;
  error_message = null;
  meta_pricing = null;
  sent_at = some 60;
  delivered_at = none;
  read_at = none;
  failed_at = none;
  campaign_recipient_id = some 7;
}

abbrev one_field : String → Json → Json
one_field k v = obj (field k v end)

abbrev one_item : Json → Json
one_item j = arr (Items.cons j Items.nil)

abbrev pub read_report : Json
read_report =
    obj
      (field "id" (str "m1") (field "status" (str "read") (field "timestamp" (num (pos 900)) end)))

abbrev pub read_event : WebhookEvent
read_event = record {
  id = 9;
  tenant_id = some 1;
  event_type = str "messages";
  payload = one_field "entry" (
      one_item (
        one_field "changes" (
          one_item (
            obj (
              field "field" (str "messages")
                (field "value" (one_field "statuses" (one_item read_report)) end))))));
  processed = false;
  processed_at = none;
  error = none;
}

abbrev pub client_key : ApiKey
client_key = record {
  id = 11;
  created_at = 70;
  tenant_id = 1;
  key_hash = "#secret";
  key_prefix = "sec";
  label = "client";
  allowed_templates = none;
  allowed_scopes = "messages:send" ∷ [];
  rate_limit_per_hour = 100;
  is_active = true;
  expires_at = none;
  last_used_at = none;
  revoked_at = none;
}

abbrev pub shop : Db
shop = record {
  now = 1000;
  next_id = 50;
  tenants = acme ∷ closed_shop ∷ [];
  templates = [];
  campaigns = spring ∷ summer ∷ [];
  recipients = first_recipient ∷ [];
  messages = first_message ∷ [];
  pending = [];
  events = read_event ∷ [];
  api_keys = client_key ∷ [];
}

abbrev pub quiet_shop : Db
quiet_shop = record shop { campaigns = summer ∷ [] }

pub shop-IsClean : IsClean shop
shop-IsClean = record { nothing_pending = refl; storable = refl }

abbrev pub settings : Settings
settings = record {
  is_production = true;
  api_key = some "admin";
  enable_multi_tenant = true;
  default_tenant_slug = "acme";
  meta_app_secret = "app";
  meta_webhook_verify_token = "verify";
  meta_max_messages_per_second = 80;
  meta_max_burst_per_recipient = 45;
  meta_api_base_url = "https://graph.facebook.com";
  meta_api_version = "v21.0";
}

-- A package of phone numbers that knows two.
abbrev written : Bool → String
written true = "+14155552671"
written false = "+919876543210"

abbrev read_number : String → Option Bool
read_number s =
    if str_eq s "+14155552671"
    then some true
    else if str_eq s "+919876543210"
    then some false
    else none

abbrev pub two_phones : PhoneLib
two_phones = record {
  Number = Bool;
  parse = λ s region. read_number s;
  is_valid_number = λ n. true;
  format_e164 = written;
}

pub two_phones-IsLawful : IsLawful two_phones
unfolding str_eq
two_phones-IsLawful = record { format_shape = shape; parse-format = parsed }
  where
    shape : (n : Bool) → plus_digits (codes (written n)) ≡ true
    shape true = refl
    shape false = refl

    parsed : (n : Bool) → read_number (written n) ≡ some n
    parsed true = refl
    parsed false = refl
