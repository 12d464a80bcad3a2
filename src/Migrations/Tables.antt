-- ===== src/Migrations/Tables.antt =====
-- The types, the tenants, templates and campaigns of alembic/versions/20260507_0001_initial.py.
use whatsapp_api.Base.{true, false, List, [], ◌∷◌}
use whatsapp_api.Migrations.{
  boolean, integer, big_integer, datetime, jsonb, long_text, string, enum, Table, Op, create_type,
  create_table,
}
use whatsapp_api.Migrations.Columns.{
  required, optional, defaulted, foreign, id_column, index, unique_index,
}

abbrev pub create_types : List Op
create_types =
    create_type "tenant_plan" ("starter" ∷ "growth" ∷ "pro" ∷ "enterprise" ∷ [])
    ∷ create_type "message_direction" ("outbound" ∷ "inbound" ∷ [])
    ∷ create_type "message_type" (
        "text" ∷ "template" ∷ "image" ∷ "document" ∷ "audio" ∷ "video" ∷ "interactive" ∷ "location"
        ∷ "contacts" ∷ "reaction" ∷ "sticker" ∷ "unsupported" ∷ [])
    ∷ create_type "message_status" ("queued" ∷ "sent" ∷ "delivered" ∷ "read" ∷ "failed" ∷ [])
    ∷ create_type "template_category" ("utility" ∷ "marketing" ∷ "authentication" ∷ [])
    ∷ create_type "template_status"
        ("pending" ∷ "approved" ∷ "rejected" ∷ "paused" ∷ "disabled" ∷ [])
    ∷ create_type "campaign_status"
        ("draft" ∷ "scheduled" ∷ "running" ∷ "paused" ∷ "completed" ∷ "failed" ∷ "cancelled" ∷ [])
    ∷ create_type "campaign_recipient_status"
        ("queued" ∷ "sending" ∷ "sent" ∷ "delivered" ∷ "read" ∷ "failed" ∷ "skipped" ∷ [])
    ∷ []

abbrev tenants_table : Table
tenants_table = record {
  name = "tenants";
  columns =
      id_column
      ∷ required "name" (string 150)
      ∷ required "slug" (string 80)
      ∷ required "waba_id" (string 64)
      ∷ required "phone_number_id" (string 64)
      ∷ required "access_token" (string 2048)
      ∷ defaulted "is_active" boolean false "true"
      ∷ defaulted "plan" (enum "tenant_plan") false "starter"
      ∷ defaulted "monthly_message_limit" big_integer false "5000"
      ∷ defaulted "messages_sent_this_month" big_integer false "0"
      ∷ defaulted "created_at" datetime false "now()"
      ∷ defaulted "updated_at" datetime false "now()"
      ∷ optional "deleted_at" datetime
      ∷ [];
  uniques = [];
}

abbrev pub create_tenants : List Op
create_tenants =
    create_table tenants_table
    ∷ unique_index "ix_tenants_slug" "tenants" ("slug" ∷ [])
    ∷ index "ix_tenants_waba_id" "tenants" ("waba_id" ∷ [])
    ∷ index "ix_tenants_phone_number_id" "tenants" ("phone_number_id" ∷ [])
    ∷ index "ix_tenants_deleted_at" "tenants" ("deleted_at" ∷ [])
    ∷ []

abbrev templates_table : Table
templates_table = record {
  name = "templates";
  columns =
      id_column
      ∷ foreign "tenant_id" "tenants" "CASCADE" false
      ∷ required "name" (string 150)
      ∷ required "language" (string 20)
      ∷ required "category" (enum "template_category")
      ∷ defaulted "status" (enum "template_status") false "pending"
      ∷ defaulted "components" jsonb false "[]"
      ∷ optional "meta_template_id" (string 64)
      ∷ optional "last_synced_at" datetime
      ∷ defaulted "created_at" datetime false "now()"
      ∷ defaulted "updated_at" datetime false "now()"
      ∷ [];
  uniques = ("uq_templates_tenant_name_lang", "tenant_id" ∷ "name" ∷ "language" ∷ []) ∷ [];
}

abbrev pub create_templates : List Op
create_templates =
    create_table templates_table
    ∷ index "ix_templates_tenant_id" "templates" ("tenant_id" ∷ [])
    ∷ index "ix_templates_name" "templates" ("name" ∷ [])
    ∷ index "ix_templates_meta_template_id" "templates" ("meta_template_id" ∷ [])
    ∷ []

abbrev campaigns_table : Table
campaigns_table = record {
  name = "campaigns";
  columns =
      id_column
      ∷ foreign "tenant_id" "tenants" "CASCADE" false
      ∷ required "name" (string 200)
      ∷ required "template_name" (string 150)
      ∷ required "template_language" (string 20)
      ∷ defaulted "total_recipients" integer false "0"
      ∷ defaulted "sent_count" integer false "0"
      ∷ defaulted "delivered_count" integer false "0"
      ∷ defaulted "read_count" integer false "0"
      ∷ defaulted "failed_count" integer false "0"
      ∷ defaulted "status" (enum "campaign_status") false "draft"
      ∷ optional "scheduled_at" datetime
      ∷ optional "started_at" datetime
      ∷ optional "completed_at" datetime
      ∷ defaulted "error_log" jsonb true "[]"
      ∷ defaulted "created_at" datetime false "now()"
      ∷ defaulted "updated_at" datetime false "now()"
      ∷ [];
  uniques = [];
}

abbrev pub create_campaigns : List Op
create_campaigns =
    create_table campaigns_table
    ∷ index "ix_campaigns_tenant_id" "campaigns" ("tenant_id" ∷ [])
    ∷ index "ix_campaigns_status" "campaigns" ("status" ∷ [])
    ∷ []

abbrev campaign_recipients_table : Table
campaign_recipients_table = record {
  name = "campaign_recipients";
  columns =
      id_column
      ∷ foreign "campaign_id" "campaigns" "CASCADE" false
      ∷ required "phone" (string 20)
      ∷ defaulted "variables" jsonb false "{}"
      ∷ defaulted "status" (enum "campaign_recipient_status") false "queued"
      ∷ optional "wa_message_id" (string 128)
      ∷ optional "error_message" long_text
      ∷ optional "attempted_at" datetime
      ∷ optional "completed_at" datetime
      ∷ defaulted "attempt_count" integer false "0"
      ∷ defaulted "created_at" datetime false "now()"
      ∷ defaulted "updated_at" datetime false "now()"
      ∷ [];
  uniques = [];
}

abbrev pub create_campaign_recipients : List Op
create_campaign_recipients =
    create_table campaign_recipients_table
    ∷ index "ix_campaign_recipients_campaign_id" "campaign_recipients" ("campaign_id" ∷ [])
    ∷ index "ix_campaign_recipients_wa_message_id" "campaign_recipients" ("wa_message_id" ∷ [])
    ∷ index "ix_campaign_recipients_campaign_status" "campaign_recipients"
        ("campaign_id" ∷ "status" ∷ [])
    ∷ []
