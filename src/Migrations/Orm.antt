-- ===== src/Migrations/Orm.antt =====
-- models/: the tables that the program's models declare, with the name, the type, the nullability
-- and the reference of each column. The columns of the mixins stand where the migrations have them.
use whatsapp_api.Base.{Bool, true, false, String, Option, none, some, List, [], ◌∷◌, ◌++◌, map}
use whatsapp_api.Migrations.{
  ColumnType, uuid, boolean, integer, big_integer, datetime, jsonb, long_text, string, enum, Column,
  Table,
}

-- `mapped_column`
pub record Mapped : Type 0 where
  pub name : String
  pub type : ColumnType
  pub nullable : Bool
  pub references : Option (String × String)

abbrev plain_column : String → ColumnType → Bool → Mapped
plain_column n t nullable = record { name = n; type = t; nullable = nullable; references = none }

abbrev foreign_key : String → String → String → Bool → Mapped
foreign_key n table ondelete nullable = record {
  name = n;
  type = uuid;
  nullable = nullable;
  references = some (table, ondelete);
}

abbrev uuid_primary_key : List Mapped
uuid_primary_key = plain_column "id" uuid false ∷ []

abbrev timestamps : List Mapped
timestamps =
    plain_column "created_at" datetime false ∷ plain_column "updated_at" datetime false ∷ []

abbrev deleted_column : List Mapped
deleted_column = plain_column "deleted_at" datetime true ∷ []

abbrev tenant_model : String × List Mapped
tenant_model = (
  "tenants",
  uuid_primary_key
      ++ ((plain_column "name" (string 150) false
            ∷ plain_column "slug" (string 80) false
            ∷ plain_column "waba_id" (string 64) false
            ∷ plain_column "phone_number_id" (string 64) false
            ∷ plain_column "access_token" (string 2048) false
            ∷ plain_column "is_active" boolean false
            ∷ plain_column "plan" (enum "tenant_plan") false
            ∷ plain_column "monthly_message_limit" big_integer false
            ∷ plain_column "messages_sent_this_month" big_integer false
            ∷ [])
          ++ (timestamps ++ deleted_column)),
)

abbrev template_model : String × List Mapped
template_model = (
  "templates",
  uuid_primary_key
      ++ ((foreign_key "tenant_id" "tenants" "CASCADE" false
            ∷ plain_column "name" (string 150) false
            ∷ plain_column "language" (string 20) false
            ∷ plain_column "category" (enum "template_category") false
            ∷ plain_column "status" (enum "template_status") false
            ∷ plain_column "components" jsonb false
            ∷ plain_column "meta_template_id" (string 64) true
            ∷ plain_column "last_synced_at" datetime true
            ∷ [])
          ++ timestamps),
)

abbrev campaign_model : String × List Mapped
campaign_model = (
  "campaigns",
  uuid_primary_key
      ++ ((foreign_key "tenant_id" "tenants" "CASCADE" false
            ∷ plain_column "name" (string 200) false
            ∷ plain_column "template_name" (string 150) false
            ∷ plain_column "template_language" (string 20) false
            ∷ plain_column "total_recipients" integer false
            ∷ plain_column "sent_count" integer false
            ∷ plain_column "delivered_count" integer false
            ∷ plain_column "read_count" integer false
            ∷ plain_column "failed_count" integer false
            ∷ plain_column "status" (enum "campaign_status") false
            ∷ plain_column "scheduled_at" datetime true
            ∷ plain_column "started_at" datetime true
            ∷ plain_column "completed_at" datetime true
            ∷ plain_column "error_log" jsonb true
            ∷ [])
          ++ timestamps),
)

abbrev recipient_model : String × List Mapped
recipient_model = (
  "campaign_recipients",
  uuid_primary_key
      ++ ((foreign_key "campaign_id" "campaigns" "CASCADE" false
            ∷ plain_column "phone" (string 20) false
            ∷ plain_column "variables" jsonb false
            ∷ plain_column "status" (enum "campaign_recipient_status") false
            ∷ plain_column "wa_message_id" (string 128) true
            ∷ plain_column "error_message" long_text true
            ∷ plain_column "attempted_at" datetime true
            ∷ plain_column "completed_at" datetime true
            ∷ plain_column "attempt_count" integer false
            ∷ [])
          ++ timestamps),
)

abbrev message_model : String × List Mapped
message_model = (
  "messages",
  uuid_primary_key
      ++ ((foreign_key "tenant_id" "tenants" "CASCADE" false
            ∷ plain_column "direction" (enum "message_direction") false
            ∷ plain_column "wa_message_id" (string 128) true
            ∷ plain_column "recipient_phone" (string 20) false
            ∷ plain_column "sender_phone" (string 20) false
            ∷ plain_column "message_type" (enum "message_type") false
            ∷ plain_column "content" jsonb false
            ∷ plain_column "template_name" (string 150) true
            ∷ plain_column "template_language" (string 20) true
            ∷ plain_column "status" (enum "message_status") false
            ∷ plain_column "error_code" integer true
            ∷ plain_column "error_message" long_text true
            ∷ plain_column "meta_pricing" jsonb true
            ∷ plain_column "sent_at" datetime true
            ∷ plain_column "delivered_at" datetime true
            ∷ plain_column "read_at" datetime true
            ∷ plain_column "failed_at" datetime true
            ∷ plain_column "campaign_recipient_id" uuid true
            ∷ [])
          ++ timestamps),
)

abbrev event_model : String × List Mapped
event_model = (
  "webhook_events",
  uuid_primary_key
      ++ (foreign_key "tenant_id" "tenants" "SET NULL" true
          ∷ plain_column "event_type" (string 80) false
          ∷ plain_column "payload" jsonb false
          ∷ plain_column "processed" boolean false
          ∷ plain_column "processed_at" datetime true
          ∷ plain_column "error" long_text true
          ∷ plain_column "created_at" datetime false
          ∷ []),
)

abbrev contact_model : String × List Mapped
contact_model = (
  "contacts",
  uuid_primary_key
      ++ ((foreign_key "tenant_id" "tenants" "CASCADE" false
            ∷ plain_column "phone" (string 20) false
            ∷ plain_column "name" (string 150) true
            ∷ plain_column "email" (string 254) true
            ∷ plain_column "attributes" jsonb false
            ∷ plain_column "opted_in" boolean false
            ∷ plain_column "opted_in_at" datetime true
            ∷ plain_column "opted_out_at" datetime true
            ∷ plain_column "last_message_at" datetime true
            ∷ [])
          ++ timestamps),
)

abbrev api_key_model : String × List Mapped
api_key_model = (
  "api_keys",
  uuid_primary_key
      ++ ((foreign_key "tenant_id" "tenants" "CASCADE" false
            ∷ plain_column "key_hash" (string 64) false
            ∷ plain_column "key_prefix" (string 12) false
            ∷ plain_column "label" (string 150) false
            ∷ plain_column "allowed_templates" jsonb true
            ∷ plain_column "allowed_scopes" jsonb false
            ∷ plain_column "rate_limit_per_hour" integer false
            ∷ plain_column "is_active" boolean false
            ∷ plain_column "expires_at" datetime true
            ∷ plain_column "last_used_at" datetime true
            ∷ plain_column "revoked_at" datetime true
            ∷ [])
          ++ timestamps),
)

-- The tables of the program, the one of the last migration first.
abbrev pub model_tables : List (String × List Mapped)
model_tables =
    api_key_model ∷ contact_model ∷ event_model ∷ message_model ∷ recipient_model ∷ campaign_model
    ∷ template_model ∷ tenant_model ∷ []

abbrev as_mapped : Column → Mapped
as_mapped c = record {
  name = c.name;
  type = c.type;
  nullable = c.nullable;
  references = c.references;
}

-- What a table of the database has of a model.
abbrev pub as_model : Table → String × List Mapped
as_model t = (t.name, map as_mapped t.columns)
