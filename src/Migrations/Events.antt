-- ===== src/Migrations/Events.antt =====
-- The messages, events and contacts of alembic/versions/20260507_0001_initial.py.
use whatsapp_api.Base.{true, false, List, [], ◌∷◌}
use whatsapp_api.Migrations.{
  uuid, boolean, integer, datetime, jsonb, long_text, string, enum, Table, Op, create_table,
}
use whatsapp_api.Migrations.Columns.{required, optional, defaulted, foreign, id_column, index}

abbrev messages_table : Table
messages_table = record {
  name = "messages";
  columns =
      id_column
      ∷ foreign "tenant_id" "tenants" "CASCADE" false
      ∷ required "direction" (enum "message_direction")
      ∷ optional "wa_message_id" (string 128)
      ∷ required "recipient_phone" (string 20)
      ∷ required "sender_phone" (string 20)
      ∷ required "message_type" (enum "message_type")
      ∷ defaulted "content" jsonb false "{}"
      ∷ optional "template_name" (string 150)
      ∷ optional "template_language" (string 20)
      ∷ defaulted "status" (enum "message_status") false "queued"
      ∷ optional "error_code" integer
      ∷ optional "error_message" long_text
      ∷ optional "meta_pricing" jsonb
      ∷ optional "sent_at" datetime
      ∷ optional "delivered_at" datetime
      ∷ optional "read_at" datetime
      ∷ optional "failed_at" datetime
      ∷ optional "campaign_recipient_id" uuid
      ∷ defaulted "created_at" datetime false "now()"
      ∷ defaulted "updated_at" datetime false "now()"
      ∷ [];
  uniques = [];
}

abbrev pub create_messages : List Op
create_messages =
    create_table messages_table
    ∷ index "ix_messages_tenant_id" "messages" ("tenant_id" ∷ [])
    ∷ index "ix_messages_direction" "messages" ("direction" ∷ [])
    ∷ index "ix_messages_wa_message_id" "messages" ("wa_message_id" ∷ [])
    ∷ index "ix_messages_status" "messages" ("status" ∷ [])
    ∷ index "ix_messages_campaign_recipient_id" "messages" ("campaign_recipient_id" ∷ [])
    ∷ index "ix_messages_tenant_created" "messages" ("tenant_id" ∷ "created_at" ∷ [])
    ∷ index "ix_messages_tenant_status" "messages" ("tenant_id" ∷ "status" ∷ [])
    ∷ index "ix_messages_recipient" "messages" ("recipient_phone" ∷ [])
    ∷ []

abbrev webhook_events_table : Table
webhook_events_table = record {
  name = "webhook_events";
  columns =
      id_column
      ∷ foreign "tenant_id" "tenants" "SET NULL" true
      ∷ required "event_type" (string 80)
      ∷ required "payload" jsonb
      ∷ defaulted "processed" boolean false "false"
      ∷ optional "processed_at" datetime
      ∷ optional "error" long_text
      ∷ defaulted "created_at" datetime false "now()"
      ∷ [];
  uniques = [];
}

abbrev pub create_webhook_events : List Op
create_webhook_events =
    create_table webhook_events_table
    ∷ index "ix_webhook_events_tenant_id" "webhook_events" ("tenant_id" ∷ [])
    ∷ index "ix_webhook_events_event_type" "webhook_events" ("event_type" ∷ [])
    ∷ index "ix_webhook_events_processed" "webhook_events" ("processed" ∷ [])
    ∷ index "ix_webhook_events_created_at" "webhook_events" ("created_at" ∷ [])
    ∷ []

abbrev contacts_table : Table
contacts_table = record {
  name = "contacts";
  columns =
      id_column
      ∷ foreign "tenant_id" "tenants" "CASCADE" false
      ∷ required "phone" (string 20)
      ∷ optional "name" (string 150)
      ∷ optional "email" (string 254)
      ∷ defaulted "attributes" jsonb false "{}"
      ∷ defaulted "opted_in" boolean false "true"
      ∷ optional "opted_in_at" datetime
      ∷ optional "opted_out_at" datetime
      ∷ optional "last_message_at" datetime
      ∷ defaulted "created_at" datetime false "now()"
      ∷ defaulted "updated_at" datetime false "now()"
      ∷ [];
  uniques = ("uq_contacts_tenant_phone", "tenant_id" ∷ "phone" ∷ []) ∷ [];
}

abbrev pub create_contacts : List Op
create_contacts =
    create_table contacts_table
    ∷ index "ix_contacts_tenant_id" "contacts" ("tenant_id" ∷ [])
    ∷ index "ix_contacts_phone" "contacts" ("phone" ∷ [])
    ∷ []
