-- ===== src/Migrations/Initial.antt =====
-- alembic/versions/20260507_0001_initial.py, whose tables are in Tables and Events.
use whatsapp_api.Base.{List, [], ◌∷◌, ◌++◌}
use whatsapp_api.Migrations.{Op, drop_index, drop_table, drop_type}
use whatsapp_api.Migrations.Tables.{
  create_types, create_tenants, create_templates, create_campaigns, create_campaign_recipients,
}
use whatsapp_api.Migrations.Events.{create_messages, create_webhook_events, create_contacts}

unfoldable pub upgrade : List Op
upgrade =
    create_types
    ++ (create_tenants
        ++ (create_templates
            ++ (create_campaigns
                ++ (create_campaign_recipients
                    ++ (create_messages ++ (create_webhook_events ++ (create_contacts)))))))

unfoldable pub downgrade : List Op
downgrade =
    drop_index "ix_contacts_phone"
    ∷ drop_index "ix_contacts_tenant_id"
    ∷ drop_table "contacts"
    ∷ drop_index "ix_webhook_events_created_at"
    ∷ drop_index "ix_webhook_events_processed"
    ∷ drop_index "ix_webhook_events_event_type"
    ∷ drop_index "ix_webhook_events_tenant_id"
    ∷ drop_table "webhook_events"
    ∷ drop_index "ix_messages_recipient"
    ∷ drop_index "ix_messages_tenant_status"
    ∷ drop_index "ix_messages_tenant_created"
    ∷ drop_index "ix_messages_campaign_recipient_id"
    ∷ drop_index "ix_messages_status"
    ∷ drop_index "ix_messages_wa_message_id"
    ∷ drop_index "ix_messages_direction"
    ∷ drop_index "ix_messages_tenant_id"
    ∷ drop_table "messages"
    ∷ drop_index "ix_campaign_recipients_campaign_status"
    ∷ drop_index "ix_campaign_recipients_wa_message_id"
    ∷ drop_index "ix_campaign_recipients_campaign_id"
    ∷ drop_table "campaign_recipients"
    ∷ drop_index "ix_campaigns_status"
    ∷ drop_index "ix_campaigns_tenant_id"
    ∷ drop_table "campaigns"
    ∷ drop_index "ix_templates_meta_template_id"
    ∷ drop_index "ix_templates_name"
    ∷ drop_index "ix_templates_tenant_id"
    ∷ drop_table "templates"
    ∷ drop_index "ix_tenants_deleted_at"
    ∷ drop_index "ix_tenants_phone_number_id"
    ∷ drop_index "ix_tenants_waba_id"
    ∷ drop_index "ix_tenants_slug"
    ∷ drop_table "tenants"
    ∷ drop_type "campaign_recipient_status"
    ∷ drop_type "campaign_status"
    ∷ drop_type "template_status"
    ∷ drop_type "template_category"
    ∷ drop_type "message_status"
    ∷ drop_type "message_type"
    ∷ drop_type "message_direction"
    ∷ drop_type "tenant_plan"
    ∷ []
