-- ===== src/Migrations/ApiKeys.antt =====
-- alembic/versions/20260523_0002_api_keys.py
use whatsapp_api.Base.{false, List, [], ◌∷◌}
use whatsapp_api.Migrations.{
  boolean, integer, datetime, jsonb, string, Table, Op, create_table, drop_index, drop_table,
}
use whatsapp_api.Migrations.Columns.{
  required, optional, defaulted, foreign, id_column, distinct, index, unique_index,
}

abbrev pub api_keys_table : Table
api_keys_table = record {
  name = "api_keys";
  columns =
      id_column
      ∷ foreign "tenant_id" "tenants" "CASCADE" false
      ∷ distinct "key_hash" (string 64)
      ∷ required "key_prefix" (string 12)
      ∷ required "label" (string 150)
      ∷ optional "allowed_templates" jsonb
      ∷ defaulted "allowed_scopes" jsonb false "'[\"send_template\"]'::jsonb"
      ∷ defaulted "rate_limit_per_hour" integer false "60"
      ∷ defaulted "is_active" boolean false "true"
      ∷ optional "expires_at" datetime
      ∷ optional "last_used_at" datetime
      ∷ optional "revoked_at" datetime
      ∷ defaulted "created_at" datetime false "now()"
      ∷ defaulted "updated_at" datetime false "now()"
      ∷ [];
  uniques = [];
}

abbrev pub create_api_keys : List Op
create_api_keys =
    create_table api_keys_table
    ∷ index "ix_api_keys_tenant_id" "api_keys" ("tenant_id" ∷ [])
    ∷ unique_index "ix_api_keys_key_hash" "api_keys" ("key_hash" ∷ [])
    ∷ []

unfoldable pub upgrade : List Op
upgrade = create_api_keys

unfoldable pub downgrade : List Op
downgrade =
    drop_index "ix_api_keys_key_hash"
    ∷ drop_index "ix_api_keys_tenant_id"
    ∷ drop_table "api_keys"
    ∷ []
