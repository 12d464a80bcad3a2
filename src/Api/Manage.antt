-- ===== src/Api/Manage.antt =====
-- The endpoints of api/v1/templates.py, tenants.py, admin.py and health.py.
pub mod Laws
use whatsapp_api.Base.{ℕ, ◌-◌, Bool, not, ◌&&◌, String, Option, List, if◌then◌else◌}
use whatsapp_api.Base.Newest.{newest_first}
use whatsapp_api.Base.Exec.{Action, ◌>>=◌, ◌>>◌, gets, raise_if, pure}
use whatsapp_api.Errors.{Error, http_exception}
use whatsapp_api.Models.{Tenant, Template, TemplateStatus, ApiKey, Settings}
use whatsapp_api.Store.{Db}
use whatsapp_api.Tenants.{
  Fernet, TenantCreate, TenantUpdate, resolve, get, list_active, create, update, soft_delete,
}
use whatsapp_api.Client.{Http}
use whatsapp_api.RateLimiter.{Redis, RateLimiter}
use whatsapp_api.Auth.{
  AuthContext, ApiKeyCreate, authenticate, require_admin, create_api_key, revoke_api_key,
}
use whatsapp_api.Templates.{TemplateSyncResponse, list_for_tenant, get_by_name, sync_from_meta}
use whatsapp_api.Messages.{World}
use whatsapp_api.Api.{read_with, write_with, serve}

-- schemas/tenant.py; the percentage, a float, is not kept.
pub record TenantUsage : Type 0 where
  pub tenant_id : ℕ
  pub monthly_message_limit : ℕ
  pub messages_sent_this_month : ℕ
  pub remaining : ℕ

-- `max(0, limit - sent)`
abbrev usage_of : Tenant → TenantUsage
usage_of t = record {
  tenant_id = t.id;
  monthly_message_limit = t.monthly_message_limit;
  messages_sent_this_month = t.messages_sent_this_month;
  remaining = t.monthly_message_limit - t.messages_sent_this_month;
}

unfoldable pub multi_tenant_off : Error
multi_tenant_off = http_exception 403 "Multi-tenant mode is disabled (set ENABLE_MULTI_TENANT=True)"

-- `_ensure_multi_tenant`
unfoldable pub ensure_multi_tenant : Settings → Action Db (Unit {0})
ensure_multi_tenant settings = raise_if (not settings.enable_multi_tenant) multi_tenant_off

module _ (hash_key : String → String) (settings : Settings) (x_api_key : Option String) where
  abbrev with_key : Action Db AuthContext
  with_key = authenticate hash_key settings x_api_key

  abbrev as_admin : Action Db AuthContext
  as_admin = require_admin hash_key settings x_api_key

  unfoldable list_templates :
      (String → String → Bool) → Option ℕ → Option TemplateStatus → Action Db (List Template)
  list_templates collate tenant_id status =
      read_with with_key
        (do t ← resolve settings tenant_id; gets (list_for_tenant collate t.id status))

  unfoldable get_template : Option ℕ → String → String → Action Db Template
  get_template tenant_id name language =
      read_with with_key (do t ← resolve settings tenant_id; get_by_name t.id name language)

  unfoldable pub sync_templates :
      (redis : Redis) (http : Http)
      → Option Fernet
      → RateLimiter
      → (Error → String)
      → (String → String → Bool)
      → ℕ
      → Option ℕ
      → Action (World redis http) TemplateSyncResponse
  sync_templates redis http fernet limiter describe collate fuel tenant_id =
      serve redis http with_key
        (λ _. sync_from_meta redis http fernet limiter settings describe collate fuel tenant_id)

  unfoldable list_tenants : Action Db (List Tenant)
  list_tenants = read_with with_key list_active

  unfoldable pub create_tenant : Option Fernet → TenantCreate → Action Db Tenant
  create_tenant fernet payload =
      write_with with_key (ensure_multi_tenant settings >> create fernet payload)

  unfoldable get_tenant : ℕ → Action Db Tenant
  get_tenant tenant_id = read_with with_key (get tenant_id)

  unfoldable pub update_tenant : Option Fernet → ℕ → TenantUpdate → Action Db Tenant
  update_tenant fernet tenant_id payload =
      write_with with_key (ensure_multi_tenant settings >> update fernet tenant_id payload)

  -- The envelope of the answer is not kept.
  unfoldable pub delete_tenant : ℕ → Action Db (Unit {0})
  delete_tenant tenant_id =
      write_with with_key (ensure_multi_tenant settings >> soft_delete tenant_id)

  unfoldable get_usage : ℕ → Action Db TenantUsage
  get_usage tenant_id = read_with with_key (do t ← get tenant_id; pure (usage_of t))

  -- The key's row and its plaintext, from the random text `raw`.
  unfoldable pub mint_api_key : ApiKeyCreate → String → Action Db (ApiKey × String)
  mint_api_key payload raw = write_with as_admin (create_api_key hash_key settings payload raw)

  unfoldable list_api_keys : Action Db (List ApiKey)
  list_api_keys =
      read_with as_admin (gets (λ (s : Db). newest_first (λ (k : ApiKey). k.created_at) s.api_keys))

  unfoldable pub post_revoke : ℕ → Action Db ApiKey
  post_revoke api_key_id = write_with as_admin (revoke_api_key api_key_id)

-- schemas/common.py; the version and the environment are not kept.
pub record HealthStatus : Type 0 where
  pub status : String
  pub db : String
  pub redis : String

abbrev reached : Bool → String
reached b = if b then "ok" else "unreachable"

-- The two probes' answers are parameters.
unfoldable healthcheck : Bool → Bool → HealthStatus
healthcheck db_ok redis_ok = record {
  status = if db_ok && redis_ok then "ok" else "degraded";
  db = reached db_ok;
  redis = reached redis_ok;
}

unfoldable readiness : Bool → String
readiness db_ok = if not db_ok then "not_ready" else "ready"
