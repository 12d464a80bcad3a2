-- ===== src/Tenants.antt =====
-- services/tenant_service.py: `TenantService`, with the request schemas of schemas/tenant.py.
-- The package `cryptography` is the parameter `fernet`: none where no valid key is set.
pub mod Kept
pub mod Quota
pub mod Lookup
pub mod Crud
pub mod Seed
use whatsapp_api.Base.{
  ℕ, ◌+◌, ◌≤◌, ◌≡◌, Bool, true, false, not, ◌&&◌, String, ◌<>◌, Option, none, some, List, [], ◌∷◌,
  ◌++◌, select, exists, leb, ◌==◌, str_eq, if◌then◌else◌,
}
use whatsapp_api.Base.Exec.{
  ok, err, Action, ◌>>=◌, ◌>>◌, pure, raise, gets, modify, raise_if, or_raise,
}
use whatsapp_api.Errors.{
  plain, saying, tenant_not_found, tenant_quota_exceeded, conflict, integrity_error,
}
use whatsapp_api.Models.{Tenant, Settings}
use whatsapp_api.Store.{Db, one_or_none, get_tenant, put_tenant, flush}

-- `decrypt` has no value where it raises `InvalidToken`.
pub record Fernet : Type 0 where
  pub encrypt_text : String → String
  pub decrypt_text : String → Option String

-- What the package promises.
pub record IsLawful (f : Fernet) : Type 0 where
  pub decrypt-encrypt : (s : String) → f.decrypt_text (f.encrypt_text s) ≡ some s

-- `tenant.deleted_at is None`
abbrev pub is_live : Tenant → Bool
is_live t = elim t.deleted_at [ none ↦ true | some _ ↦ false ]

abbrev pub live_or_missing : Option Tenant → Action Db Tenant
live_or_missing none = raise (plain tenant_not_found)
live_or_missing (some t) = if is_live t then pure t else raise (plain tenant_not_found)

unfoldable pub get : ℕ → Action Db Tenant
get tenant_id s = live_or_missing (get_tenant tenant_id s) s

-- The rows of a `select(Tenant).where(..., Tenant.deleted_at.is_(None))`.
abbrev pub live_where : (Tenant → Bool) → Db → List Tenant
live_where p s = select (λ t. p t && is_live t) s.tenants

unfoldable pub get_by_slug : String → Action Db (Option Tenant)
get_by_slug slug s = (one_or_none (live_where (λ t. str_eq t.slug slug) s), s)

unfoldable pub get_by_phone_number_id : String → Action Db (Option Tenant)
get_by_phone_number_id phone_number_id s =
    (one_or_none (live_where (λ t. str_eq t.phone_number_id phone_number_id) s), s)

unfoldable pub get_by_waba_id : String → Action Db (Option Tenant)
get_by_waba_id waba_id s = (one_or_none (live_where (λ t. str_eq t.waba_id waba_id) s), s)

unfoldable pub get_default : Settings → Action Db Tenant
get_default settings = do
  found ← get_by_slug settings.default_tenant_slug
  or_raise found (saying tenant_not_found "Default tenant not seeded — run scripts/seed_data.py")

unfoldable pub resolve : Settings → Option ℕ → Action Db Tenant
resolve settings (some tenant_id) = get tenant_id
resolve settings none = get_default settings

-- The rows stand in the order of `created_at`.
unfoldable pub list_active : Action Db (List Tenant)
list_active s = (ok (select is_live s.tenants), s)

unfoldable pub assert_quota : Tenant → Action Db (Unit {0})
assert_quota t =
    raise_if (leb t.monthly_message_limit t.messages_sent_this_month) (plain tenant_quota_exceeded)

abbrev pub used : Option Tenant → ℕ → Db → Db
used none count s = s
used (some t) count s =
    put_tenant (record t { messages_sent_this_month = t.messages_sent_this_month + count }) s

unfoldable pub increment_usage : ℕ → ℕ → Action Db (Unit {0})
increment_usage tenant_id count s = flush (used (get_tenant tenant_id s) count s)

-- `TenantCreate`
pub record TenantCreate : Type 0 where
  pub name : String
  pub slug : String
  pub waba_id : String
  pub phone_number_id : String
  pub access_token : String
  pub plan : String
  pub monthly_message_limit : ℕ

-- `TenantUpdate`: a field that is `None` or unset is `none`.
pub record TenantUpdate : Type 0 where
  pub name : Option String
  pub is_active : Option Bool
  pub plan : Option String
  pub monthly_message_limit : Option ℕ
  pub access_token : Option String

abbrev assigned {ℓ} : {A : Type ℓ} → Option A → A → A
assigned none old = old
assigned (some v) old = v

-- `session.add` and `flush`: the column `slug` is unique, soft-deleted rows included.
unfoldable pub insert_tenant : Tenant → Action Db Tenant
insert_tenant t s =
    if exists (λ (o : Tenant). str_eq o.slug t.slug) s.tenants
    then (err integrity_error, s)
    else (ok t, record s { tenants = s.tenants ++ (t ∷ []); next_id = s.next_id + 1 })

abbrev is_some {ℓ} : {A : Type ℓ} → Option A → Bool
is_some none = false
is_some (some _) = true

module _ (fernet : Option Fernet) where
  unfoldable pub encrypt : String → String
  encrypt plaintext = elim fernet [ none ↦ plaintext | some f ↦ f.encrypt_text plaintext ]

  abbrev or_ciphertext : Option String → String → String
  or_ciphertext none ciphertext = ciphertext
  or_ciphertext (some s) ciphertext = s

  unfoldable pub decrypt : String → String
  decrypt ciphertext = elim fernet [
    | none ↦ ciphertext
    | some f ↦ or_ciphertext (f.decrypt_text ciphertext) ciphertext
  ]

  unfoldable pub new_tenant : TenantCreate → Db → Tenant
  new_tenant p s = record {
    id = s.next_id;
    created_at = s.now;
    deleted_at = none;
    name = p.name;
    slug = p.slug;
    waba_id = p.waba_id;
    phone_number_id = p.phone_number_id;
    access_token = encrypt p.access_token;
    is_active = true;
    plan = p.plan;
    monthly_message_limit = p.monthly_message_limit;
    messages_sent_this_month = 0;
  }

  unfoldable pub create : TenantCreate → Action Db Tenant
  create p = do
    found ← get_by_slug p.slug
    raise_if (is_some found) (saying conflict ("Tenant slug '" <> (p.slug <> "' already exists")))
    t ← gets (new_tenant p)
    insert_tenant t

  abbrev new_token : Option String → String → String
  new_token none old = old
  new_token (some v) old = encrypt v

  -- The loop over `fields`.
  unfoldable pub updated : TenantUpdate → Tenant → Tenant
  updated u t = record t {
    name = assigned u.name t.name;
    is_active = assigned u.is_active t.is_active;
    plan = assigned u.plan t.plan;
    monthly_message_limit = assigned u.monthly_message_limit t.monthly_message_limit;
    access_token = new_token u.access_token t.access_token;
  }

  unfoldable pub update : ℕ → TenantUpdate → Action Db Tenant
  update tenant_id u = do
    t ← get tenant_id
    modify (put_tenant (updated u t))
    flush
    pure (updated u t)

unfoldable pub soft_delete : ℕ → Action Db (Unit {0})
soft_delete tenant_id = do
  t ← get tenant_id
  now ← gets (λ (s : Db). s.now)
  modify (put_tenant (record t { deleted_at = some now; is_active = false }))
  flush
