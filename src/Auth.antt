-- ===== src/Auth.antt =====
-- auth.py, and the key endpoints of api/v1/admin.py. `hash_key` (SHA-256) and the random text of
-- `secrets.token_urlsafe` are parameters. `hmac.compare_digest` is that of the webhook signature.
pub mod Kept
pub mod Keys
pub mod Access
use whatsapp_api.Base.{
  ℕ, zero, suc, ◌+◌, ◌*◌, ◌<◌, Bool, true, false, not, ◌&&◌, ◌||◌, String, ◌<>◌, Option, none, some,
  List, [], ◌∷◌, ◌++◌, select, exists, ltb, ◌==◌, str_eq, if◌then◌else◌,
}
use whatsapp_api.Base.Text.{codes, is_empty}
use whatsapp_api.Base.Exec.{Result, ok, err, Action, ◌>>=◌, ◌>>◌, pure, raise, lift, gets, modify}
use whatsapp_api.Errors.{http_exception}
use whatsapp_api.Models.{ApiKey, Settings, Tenant}
use whatsapp_api.Store.{Db, one_or_none, find_by, put_api_key, flush}
use whatsapp_api.Webhooks.Signature.{compare_digest}
use whatsapp_api.Tenants.{resolve}

pub record AuthContext : Type 0 where
  pub is_admin : Bool
  pub api_key_id : Option ℕ
  pub tenant_id : Option ℕ
  pub allowed_templates : Option (List String)
  pub allowed_scopes : List String
  pub label : Option String

-- `x in xs`
abbrev contains : List String → String → Bool
contains xs x = exists (λ y. str_eq y x) xs

-- `x in xs`, for an optional list that may be `None`; `unset` is the answer for none and for `[]`.
abbrev listed : Bool → Option (List String) → String → Bool
listed unset none x = unset
listed unset (some []) x = unset
listed unset (some (y ∷ ys)) x = contains (y ∷ ys) x

-- `AuthContext.template_allowed`
unfoldable pub template_allowed : AuthContext → String → Bool
template_allowed ctx name = if ctx.is_admin then true else listed false ctx.allowed_templates name

-- `AuthContext.has_scope`
unfoldable pub has_scope : AuthContext → String → Bool
has_scope ctx scope = if ctx.is_admin then true else contains ctx.allowed_scopes scope

-- `ApiKey.template_allowed` and `ApiKey.has_scope` of models/api_key.py.
unfoldable pub key_template_allowed : ApiKey → String → Bool
key_template_allowed k name = listed true k.allowed_templates name

unfoldable pub key_has_scope : ApiKey → String → Bool
key_has_scope k scope = contains k.allowed_scopes scope

-- `AuthContext(is_admin=True, label=label)`
abbrev pub admin_context : String → AuthContext
admin_context label = record {
  is_admin = true;
  api_key_id = none;
  tenant_id = none;
  allowed_templates = none;
  allowed_scopes = [];
  label = some label;
}

abbrev pub key_context : ApiKey → AuthContext
key_context k = record {
  is_admin = false;
  api_key_id = some k.id;
  tenant_id = some k.tenant_id;
  allowed_templates = k.allowed_templates;
  allowed_scopes = k.allowed_scopes;
  label = some k.label;
}

-- `bool(s)` of an optional text.
abbrev pub is_set : Option String → Bool
is_set none = false
is_set (some s) = not (is_empty s)

unfoldable pub admin_matches : Settings → String → Result Bool
admin_matches settings provided = elim settings.api_key [
  | none ↦ ok false
  | some expected ↦
      if is_empty expected then ok false else compare_digest (codes provided) (codes expected)
]

-- `record.revoked_at is not None`
abbrev pub is_some {ℓ} : {A : Type ℓ} → Option A → Bool
is_some none = false
is_some (some _) = true

-- `record.expires_at and record.expires_at < now`
abbrev pub is_past : Option ℕ → ℕ → Bool
is_past none now = false
is_past (some t) now = ltb t now

-- `record.last_used_at = now`, and the context of the key.
unfoldable pub stamp_use : ApiKey → Action Db AuthContext
stamp_use k = do
  now ← gets (λ (s : Db). s.now)
  modify (put_api_key (record k { last_used_at = some now }))
  flush
  pure (key_context k)

-- The outcome by the two tests: is the key revoked, and is it expired.
abbrev pub admit_checked : Bool → Bool → ApiKey → Action Db AuthContext
admit_checked true _ k = raise (http_exception 401 "API key revoked")
admit_checked false true k = raise (http_exception 401 "API key expired")
admit_checked false false k = stamp_use k

abbrev pub is_revoked : ApiKey → Bool
is_revoked k = not k.is_active || is_some k.revoked_at

-- The checks on the row that has the key's hash.
unfoldable pub admit : Option ApiKey → Action Db AuthContext
admit none s = (err (http_exception 401 "Invalid X-API-Key"), s)
admit (some k) s = admit_checked (is_revoked k) (is_past k.expires_at s.now) k s

-- A request with no key.
unfoldable pub anonymous : Settings → Action Db AuthContext
anonymous settings =
    if not (is_set settings.api_key) && not settings.is_production
    then pure (admin_context "dev-anon")
    else raise (http_exception 401 "Missing X-API-Key header")

abbrev pub only_admin : Bool → AuthContext → Action Db AuthContext
only_admin true ctx = pure ctx
only_admin false ctx = raise (http_exception 403 "Admin API key required")

-- The first `n` characters.
abbrev prefix : ℕ → String → String
prefix zero s = String.[]
prefix (suc n) String.[] = String.[]
prefix (suc n) (String.◌∷◌ c s) = String.◌∷◌ c (prefix n s)

-- `ApiKeyCreate` of schemas/api_key.py.
pub record ApiKeyCreate : Type 0 where
  pub tenant_id : Option ℕ
  pub label : String
  pub allowed_templates : Option (List String)
  pub allowed_scopes : List String
  pub rate_limit_per_hour : ℕ
  pub expires_in_days : Option ℕ

-- `if payload.expires_in_days: expires_at = now + timedelta(days=...)`
abbrev pub expiry : Option ℕ → ℕ → Option ℕ
expiry none now = none
expiry (some days) now = if days == 0 then none else some (now + days * 86400)

module _ (hash_key : String → String) where
  unfoldable pub find_key : String → Action Db (Option ApiKey)
  find_key provided s =
      (one_or_none (select (λ (k : ApiKey). str_eq k.key_hash (hash_key provided)) s.api_keys), s)

  unfoldable pub with_key : Settings → String → Action Db AuthContext
  with_key settings provided =
      let lookup = find_key provided >>= admit in
      lift (admin_matches settings provided) >>= λ admin.
      if admin then pure (admin_context "admin") else lookup

  unfoldable pub authenticate : Settings → Option String → Action Db AuthContext
  authenticate settings none = anonymous settings
  authenticate settings (some provided) =
      if is_empty provided then anonymous settings else with_key settings provided

  unfoldable pub require_admin : Settings → Option String → Action Db AuthContext
  require_admin settings x_api_key = do
    ctx ← authenticate settings x_api_key
    only_admin ctx.is_admin ctx

  -- `generate_key`, from the random text: the key, its prefix and its hash.
  unfoldable pub generate_key : String → String × String × String
  generate_key raw =
      let plaintext = "pdx_" <> raw in (plaintext, prefix 12 plaintext, hash_key plaintext)

  abbrev pub new_key : ApiKeyCreate → String → Tenant → Db → ApiKey
  new_key p raw t s =
      let (plaintext, key_prefix, key_hash) = generate_key raw in
      record {
        id = s.next_id;
        created_at = s.now;
        tenant_id = t.id;
        key_hash = key_hash;
        key_prefix = key_prefix;
        label = p.label;
        allowed_templates = p.allowed_templates;
        allowed_scopes = p.allowed_scopes;
        rate_limit_per_hour = p.rate_limit_per_hour;
        is_active = true;
        expires_at = expiry p.expires_in_days s.now;
        last_used_at = none;
        revoked_at = none;
      }

  -- `create_api_key`: the stored row and the plaintext, which is shown once.
  unfoldable pub create_api_key : Settings → ApiKeyCreate → String → Action Db (ApiKey × String)
  unfolding generate_key
  create_api_key settings p raw = do
    t ← resolve settings p.tenant_id
    k ← gets (new_key p raw t)
    modify (λ (s : Db). record s { api_keys = s.api_keys ++ (k ∷ []); next_id = s.next_id + 1 })
    pure (k, (generate_key raw).0)

abbrev pub get_api_key : ℕ → Db → Option ApiKey
get_api_key k s = find_by (λ (r : ApiKey). r.id) k s.api_keys

abbrev pub revoke_found : Option ApiKey → Action Db ApiKey
revoke_found none = raise (http_exception 404 "API key not found")
revoke_found (some k) = do
  now ← gets (λ (s : Db). s.now)
  modify (put_api_key (record k { is_active = false; revoked_at = some now }))
  pure (record k { is_active = false; revoked_at = some now })

unfoldable pub revoke_api_key : ℕ → Action Db ApiKey
revoke_api_key api_key_id s = revoke_found (get_api_key api_key_id s) s
