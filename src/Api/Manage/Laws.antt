-- ===== src/Api/Manage/Laws.antt =====
-- Keys from the endpoint that mints them to the check that admits or refuses them, and the tenants'
-- endpoints where multi-tenant mode is off.
use whatsapp_api.Base.{
  ℕ, ◌+◌, ◌≡◌, refl, Bool, true, false, String, Option, some, List, [], ◌∷◌, ◌++◌, select, arith,
  str_eq, ==_iff, ◌==◌, Bool-cases, inl, inr, ap, ◌∙◌,
}
use whatsapp_api.Base.Text.{is_empty}
use whatsapp_api.Base.Exec.{ok, err}
use whatsapp_api.Errors.{http_exception}
use whatsapp_api.Models.{ApiKey, Tenant, Settings}
use whatsapp_api.Store.{Db, find_by, replace, put_api_key}
use whatsapp_api.Store.Sessions.{get_session, commit}
use whatsapp_api.Store.Laws.{find_by-id, IsClean, flush_clean}
use whatsapp_api.Store.Counting.{Unique, replace-absent}
use whatsapp_api.Tenants.{Fernet, TenantCreate, TenantUpdate}
use whatsapp_api.Auth.{
  AuthContext, ApiKeyCreate, authenticate, require_admin, with_key, find_key, admin_matches, admit,
  new_key, revoke_api_key, get_api_key,
}
use whatsapp_api.Api.{write_with}
use whatsapp_api.Api.Manage.{
  multi_tenant_off, ensure_multi_tenant, create_tenant, update_tenant, delete_tenant, post_revoke,
}

module _ {A : Type 0} (p : A → Bool) where
  select-replace :
      (id : A → ℕ) (r k : A) (xs : List A)
      → Unique id xs
      → find_by id (id r) xs ≡ some k
      → p r ≡ true
      → p k ≡ true
      → select p xs ≡ k ∷ []
      → select p (replace id r xs) ≡ r ∷ []
  select-replace id r k [] u found pr pk one = cc
  select-replace id r k (x ∷ xs) u found pr pk one = elim (Bool-cases (id x == id r)) [
    | inl here ↦
        rw (here, pr, replace-absent id r xs (ground (arith, here, u.0)))
          (ap (λ t. r ∷ t) (ground arith))
    | inr away ↦ elim (Bool-cases (p x)) [
      | inl kept ↦ absurd (ground (arith, find_by-id id (id r) k xs, ==_iff (id x) (id r)))
      | inr dropped ↦
          rw (away, dropped)
            (select-replace id r k xs u.1 (ground (arith, away)) pr pk (ground (arith, dropped)))
    ]
  ]

module _ (hash_key : String → String) (settings : Settings) where
  -- The check of a key that one row has the hash of, up to the row's own state.
  authenticate-eq :
      (provided : String) (k : ApiKey) (s : Db)
      → is_empty provided ≡ false
      → admin_matches settings provided ≡ ok false
      → select (λ (r : ApiKey). str_eq r.key_hash (hash_key provided)) s.api_keys ≡ k ∷ []
      → authenticate hash_key settings (some provided) s ≡ admit (some k) s
  unfolding authenticate with_key find_key
  authenticate-eq provided k s filled client one = rw (filled, client, one)

  module _ (admin_key : Option String) (ctx : AuthContext) (p : ApiKeyCreate) (raw : String)
      (s : Db) (t : Tenant) where
    abbrev pub minted : ApiKey
    minted = new_key hash_key p raw t s

    abbrev pub minted_db : Db
    minted_db = record s { api_keys = s.api_keys ++ (minted ∷ []); next_id = s.next_id + 1 }

  abbrev revoked : ApiKey → ℕ → ApiKey
  revoked k now = record k { is_active = false; revoked_at = some now }

  revoked_refused :
      (k : ApiKey) (now : ℕ) (v : Db)
      → admit (some (revoked k now)) v ≡ (err (http_exception 401 "API key revoked"), v)
  unfolding admit
  revoked_refused k now v = refl

  revoke-eq :
      (admin_key : Option String) (ctx : AuthContext) (k : ApiKey) (s : Db)
      → require_admin hash_key settings admin_key s ≡ (ok ctx, s)
      → get_api_key k.id s ≡ some k
      → IsClean s
      → (post_revoke hash_key settings admin_key k.id s).1 ≡ put_api_key (revoked k s.now) s
  unfolding post_revoke write_with get_session commit revoke_api_key
  revoke-eq admin_key ctx k s admin found clean =
      rw
        (
          admin,
          found,
          flush_clean (put_api_key (revoked k s.now) s)
              (record { nothing_pending = clean.nothing_pending; storable = clean.storable }),
        )
        refl

  -- The admin's revocation of a key marks its row, which alone has the key's hash, and changes no
  -- other row. In any database whose rows of that hash are those which the revocation left, however
  -- else it changed since, the key is refused with 401, whatever it was allowed, and the request
  -- changes nothing. The conditions: the row is the one key that has its hash, ids are unique, it
  -- is not the admin's key, and there is nothing to flush that the driver would refuse.
  pub revoke-authenticate :
      (admin_key : Option String) (ctx : AuthContext) (k : ApiKey) (provided : String) (s v : Db)
      → require_admin hash_key settings admin_key s ≡ (ok ctx, s)
      → get_api_key k.id s ≡ some k
      → Unique (λ (r : ApiKey). r.id) s.api_keys
      → IsClean s
      → is_empty provided ≡ false
      → admin_matches settings provided ≡ ok false
      → str_eq k.key_hash (hash_key provided) ≡ true
      → select (λ (r : ApiKey). str_eq r.key_hash (hash_key provided)) s.api_keys ≡ k ∷ []
      → select (λ (r : ApiKey). str_eq r.key_hash (hash_key provided)) v.api_keys
        ≡ select
            (λ (r : ApiKey). str_eq r.key_hash (hash_key provided))
            (post_revoke hash_key settings admin_key k.id s).1.api_keys
      → ((post_revoke hash_key settings admin_key k.id s).1
          ≡ put_api_key (record k { is_active = false; revoked_at = some s.now }) s)
        × (authenticate hash_key settings (some provided) v
            ≡ (err (http_exception 401 "API key revoked"), v))
  revoke-authenticate admin_key ctx k provided s v admin found unique clean filled client hashed one
        later =
      let left = revoke-eq admin_key ctx k s admin found clean in
      let alone =
        select-replace (λ (r : ApiKey). str_eq r.key_hash (hash_key provided))
          (λ (r : ApiKey). r.id) (revoked k s.now) k s.api_keys unique found hashed hashed one in
      (
        left,
        authenticate-eq provided (revoked k s.now) v filled client (
              later
              ∙ ap
                  (λ (u : Db).
                    select (λ (r : ApiKey). str_eq r.key_hash (hash_key provided)) u.api_keys)
                  left
              ∙ alone)
            ∙ revoked_refused k s.now v,
      )

  -- With multi-tenant mode off, an admitted key creates, updates and deletes no tenant: each request
  -- gets 403 and changes nothing.
  tenants_locked :
      (x_api_key : Option String) (ctx : AuthContext) (s d : Db) (fernet : Option Fernet)
      (payload : TenantCreate) (tenant_id : ℕ) (changes : TenantUpdate)
      → settings.enable_multi_tenant ≡ false
      → authenticate hash_key settings x_api_key s ≡ (ok ctx, d)
      → (create_tenant hash_key settings x_api_key fernet payload s ≡ (err multi_tenant_off, s))
        × (update_tenant hash_key settings x_api_key fernet tenant_id changes s
            ≡ (err multi_tenant_off, s))
        × (delete_tenant hash_key settings x_api_key tenant_id s ≡ (err multi_tenant_off, s))
  unfolding create_tenant update_tenant delete_tenant write_with get_session ensure_multi_tenant
  tenants_locked x_api_key ctx s d fernet payload tenant_id changes off admitted =
      (rw (admitted, off), rw (admitted, off), rw (admitted, off))
