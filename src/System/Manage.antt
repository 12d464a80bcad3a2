-- ===== src/System/Manage.antt =====
-- The endpoints of tenants, API keys and templates leave the phones alone.
use whatsapp_api.Base.{
  ℕ, ◌+◌, refl, Bool, true, false, String, Option, none, some, List, [], ◌∷◌, ◌++◌, exists, if_elim,
}
use whatsapp_api.Base.Exec.{Result, Action, modify, lift, within}
use whatsapp_api.Base.Keeps.{
  Keeps, Keeps-pure, Keeps-raise, Keeps-bind, Keeps-guard, Keeps-lift, keeps_rules,
}
use whatsapp_api.Errors.{Error}
use whatsapp_api.Json.{Json, null, bool, num, str, arr, obj}
use whatsapp_api.Models.{ApiKey, Settings, Template, Tenant}
use whatsapp_api.Store.{Db, put_tenant}
use whatsapp_api.Tenants.{
  Fernet, TenantCreate, TenantUpdate, create, update, soft_delete, insert_tenant,
}
use whatsapp_api.Tenants.Kept.{Keeps-get, Keeps-by_slug, Keeps-resolve}
use whatsapp_api.Client.{Http}
use whatsapp_api.RateLimiter.{Redis, RateLimiter}
use whatsapp_api.Auth.{
  AuthContext, ApiKeyCreate, require_admin, only_admin, create_api_key, revoke_api_key,
  revoke_found, get_api_key,
}
use whatsapp_api.Messages.{World}
use whatsapp_api.Campaigns.{has_key}
use whatsapp_api.Templates.{
  Locals, sync_from_meta, store_templates, take_templates, take_found, take_entry, insert_entries,
  insert_named, check_ids, matches,
}
use whatsapp_api.Templates.Entries.{Entry, read_template}
use whatsapp_api.Api.Manage.{ensure_multi_tenant, sync_templates}
use whatsapp_api.System.Dialable.{Dialable, Dialable-same, Keeps-flush}
use whatsapp_api.System.Access.{Keeps-authenticate, Keeps-put_api_key}
use whatsapp_api.System.Sends.{OnDb, Keeps-within_db, Keeps-serve}

Keeps-put_tenant : (t : Tenant) → Keeps Dialable (modify (put_tenant t))
Keeps-put_tenant t = record { at = λ s h. Dialable-same refl refl refl h }

Keeps-insert_tenant : (t : Tenant) → Keeps Dialable (insert_tenant t)
unfolding insert_tenant
Keeps-insert_tenant t = record {
  at = λ s h.
      if_elim (λ (p : Result Tenant × Db). Dialable p.1) (exists _ s.tenants) (λ _. h)
        (λ _. Dialable-same refl refl refl h);
}

pub Keeps-require_admin :
    (hash_key : String → String) (settings : Settings) (x_api_key : Option String)
    → Keeps Dialable (require_admin hash_key settings x_api_key)
unfolding require_admin
Keeps-require_admin hash_key settings x_api_key =
    Keeps-bind _ _ (Keeps-authenticate hash_key settings x_api_key) (λ ctx. go ctx.is_admin ctx)
  where
    go : (b : Bool) (ctx : AuthContext) → Keeps Dialable (only_admin b ctx)
    go true ctx = Keeps-pure ctx
    go false ctx = Keeps-raise _

pub Keeps-ensure : (settings : Settings) → Keeps Dialable (ensure_multi_tenant settings)
unfolding ensure_multi_tenant
Keeps-ensure settings = search keeps_rules

module _ (fernet : Option Fernet) where
  pub Keeps-create : (p : TenantCreate) → Keeps Dialable (create fernet p)
  unfolding create
  Keeps-create p = search (keeps_rules, Keeps-by_slug, Keeps-insert_tenant) depth 12

  pub Keeps-update : (tenant_id : ℕ) (u : TenantUpdate) → Keeps Dialable (update fernet tenant_id u)
  unfolding update
  Keeps-update tenant_id u = search (keeps_rules, Keeps-get, Keeps-put_tenant, Keeps-flush) depth 12

pub Keeps-soft_delete : (tenant_id : ℕ) → Keeps Dialable (soft_delete tenant_id)
unfolding soft_delete
Keeps-soft_delete tenant_id =
    search (keeps_rules, Keeps-get, Keeps-put_tenant, Keeps-flush) depth 12

Keeps-add_key :
    (k : ApiKey)
    → Keeps Dialable (
        modify
          (λ (s : Db). record s { api_keys = s.api_keys ++ (k ∷ []); next_id = s.next_id + 1 }))
Keeps-add_key k = record { at = λ s h. Dialable-same refl refl refl h }

pub Keeps-create_api_key :
    (hash_key : String → String) (settings : Settings) (p : ApiKeyCreate) (raw : String)
    → Keeps Dialable (create_api_key hash_key settings p raw)
unfolding create_api_key
Keeps-create_api_key hash_key settings p raw =
    search (keeps_rules, Keeps-resolve, Keeps-add_key) depth 12

pub Keeps-revoke_api_key : (api_key_id : ℕ) → Keeps Dialable (revoke_api_key api_key_id)
unfolding revoke_api_key
Keeps-revoke_api_key api_key_id = record { at = λ s h. (go (get_api_key api_key_id s)).at s h }
  where
    go : (o : Option ApiKey) → Keeps Dialable (revoke_found o)
    go none = Keeps-raise _
    go (some k) = search (keeps_rules, Keeps-put_api_key)

Keeps-check_ids : Keeps Dialable check_ids
unfolding check_ids
Keeps-check_ids = record { at = λ s h. (Keeps-guard {P = Dialable} _ _).at s h }

module _ (tenant_id : ℕ) where
  Keeps-take_found :
      (existing : List Template) (found : Option Entry) (l : Locals)
      → Keeps Dialable (take_found tenant_id existing found l)
  unfolding take_found take_entry
  Keeps-take_found existing none l = Keeps-pure l
  Keeps-take_found existing (some e) l = record {
    at = λ s h.
        if_elim (λ (p : Result Locals × Db). Dialable p.1) (exists (matches tenant_id e) existing)
          (λ _. Dialable-same refl refl refl h) (λ _. h);
  }

  Keeps-take_templates :
      (existing : List Template) (raws : List Json) (l : Locals)
      → Keeps Dialable (take_templates tenant_id existing raws l)
  unfolding take_templates
  Keeps-take_templates existing [] l = Keeps-pure l
  Keeps-take_templates existing (raw ∷ raws) l =
      Keeps-bind (lift (read_template raw)) _ (Keeps-lift _) (λ found.
        Keeps-bind _ _ (Keeps-take_found existing found l)
          (λ m. Keeps-take_templates existing raws m))

  Keeps-insert_named : (a b : Json) (e : Entry) → Keeps Dialable (insert_named tenant_id a b e)
  unfolding insert_named
  Keeps-insert_named (str a) (str b) e = record {
    at = λ s h.
        if_elim (λ (p : Result (Unit {0}) × Db). Dialable p.1)
          (exists (has_key tenant_id a b) s.templates) (λ _. h)
          (λ _. Dialable-same refl refl refl h);
  }
  Keeps-insert_named (str _) null e = Keeps-raise _
  Keeps-insert_named (str _) (bool _) e = Keeps-raise _
  Keeps-insert_named (str _) (num _) e = Keeps-raise _
  Keeps-insert_named (str _) (arr _) e = Keeps-raise _
  Keeps-insert_named (str _) (obj _) e = Keeps-raise _
  Keeps-insert_named null _ e = Keeps-raise _
  Keeps-insert_named (bool _) _ e = Keeps-raise _
  Keeps-insert_named (num _) _ e = Keeps-raise _
  Keeps-insert_named (arr _) _ e = Keeps-raise _
  Keeps-insert_named (obj _) _ e = Keeps-raise _

  Keeps-insert_entries : (es : List Entry) → Keeps Dialable (insert_entries tenant_id es)
  unfolding insert_entries
  Keeps-insert_entries [] = Keeps-pure tt
  Keeps-insert_entries (e ∷ es) =
      Keeps-bind _ _ (Keeps-insert_named e.name e.language e) (λ _. Keeps-insert_entries es)

  Keeps-store_templates :
      (collate : String → String → Bool) (raws : List Json)
      → Keeps Dialable (store_templates collate tenant_id raws)
  unfolding store_templates
  Keeps-store_templates collate raws =
      search (keeps_rules, Keeps-take_templates, Keeps-insert_entries, Keeps-check_ids, Keeps-flush)
        depth 16

module _ (redis : Redis) (http : Http) (fernet : Option Fernet) (limiter : RateLimiter)
    (settings : Settings) (describe : Error → String) where
  Keeps-remote :
      {A : Type 0} (m : Action http.State A)
      → Keeps (OnDb redis http) (
          within
            (λ (w : World redis http). w.remote)
            (λ h (w : World redis http). record w { remote = h })
            m)
  Keeps-remote m = record { at = λ w h. h }

  Keeps-sync_from_meta :
      (collate : String → String → Bool) (fuel : ℕ) (tenant_id : Option ℕ)
      → Keeps
          (OnDb redis http)
          (sync_from_meta redis http fernet limiter settings describe collate fuel tenant_id)
  unfolding sync_from_meta
  Keeps-sync_from_meta collate fuel tenant_id =
      search (keeps_rules, Keeps-within_db, Keeps-resolve, Keeps-remote, Keeps-store_templates)
        depth 12

  pub Keeps-sync_templates :
      (hash_key : String → String) (x_api_key : Option String) (collate : String → String → Bool)
      (fuel : ℕ) (tenant_id : Option ℕ)
      → Keeps (OnDb redis http) (
          sync_templates hash_key settings x_api_key redis http fernet limiter describe collate fuel
            tenant_id)
  unfolding sync_templates
  Keeps-sync_templates hash_key x_api_key collate fuel tenant_id =
      Keeps-serve redis http fernet limiter settings describe _ _
        (Keeps-authenticate hash_key settings x_api_key)
        (λ _. Keeps-sync_from_meta collate fuel tenant_id)
