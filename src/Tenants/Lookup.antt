-- ===== src/Tenants/Lookup.antt =====
-- What the lookups of tenants return, and that a deleted tenant is not found.
use whatsapp_api.Base.{
  ℕ, ◌≡◌, refl, sym, subst, ◌∙◌, ap, ◌≢◌, true, false, Option, none, some, arith,
}
use whatsapp_api.Base.Exec.{ok, err}
use whatsapp_api.Errors.{plain, tenant_not_found}
use whatsapp_api.Models.{Tenant}
use whatsapp_api.Store.{Db, get_tenant, put_tenant}
use whatsapp_api.Store.Laws.{
  IsClean, flush_clean, find_by-id, find_by-replace_self, find_by-replace_ne,
}
use whatsapp_api.Tenants.{is_live, live_or_missing, get, soft_delete}

live_or_missing_ok :
    (o : Option Tenant) (s s' : Db) (t : Tenant)
    → live_or_missing o s ≡ (ok t, s')
    → (o ≡ some t) × (is_live t ≡ true) × (s' ≡ s)
live_or_missing_ok none s s' t h = absurd (ground arith)
live_or_missing_ok (some u) s s' t h = ground arith

-- `get` returns a live tenant that has the id, and reads only.
get_ok :
    (k : ℕ) (s s' : Db) (t : Tenant)
    → get k s ≡ (ok t, s')
    → (t.id ≡ k) × (is_live t ≡ true) × (get_tenant k s ≡ some t) × (s' ≡ s)
unfolding get
get_ok k s s' t h =
    let (found, live, same) = live_or_missing_ok (get_tenant k s) s s' t h in
    (find_by-id (λ (r : Tenant). r.id) k t s.tenants found, live, found, same)

get_read : (k : ℕ) (s s' : Db) (t : Tenant) → get k s ≡ (ok t, s') → get k s ≡ (ok t, s)
get_read k s s' t h = h ∙ ap (λ u. (ok t, u)) (get_ok k s s' t h).3

abbrev deleted : ℕ → Tenant → Tenant
deleted now t = record t { deleted_at = some now; is_active = false }

soft_delete-eq :
    (k : ℕ) (s : Db) (t : Tenant)
    → IsClean s
    → get k s ≡ (ok t, s)
    → soft_delete k s ≡ (ok tt, put_tenant (deleted s.now t) s)
unfolding soft_delete
soft_delete-eq k s t clean h = rw h (
    flush_clean (put_tenant (deleted s.now t) s)
      (record { nothing_pending = clean.nothing_pending; storable = clean.storable }))

get-deleted :
    (k now : ℕ) (s : Db) (t : Tenant)
    → get k s ≡ (ok t, s)
    → (get k (put_tenant (deleted now t) s)).0 ≡ err (plain tenant_not_found)
unfolding get
get-deleted k now s t h =
    let (same, live, found, _) = get_ok k s s t h in
    let there : get_tenant k (put_tenant (deleted now t) s) ≡ some (deleted now t) =
      subst (λ j. get_tenant j (put_tenant (deleted now t) s) ≡ some (deleted now t)) same
        (find_by-replace_self (λ (r : Tenant). r.id) (deleted now t) t s.tenants
          (subst (λ j. get_tenant j s ≡ some t) (sym same) found)) in
    rw there

-- Deleting a tenant that is found succeeds. Its lookup by id then raises `TenantNotFoundError`, and
-- the row of any other id is as before.
get-soft_delete :
    (k : ℕ) (s s' : Db) (t : Tenant)
    → IsClean s
    → get k s ≡ (ok t, s')
    → let (r, u) = soft_delete k s in
      (r ≡ ok tt)
      × ((get k u).0 ≡ err (plain tenant_not_found))
      × ((j : ℕ) → k ≢ j → get_tenant j u ≡ get_tenant j s)
get-soft_delete k s s' t clean h =
    let read = get_read k s s' t h in
    rw (soft_delete-eq k s t clean read) (
      refl,
      get-deleted k s.now s t read,
      λ j ne.
          find_by-replace_ne (λ (r : Tenant). r.id) j (deleted s.now t) s.tenants
            (λ e. ne (sym (get_ok k s s' t h).0 ∙ e)),
    )
