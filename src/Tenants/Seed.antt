-- ===== src/Tenants/Seed.antt =====
-- scripts/seed_data.py, which creates the default tenant if no row has its slug.
use whatsapp_api.Base.{
  ◌≡◌, ◌≢◌, ◌+◌, refl, subst, ◌∙◌, Bool, true, false, ◌&&◌, String, Option, none, some, List, [],
  ◌∷◌, ◌++◌, arith, select, exists, str_eq, str_eq_iff, str_eq_refl, Bool-cases, inl, inr, ◌⊎◌,
}
use whatsapp_api.Base.Exec.{ok, err, Action, ◌>>=◌, pure}
use whatsapp_api.Errors.{saying, tenant_not_found}
use whatsapp_api.Models.{Tenant, Settings}
use whatsapp_api.Store.{Db, one_or_none}
use whatsapp_api.Store.Laws.{IsClean, flush_clean}
use whatsapp_api.Store.Sessions.{session_scope}
use whatsapp_api.Tenants.{
  Fernet, is_live, get_by_slug, get_default, TenantCreate, new_tenant, insert_tenant, create,
}
use whatsapp_api.Tenants.Crud.{UniqueSlugs, create_free}

-- The settings that the script reads.
pub record SeedSettings : Type 0 where
  pub default_tenant_name : String
  pub default_tenant_slug : String
  pub meta_waba_id : String
  pub meta_phone_number_id : String
  pub meta_access_token : String

-- The arguments of `service.create`.
abbrev default_tenant : SeedSettings → TenantCreate
default_tenant c = record {
  name = c.default_tenant_name;
  slug = c.default_tenant_slug;
  waba_id = c.meta_waba_id;
  phone_number_id = c.meta_phone_number_id;
  access_token = c.meta_access_token;
  plan = "enterprise";
  monthly_message_limit = 1000000;
}

-- `select(Tenant).where(Tenant.slug == ...)`, soft-deleted rows included.
unfoldable pub get_existing : String → Action Db (Option Tenant)
get_existing slug s = (one_or_none (select (λ (t : Tenant). str_eq t.slug slug) s.tenants), s)

module _ (fernet : Option Fernet) (c : SeedSettings) where
  abbrev seed_missing : Option Tenant → Action Db (Unit {0})
  seed_missing (some _) = pure tt
  seed_missing none = do _ ← create fernet (default_tenant c); pure tt

  -- `main`, whose session is the whole state.
  unfoldable pub seed : Action Db (Unit {0})
  seed =
      session_scope (λ d. d) (λ d _. d)
        (do existing ← get_existing c.default_tenant_slug; seed_missing existing)

module _ (slug : String) where
  abbrev has_slug : Tenant → Bool
  has_slug t = str_eq t.slug slug

  exists-select : (ts : List Tenant) → exists has_slug ts ≡ false → select has_slug ts ≡ []
  exists-select [] h = refl
  exists-select (t ∷ ts) h = ground (arith, exists-select ts)

  select-exists : (ts : List Tenant) → select has_slug ts ≡ [] → exists has_slug ts ≡ false
  select-exists [] h = refl
  select-exists (t ∷ ts) h = ground (arith, select-exists ts)

  select-live :
      (ts : List Tenant)
      → select (λ t. has_slug t && is_live t) ts ≡ select is_live (select has_slug ts)
  select-live [] = refl
  select-live (t ∷ ts) = ground (arith, select-live ts)

  select-snoc :
      (t : Tenant) (ts : List Tenant)
      → has_slug t ≡ true
      → select has_slug ts ≡ []
      → select has_slug (ts ++ (t ∷ [])) ≡ t ∷ []
  select-snoc t [] e h = rw e
  select-snoc t (x ∷ ts) e h = ground (arith, select-snoc t ts e)

  UniqueSlugs-select :
      (t u : Tenant) (rest ts : List Tenant) → UniqueSlugs ts → select has_slug ts ≢ t ∷ u ∷ rest
  UniqueSlugs-select t u rest [] unique h = absurd (ground arith)
  UniqueSlugs-select t u rest (x ∷ ts) unique h = elim (Bool-cases (has_slug x)) [
    | inl same ↦
        let is_slug = (str_eq_iff x.slug slug).0 same in
        let none_else =
          exists-select ts
            (subst (λ v. exists (λ (o : Tenant). str_eq o.slug v) ts ≡ false) is_slug unique.0) in
        absurd (ground arith)
    | inr other ↦ UniqueSlugs-select t u rest ts unique.1 (ground arith)
  ]

module _ (fernet : Option Fernet) (c : SeedSettings) where
  seed_found :
      (t : Tenant) (s : Db)
      → IsClean s
      → select (has_slug c.default_tenant_slug) s.tenants ≡ t ∷ []
      → seed fernet c s ≡ (ok tt, s)
  unfolding seed session_scope get_existing
  seed_found t s clean h = rw (h, flush_clean s clean)

  unfoldable pub added : Db → Db
  added s = record s {
    tenants = s.tenants ++ (new_tenant fernet (default_tenant c) s ∷ []);
    next_id = s.next_id + 1;
  }

  added-IsClean : (s : Db) → IsClean s → IsClean (added s)
  unfolding added
  added-IsClean s clean = record {
    nothing_pending = clean.nothing_pending;
    storable = clean.storable;
  }

  create_new :
      (s : Db)
      → select (has_slug c.default_tenant_slug) s.tenants ≡ []
      → create fernet (default_tenant c) s ≡ (ok (new_tenant fernet (default_tenant c) s), added s)
  unfolding insert_tenant added new_tenant
  create_new s h =
      create_free fernet (default_tenant c) s (select-live c.default_tenant_slug s.tenants ∙ rw h)
      ∙ rw (select-exists c.default_tenant_slug s.tenants h)

  seed_new :
      (s : Db)
      → IsClean s
      → select (has_slug c.default_tenant_slug) s.tenants ≡ []
      → seed fernet c s ≡ (ok tt, added s)
  unfolding seed session_scope get_existing
  seed_new s clean h = rw (h, create_new s h, flush_clean (added s) (added-IsClean s clean))

  added_found :
      (s : Db)
      → select (has_slug c.default_tenant_slug) s.tenants ≡ []
      → select (has_slug c.default_tenant_slug) (added s).tenants
        ≡ new_tenant fernet (default_tenant c) s ∷ []
  unfolding added new_tenant
  added_found s h =
      select-snoc c.default_tenant_slug (new_tenant fernet (default_tenant c) s) s.tenants
        (str_eq_refl c.default_tenant_slug) h

  -- `s'` has one row with the slug: the one of `s`, where nothing is written, or a new one.
  pub record SeededFrom (s s' : Db) : Type 0 where
    pub tenant : Tenant
    pub only_row : select (has_slug c.default_tenant_slug) s'.tenants ≡ tenant ∷ []
    pub kept_or_new :
        ((select (has_slug c.default_tenant_slug) s.tenants ≡ tenant ∷ []) × (s' ≡ s))
        ⊎ ((select (has_slug c.default_tenant_slug) s.tenants ≡ [])
            × (tenant ≡ new_tenant fernet (default_tenant c) s)
            × (s' ≡ added s))
    pub clean_after : IsClean s'

  seed-SeededFrom :
      (s : Db)
      → IsClean s
      → UniqueSlugs s.tenants
      → (s' : Db) × (seed fernet c s ≡ (ok tt, s')) × SeededFrom s s'
  seed-SeededFrom s clean unique = go (select (has_slug c.default_tenant_slug) s.tenants) refl
    where
      go :
          (l : List Tenant)
          → select (has_slug c.default_tenant_slug) s.tenants ≡ l
          → (s' : Db) × (seed fernet c s ≡ (ok tt, s')) × SeededFrom s s'
      go [] h = (
        added s,
        seed_new s clean h,
        record {
          tenant = new_tenant fernet (default_tenant c) s;
          only_row = added_found s h;
          kept_or_new = inr (h, refl, refl);
          clean_after = added-IsClean s clean;
        },
      )
      go (t ∷ []) h = (
        s,
        seed_found t s clean h,
        record { tenant = t; only_row = h; kept_or_new = inl (h, refl); clean_after = clean },
      )
      go (t ∷ u ∷ rest) h =
          absurd (UniqueSlugs-select c.default_tenant_slug t u rest s.tenants unique h)

  -- The seeding returns, writes only where no row has the slug, leaves one row with it, and a
  -- second run changes nothing.
  pub seed_twice :
      (s : Db)
      → IsClean s
      → UniqueSlugs s.tenants
      → (s' : Db) × (seed fernet c s ≡ (ok tt, s'))
        × SeededFrom s s'
        × (seed fernet c s' ≡ (ok tt, s'))
  seed_twice s clean unique =
      let (s', e, seeded) = seed-SeededFrom s clean unique in
      (s', e, seeded, seed_found seeded.tenant s' seeded.clean_after seeded.only_row)

  -- Where a deleted tenant has the slug, the seeding returns and writes nothing, and the default
  -- tenant is not found: the error asks to run the script.
  seed_deleted :
      (settings : Settings) (t : Tenant) (s : Db)
      → IsClean s
      → settings.default_tenant_slug ≡ c.default_tenant_slug
      → select (has_slug c.default_tenant_slug) s.tenants ≡ t ∷ []
      → is_live t ≡ false
      → (seed fernet c s ≡ (ok tt, s))
        × (get_default settings s ≡ (
          err (saying tenant_not_found "Default tenant not seeded — run scripts/seed_data.py"),
          s,
        ))
  unfolding get_default get_by_slug
  seed_deleted settings t s clean slug h dead =
      (seed_found t s clean h, rw (slug, select-live c.default_tenant_slug s.tenants, h, dead))
