-- ===== src/Tenants/Crud.antt =====
-- Creating tenants: the slug is unique among live and deleted rows; and the stored tokens.
use whatsapp_api.Base.{
  ◌≡◌, refl, ◌∙◌, Bool, true, false, ◌||◌, String, ◌<>◌, Option, none, some, List, [], ◌∷◌, ◌++◌,
  arith, exists, str_eq, str_eq_comm, Bool-cases, inl, inr,
}
use whatsapp_api.Base.Exec.{err}
use whatsapp_api.Errors.{saying, conflict, integrity_error, multiple_results_found, response_status}
use whatsapp_api.Models.{Tenant}
use whatsapp_api.Store.{Db}
use whatsapp_api.Tenants.{
  Fernet, IsLawful, encrypt, decrypt, live_where, get_by_slug, TenantCreate, new_tenant,
  insert_tenant, create,
}

-- A stored token is read back as it was given, with an encryption key and without one.
decrypt-encrypt-some :
    (f : Fernet) (token : String)
    → IsLawful f
    → (decrypt (some f) (encrypt (some f) token) ≡ token)
      × (decrypt none (encrypt none token) ≡ token)
unfolding encrypt decrypt
decrypt-encrypt-some f token laws = (rw (laws.decrypt-encrypt token), refl)

-- A text that is no token of the key is taken for plain: tokens stored before a key was set.
decrypt_plain :
    (f : Fernet) (token : String) → f.decrypt_text token ≡ none → decrypt (some f) token ≡ token
unfolding decrypt
decrypt_plain f token h = rw h

-- No two rows, deleted ones included, have one slug.
abbrev pub UniqueSlugs : List Tenant → Type 0
UniqueSlugs [] = Unit
UniqueSlugs (t ∷ ts) = (exists (λ (o : Tenant). str_eq o.slug t.slug) ts ≡ false) × UniqueSlugs ts

exists-append :
    (p : Tenant → Bool) (t : Tenant) (ts : List Tenant)
    → exists p (ts ++ (t ∷ [])) ≡ (exists p ts || p t)
exists-append p t [] = ground arith
exists-append p t (x ∷ ts) = ground (arith, exists-append p t ts)

UniqueSlugs-snoc :
    (t : Tenant) (ts : List Tenant)
    → UniqueSlugs ts
    → exists (λ (o : Tenant). str_eq o.slug t.slug) ts ≡ false
    → UniqueSlugs (ts ++ (t ∷ []))
UniqueSlugs-snoc t [] u h = (refl, tt)
UniqueSlugs-snoc t (x ∷ ts) u h = ground (
  arith,
  exists-append (λ (o : Tenant). str_eq o.slug x.slug) t ts,
  str_eq_comm x.slug t.slug,
  UniqueSlugs-snoc t ts u.1,
)

insert_tenant-UniqueSlugs :
    (t : Tenant) (s : Db) → UniqueSlugs s.tenants → UniqueSlugs (insert_tenant t s).1.tenants
unfolding insert_tenant
insert_tenant-UniqueSlugs t s u =
    elim (Bool-cases (exists (λ (o : Tenant). str_eq o.slug t.slug) s.tenants)) [
      | inl taken ↦ rw taken u
      | inr free ↦ rw free (UniqueSlugs-snoc t s.tenants u free)
    ]

module _ (fernet : Option Fernet) (p : TenantCreate) (s : Db) where
  -- The rows that would clash with the new one.
  abbrev clash : Tenant → Bool
  clash t = str_eq t.slug p.slug

  create_conflict :
      (t : Tenant)
      → live_where clash s ≡ t ∷ []
      → create fernet p s
        ≡ (err (saying conflict ("Tenant slug '" <> (p.slug <> "' already exists"))), s)
  unfolding create get_by_slug
  create_conflict t h = rw h

  pub create_free :
      live_where clash s ≡ [] → create fernet p s ≡ insert_tenant (new_tenant fernet p s) s
  unfolding create get_by_slug
  create_free h = rw h

  create_many :
      (t u : Tenant) (rest : List Tenant)
      → live_where clash s ≡ t ∷ u ∷ rest
      → create fernet p s ≡ (err multiple_results_found, s)
  unfolding create get_by_slug
  create_many t u rest h = rw h

  -- The slug stays unique, whatever `create` does.
  create-UniqueSlugs : UniqueSlugs s.tenants → UniqueSlugs (create fernet p s).1.tenants
  create-UniqueSlugs u = go (live_where clash s) refl
    where
      go : (l : List Tenant) → live_where clash s ≡ l → UniqueSlugs (create fernet p s).1.tenants
      go [] e = rw (create_free e) (insert_tenant-UniqueSlugs (new_tenant fernet p s) s u)
      go (t ∷ []) e = rw (create_conflict t e) u
      go (t ∷ v ∷ rest) e = rw (create_many t v rest e) u

  -- A slug that only deleted tenants have passes the check of `create`, and the insertion is then
  -- refused by the unique column: an integrity error, which the API answers with 500, where a live
  -- tenant's slug gives a conflict. Nothing is written.
  pub create_deleted_slug :
      live_where clash s ≡ []
      → exists clash s.tenants ≡ true
      → (create fernet p s ≡ (err integrity_error, s)) × (response_status integrity_error ≡ 500)
  unfolding insert_tenant new_tenant response_status
  create_deleted_slug none_live taken = (create_free none_live ∙ rw taken, refl)
