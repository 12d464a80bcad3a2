-- ===== src/Auth/Keys.antt =====
-- Who is let in, and as what.
use whatsapp_api.Base.{
  ℕ, ◌≡◌, refl, sym, ◌∙◌, ap, ◌⊎◌, inl, inr, Bool, true, false, String, Option, none, some, List,
  [], ◌∷◌, select, str_eq, Bool-cases,
}
use mathlib.Core.Bool.{true≢false}
use whatsapp_api.Base.Text.{is_empty}
use whatsapp_api.Base.Exec.{Result, ok, err, after, ok-injective, ◌>>=◌}
use whatsapp_api.Errors.{Error}
use whatsapp_api.Models.{ApiKey, Settings}
use whatsapp_api.Store.{Db, put_api_key}
use whatsapp_api.Store.Laws.{IsClean, flush_clean}
use whatsapp_api.Auth.{
  AuthContext, admin_context, key_context, is_set, is_past, is_revoked, stamp_use, admit_checked,
  admin_matches, admit, anonymous, find_key, with_key, authenticate, require_admin, only_admin,
}

Result-cases : (r : Result Bool) → ((e : Error) × (r ≡ err e)) ⊎ ((r ≡ ok true) ⊎ (r ≡ ok false))
Result-cases (ok true) = inr (inl refl)
Result-cases (ok false) = inr (inr refl)
Result-cases (err e) = inl (e, refl)

abbrev stamped : ℕ → ApiKey → ApiKey
stamped now k = record k { last_used_at = some now }

stamp_use-eq :
    (k : ApiKey) (s : Db)
    → IsClean s
    → stamp_use k s ≡ (ok (key_context k), put_api_key (stamped s.now k) s)
unfolding stamp_use
stamp_use-eq k s clean = rw (
    flush_clean (put_api_key (stamped s.now k) s)
      (record { nothing_pending = clean.nothing_pending; storable = clean.storable }))

-- A row whose key is let in at a time.
abbrev IsUsable : ℕ → ApiKey → Type 0
IsUsable now k = (is_revoked k ≡ false) × (is_past k.expires_at now ≡ false)

admit_usable :
    (k : ApiKey) (s : Db)
    → IsClean s
    → IsUsable s.now k
    → admit (some k) s ≡ (ok (key_context k), put_api_key (stamped s.now k) s)
unfolding admit
admit_usable k s clean (valid, current) = rw (valid, current) (stamp_use-eq k s clean)

admit_checked_ok :
    (revoked expired : Bool) (k : ApiKey) (s : Db) (ctx : AuthContext)
    → IsClean s
    → (admit_checked revoked expired k s).0 ≡ ok ctx
    → (revoked ≡ false) × (expired ≡ false) × (ctx ≡ key_context k)
admit_checked_ok true expired k s ctx clean h = cc
admit_checked_ok false true k s ctx clean h = cc
admit_checked_ok false false k s ctx clean h = (refl, refl, cc (rw (stamp_use-eq k s clean) at h))

admit_ok :
    (o : Option ApiKey) (s : Db) (ctx : AuthContext)
    → IsClean s
    → (admit o s).0 ≡ ok ctx
    → (k : ApiKey) × (o ≡ some k) × IsUsable s.now k × (ctx ≡ key_context k)
unfolding admit
admit_ok none s ctx clean h = cc
admit_ok (some k) s ctx clean h =
    let (valid, current, same) = admit_checked_ok _ _ k s ctx clean h in
    (k, refl, (valid, current), same)

admin_of_dev :
    (ctx : AuthContext)
    → ◌≡◌ {A = Result AuthContext} (ok (admin_context "dev-anon")) (ok ctx)
    → ctx.is_admin ≡ true
admin_of_dev ctx h = ap (λ (c : AuthContext). c.is_admin) (sym (ok-injective _ _ h))

admin_of_key :
    (ctx : AuthContext)
    → ◌≡◌ {A = Result AuthContext} (ok (admin_context "admin")) (ok ctx)
    → ctx.is_admin ≡ true
admin_of_key ctx h = ap (λ (c : AuthContext). c.is_admin) (sym (ok-injective _ _ h))

module _ (hash_key : String → String) (settings : Settings) (s : Db) (clean : IsClean s) where
  -- The rows whose hash is that of the key: the column is unique.
  abbrev rows : String → List ApiKey
  rows provided = select (λ (k : ApiKey). str_eq k.key_hash (hash_key provided)) s.api_keys

  anonymous_ok :
      (ctx : AuthContext)
      → (anonymous settings s).0 ≡ ok ctx
      → (is_set settings.api_key ≡ false) × (settings.is_production ≡ false) × (ctx.is_admin ≡ true)
  unfolding anonymous
  anonymous_ok ctx h = elim (Bool-cases (is_set settings.api_key)) [
    | inl set ↦ cc (rw set at h)
    | inr unset ↦ elim (Bool-cases settings.is_production) [
      | inl production ↦ cc (rw (unset, production) at h)
      | inr other ↦ (unset, other, admin_of_dev ctx (rw (unset, other) at h))
    ]
  ]

  -- The row that a lookup by hash gives.
  find_key_ok :
      (provided : String) (ctx : AuthContext) (l : List ApiKey)
      → l ≡ rows provided
      → ((find_key hash_key provided >>= admit) s).0 ≡ ok ctx
      → (k : ApiKey) × (rows provided ≡ k ∷ []) × IsUsable s.now k × (ctx ≡ key_context k)
  unfolding find_key
  find_key_ok provided ctx [] e h =
      let (k, impossible, usable, made) = admit_ok none s ctx clean (rw (← e) at h) in cc
  find_key_ok provided ctx (k ∷ []) e h =
      let (j, same, usable, made) = admit_ok (some k) s ctx clean (rw (← e) at h) in
      (j, sym e ∙ ap (λ (o : ApiKey). o ∷ []) (cc), usable, made)
  find_key_ok provided ctx (k ∷ l ∷ rest) e h = cc (rw (← e) at h)

  -- No key was sent: the header is missing or empty.
  abbrev pub sends_none : Option String → Bool
  sends_none none = true
  sends_none (some provided) = is_empty provided

  -- An admin is let in by the key of the settings, or with no key outside production where the
  -- settings have none.
  abbrev pub IsAdminRequest : Option String → Type 0
  IsAdminRequest x =
      ((sends_none x ≡ true) × (is_set settings.api_key ≡ false) × (settings.is_production ≡ false))
      ⊎ ((provided : String) × (x ≡ some provided) × (admin_matches settings provided ≡ ok true))

  -- Any other is let in by the only row that has the hash of its key, which is neither revoked nor
  -- expired, and with the rights of that row.
  abbrev pub IsKeyRequest : Option String → AuthContext → Type 0
  IsKeyRequest x ctx =
      (provided : String) × (x ≡ some provided)
      × (k : ApiKey) × (rows provided ≡ k ∷ [])
      × IsUsable s.now k
      × (ctx ≡ key_context k)

  with_key_ok :
      (provided : String) (ctx : AuthContext)
      → (with_key hash_key settings provided s).0 ≡ ok ctx
      → ((ctx.is_admin ≡ true) × IsAdminRequest (some provided)) ⊎ IsKeyRequest (some provided) ctx
  unfolding with_key
  with_key_ok provided ctx h = elim (Result-cases (admin_matches settings provided)) [
    | inr (inl admin) ↦ inl (admin_of_key ctx (rw admin at h), inr (provided, refl, admin))
    | inl (e, raised) ↦ cc (rw raised at h)
    | inr (inr other) ↦
        let (k, row, usable, made) =
          find_key_ok provided ctx (rows provided) refl (rw other at h) in
        inr (provided, refl, k, row, usable, made)
  ]

  -- Whoever is authenticated, with nothing to flush before, is an admin by an admin's request (the
  -- key of the settings, or no key at all outside production where the settings have none), or has
  -- the rights of a row whose key was sent and is neither revoked nor expired.
  pub authenticate_ok :
      (x : Option String) (ctx : AuthContext)
      → (authenticate hash_key settings x s).0 ≡ ok ctx
      → ((ctx.is_admin ≡ true) × IsAdminRequest x) ⊎ IsKeyRequest x ctx
  unfolding authenticate
  authenticate_ok none ctx h =
      let (unset, other, admin) = anonymous_ok ctx h in inl (admin, inl (refl, unset, other))
  authenticate_ok (some provided) ctx h = elim (Bool-cases (is_empty provided)) [
    | inl empty ↦
        let (unset, other, admin) = anonymous_ok ctx (rw empty at h) in
        inl (admin, inl (empty, unset, other))
    | inr given ↦ with_key_ok provided ctx (rw given at h)
  ]

  -- Only an admin, by an admin's request, passes `require_admin`. The session has nothing to flush
  -- before.
  require_admin_ok :
      (x : Option String) (ctx : AuthContext)
      → (require_admin hash_key settings x s).0 ≡ ok ctx
      → (ctx.is_admin ≡ true) × IsAdminRequest x
  unfolding require_admin
  require_admin_ok x ctx h = go (authenticate hash_key settings x s).0 refl h
    where
      admitted :
          (b : Bool) (c : AuthContext) (t : Db)
          → c.is_admin ≡ b
          → (only_admin b c t).0 ≡ ok ctx
          → (c.is_admin ≡ true) × (◌≡◌ {A = Result AuthContext} (ok c) (ok ctx))
      admitted true c t e k = (e, k)
      admitted false c t e k = cc

      go :
          (r : Result AuthContext)
          → (authenticate hash_key settings x s).0 ≡ r
          → (after r (λ c. only_admin c.is_admin c) (authenticate hash_key settings x s).1).0
            ≡ ok ctx
          → (ctx.is_admin ≡ true) × IsAdminRequest x
      go (err e) same k = cc
      go (ok c) same k =
          let (admin, made) = admitted c.is_admin c (authenticate hash_key settings x s).1 refl k in
          let is_admin : ctx.is_admin ≡ true =
            ap (λ (a : AuthContext). a.is_admin) (sym (ok-injective _ _ made)) ∙ admin in
          elim (authenticate_ok x ctx (same ∙ made)) [
            | inl yes_admin ↦ yes_admin
            | inr (provided, sent, key, row, usable, is_key) ↦
                absurd (true≢false (sym is_admin ∙ ap (λ (a : AuthContext). a.is_admin) is_key))
          ]
