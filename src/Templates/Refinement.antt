-- ===== src/Templates/Refinement.antt =====
-- `sync_from_meta` refines its specification, the cache as a map.
use whatsapp_api.Base.{
  ℕ, ◌+◌, ◌≤◌, ◌≡◌, refl, Bool, true, false, not, ◌&&◌, ◌||◌, String, Option, none, List, [], ◌∷◌,
  exists, find, length, select, ◌==◌, arith, ap, ◌∙◌, if_elim, ◌<>◌,
}
use whatsapp_api.Base.Int.{pos}
use whatsapp_api.Base.Exec.{Result, ok, err, raise_if}
use whatsapp_api.Base.Ensures.{Ensures, Ensures-bind, Ensures-map}
use whatsapp_api.Errors.{Error, type_error}
use whatsapp_api.Json.{Json, num, obj, field, end, str}
use whatsapp_api.Models.{Template, Tenant, Settings}
use whatsapp_api.Store.{Db, flush, all_storable}
use whatsapp_api.Tenants.{Fernet, resolve}
use whatsapp_api.Client.{Http, get_templates, root}
use whatsapp_api.Client.Listing.{Pages, flat, templates_from-Pages}
use whatsapp_api.RateLimiter.{Redis, RateLimiter}
use whatsapp_api.Messages.{World, client_for}
use whatsapp_api.Campaigns.{has_key}
use whatsapp_api.Templates.{
  TemplateSyncResponse, matches, by_name, insert_by_name, take_templates, insert_entries,
  list_for_tenant, store_templates, no_locals, check_ids, ids_fit, sync_from_meta,
}
use whatsapp_api.Templates.Entries.{Entry}
use whatsapp_api.Templates.Cache.{cached, seen, learn_all, listed}
use whatsapp_api.Templates.Inserts.{insert-Ensures}
use whatsapp_api.Templates.Sync.{Took, loop-Ensures}

-- The query sees the keys of the tenant's rows, in whatever order it gives them.
module _ (collate : String → String → Bool) (p : Template → Bool) where
  exists-insert :
      (t : Template) (ts : List Template)
      → exists p (insert_by_name collate t ts) ≡ (p t || exists p ts)
  exists-insert t [] = refl
  exists-insert t (x ∷ xs) = ground (arith, exists-insert t xs)

  exists-by_name : (ts : List Template) → exists p (by_name collate ts) ≡ exists p ts
  exists-by_name [] = refl
  exists-by_name (t ∷ ts) = rw (exists-insert t (by_name collate ts), exists-by_name ts) refl

exists-select :
    (p q : Template → Bool) (ts : List Template)
    → ((t : Template) → p t ≡ true → q t ≡ true)
    → exists p (select q ts) ≡ exists p ts
exists-select p q [] h = refl
exists-select p q (t ∷ ts) h = ground (arith, exists-select p q ts h, h t)

flush_templates : (s : Db) → Ensures (λ _ u. u.templates ≡ s.templates) (flush s)
unfolding flush
flush_templates s =
    if_elim (Ensures {S = Db} {A = Unit {0}} (λ _ u. u.templates ≡ s.templates))
      (all_storable s.messages && all_storable s.pending) (λ _. refl) (λ _. tt)

check_templates : (s : Db) → Ensures (λ _ u. u.templates ≡ s.templates) (check_ids s)
unfolding check_ids
check_templates s = go (not (ids_fit s.templates))
  where
    go : (b : Bool) → Ensures (λ _ u. u.templates ≡ s.templates) (raise_if b type_error s)
    go true = tt
    go false = refl

cached_of : (s u : Db) → u.templates ≡ s.templates → cached u ≡ cached s
cached_of s u h = ap (λ ts k n l. seen (find (has_key k n l) ts)) h

module _ (collate : String → String → Bool) (tenant_id : ℕ) where
  pub existing-eq :
      (e : Entry) (s : Db)
      → exists (matches tenant_id e) (list_for_tenant collate tenant_id none s)
        ≡ exists (matches tenant_id e) s.templates
  unfolding list_for_tenant
  existing-eq e s =
      exists-by_name collate (matches tenant_id e)
        (select (λ (t : Template). t.tenant_id == tenant_id && true) s.templates)
      ∙ exists-select (matches tenant_id e) (λ (t : Template). t.tenant_id == tenant_id && true)
          s.templates (λ t h. ground arith)

  -- What a sync that returned leaves, and what it answers.
  pub record Synced (raws : List Json) (s : Db) (r : TemplateSyncResponse) (u : Db) : Type 0 where
    pub refines : cached u ≡ learn_all tenant_id (listed raws) (cached s)
    pub counted : r.created + r.updated ≡ length (listed raws)
    pub fetched : r.synced ≡ length raws
    pub of_tenant : r.tenant_id ≡ tenant_id

  store-Ensures :
      (raws : List Json) (s : Db)
      → Ensures (Synced raws s) (store_templates collate tenant_id raws s)
  unfolding store_templates
  store-Ensures raws s =
      Ensures-bind (Took tenant_id existing (listed raws) no_locals s) (Synced raws s)
        (take_templates tenant_id existing raws no_locals) _ s
        (loop-Ensures tenant_id existing raws no_locals s
          (record { known = λ e. existing-eq e s; fresh = tt }))
        (λ l u h.
          Ensures-bind (λ _ v. cached v ≡ learn_all tenant_id (listed raws) (cached s))
            (Synced raws s) (insert_entries tenant_id l.added) _ u
            (Ensures-map (λ _ v. cached v ≡ learn_all tenant_id l.added (cached u))
              (λ _ v. cached v ≡ learn_all tenant_id (listed raws) (cached s))
              (insert_entries tenant_id l.added u) (insert-Ensures tenant_id l.added u)
              (λ _ v k. k ∙ h.learned))
            (λ _ v k.
              Ensures-bind (λ _ x. x.templates ≡ v.templates) (Synced raws s) check_ids _ v
                (check_templates v)
                (λ _ x e.
                  Ensures-bind (λ _ y. y.templates ≡ x.templates) (Synced raws s) flush _ x
                    (flush_templates x)
                    (λ _ y f. record {
                      refines = cached_of x y f ∙ cached_of v x e ∙ k;
                      counted = omega (arith, h.counted);
                      fetched = refl;
                      of_tenant = refl;
                    }))))
    where
      existing : List Template
      existing = list_for_tenant collate tenant_id none s

module _ (redis : Redis) (http : Http) (fernet : Option Fernet) (limiter : RateLimiter)
    (settings : Settings) (describe : Error → String) where
  -- A sync that returns, for a tenant that is found and a listing of Meta that ends within the
  -- fuel: the cache is the map before, into which each listed template with a name was put, in the
  -- order of the pages. The other tenants' part is as before, and the counts of the answer add up to
  -- the named templates.
  pub sync_from_meta_refines :
      (collate : String → String → Bool) (fuel : ℕ) (tenant_id : Option ℕ) (w : World redis http)
      (t : Tenant) (pages : List (List Json)) (h : http.State)
      → resolve settings tenant_id w.db ≡ (ok t, w.db)
      → Pages http
          (client_for redis http fernet limiter settings describe t)
          (str (
            root (client_for redis http fernet limiter settings describe t)
            <> "/"
            <> t.waba_id
            <> "/message_templates"))
          (obj (field "limit" (num (pos 200)) end))
          w.remote
          pages
          h
      → length pages ≤ fuel
      → Ensures
          (λ r (u : World redis http). Synced collate t.id (flat pages) w.db r u.db)
          (sync_from_meta redis http fernet limiter settings describe collate fuel tenant_id w)
  unfolding sync_from_meta get_templates
  sync_from_meta_refines collate fuel tenant_id w t pages h found served enough =
      rw
        (
          found,
          templates_from-Pages http (client_for redis http fernet limiter settings describe t) fuel
              (str (
                root (client_for redis http fernet limiter settings describe t)
                <> "/"
                <> t.waba_id
                <> "/message_templates"))
              (obj (field "limit" (num (pos 200)) end)) [] w.remote h pages served enough,
        )
        (go (store_templates collate t.id (flat pages) w.db)
          (store-Ensures collate t.id (flat pages) w.db))
    where
      go :
          (p : Result TemplateSyncResponse × Db)
          → Ensures (Synced collate t.id (flat pages) w.db) p
          → Ensures
              (λ r (u : World redis http). Synced collate t.id (flat pages) w.db r u.db)
              (p.0, record { db = p.1; counters = w.counters; remote = h })
      go (ok r, u) k = k
      go (err e, u) k = tt
