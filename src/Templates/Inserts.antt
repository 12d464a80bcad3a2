-- ===== src/Templates/Inserts.antt =====
-- The inserts of `sync_from_meta`, at its flush, against the cache as a map.
use whatsapp_api.Base.{ℕ, ◌≡◌, refl, inl, inr, List, [], ◌∷◌, exists, ap, ◌∙◌, Bool-cases}
use whatsapp_api.Base.Exec.{}
use whatsapp_api.Base.Ensures.{Ensures, Ensures-bind, Ensures-map}
use whatsapp_api.Json.{Json, null, bool, num, str, arr, obj}
use whatsapp_api.Store.{Db}
use whatsapp_api.Campaigns.{has_key}
use whatsapp_api.Templates.{insert_named, insert_entries}
use whatsapp_api.Templates.Entries.{Entry}
use whatsapp_api.Templates.Cache.{cached, learn, learn_all, cached-add_template}

module _ (tenant_id : ℕ) where
  named-Ensures :
      (name language : Json) (e : Entry) (s : Db)
      → e.name ≡ name
      → e.language ≡ language
      → Ensures
          (λ _ u. cached u ≡ learn tenant_id e (cached s))
          (insert_named tenant_id name language e s)
  unfolding insert_named
  named-Ensures (str name) (str language) e s h k =
      elim (Bool-cases (exists (has_key tenant_id name language) s.templates)) [
        | inl there ↦ rw there tt
        | inr absent ↦ rw absent (cached-add_template tenant_id name language e s h k absent)
      ]
  named-Ensures (str _) null e s h k = tt
  named-Ensures (str _) (bool _) e s h k = tt
  named-Ensures (str _) (num _) e s h k = tt
  named-Ensures (str _) (arr _) e s h k = tt
  named-Ensures (str _) (obj _) e s h k = tt
  named-Ensures null _ e s h k = tt
  named-Ensures (bool _) _ e s h k = tt
  named-Ensures (num _) _ e s h k = tt
  named-Ensures (arr _) _ e s h k = tt
  named-Ensures (obj _) _ e s h k = tt

  pub insert-Ensures :
      (es : List Entry) (s : Db)
      → Ensures
          (λ _ u. cached u ≡ learn_all tenant_id es (cached s))
          (insert_entries tenant_id es s)
  unfolding insert_entries
  insert-Ensures [] s = refl
  insert-Ensures (e ∷ es) s =
      Ensures-bind (λ _ u. cached u ≡ learn tenant_id e (cached s))
        (λ _ u. cached u ≡ learn_all tenant_id (e ∷ es) (cached s))
        (insert_named tenant_id e.name e.language e) (λ _. insert_entries tenant_id es) s
        (named-Ensures e.name e.language e s refl refl)
        (λ _ u h.
          Ensures-map (λ _ v. cached v ≡ learn_all tenant_id es (cached u))
            (λ _ v. cached v ≡ learn_all tenant_id (e ∷ es) (cached s))
            (insert_entries tenant_id es u) (insert-Ensures es u)
            (λ _ v k. k ∙ ap (learn_all tenant_id es) h))
