-- ===== src/Webhooks/Kept.antt =====
-- What the webhooks read keeps everything: the rows of a payload, and the tenant of an event.
use whatsapp_api.Base.{ℕ, Option, none, some, List, [], ◌∷◌, String}
use whatsapp_api.Base.Exec.{Action}
use whatsapp_api.Base.Keeps.{Keeps, Keeps-pure, Keeps-gets, Keeps-bind, keeps_rules}
use whatsapp_api.Json.{Json, str, get}
use whatsapp_api.Models.{Tenant}
use whatsapp_api.Store.{Db}
use whatsapp_api.Tenants.{get_by_phone_number_id}
use whatsapp_api.Webhooks.Status.{time_of}
use whatsapp_api.Webhooks.Events.{metadata_field, tenant_for_value, or_fallback, for_each, rows_of}
use whatsapp_api.Base.{ℕ, Option, none, some, List, [], ◌∷◌, String}
use whatsapp_api.Base.Exec.{Action}
use whatsapp_api.Base.Keeps.{Keeps, Keeps-pure, Keeps-bind, keeps_rules}
use whatsapp_api.Json.{Json, str}
use whatsapp_api.Store.{Db}
use whatsapp_api.Tenants.{get_by_waba_id}
use whatsapp_api.Webhooks.Events.{
  infer_tenant_id, infer_body, infer_from_entry, infer_from_changes, tenant_by_phone,
  tenant_by_waba, or_next,
}
use whatsapp_api.Webhooks.Processing.{find_template}
use whatsapp_api.Json.{get, or_else}
use whatsapp_api.Webhooks.Events.{empty_dict}
use whatsapp_api.Base.Keeps.{Keeps-lift}

module _ {P : Db → Type 0} where
  pub Keeps-for_each :
      (f : Json → Action Db (Unit {0}))
      → ((x : Json) → Keeps P (f x))
      → (xs : List Json) → Keeps P (for_each f xs)
  Keeps-for_each f kf [] = Keeps-pure tt
  Keeps-for_each f kf (x ∷ xs) = Keeps-bind (f x) _ (kf x) (λ _. Keeps-for_each f kf xs)

  pub Keeps-rows_of : (value : Json) (k : String) → Keeps P (rows_of value k)
  unfolding rows_of
  Keeps-rows_of value k = search keeps_rules

  pub Keeps-metadata_field : (value : Json) (k : String) → Keeps P (metadata_field value k)
  unfolding metadata_field
  Keeps-metadata_field value k = search keeps_rules

  Keeps-by_phone : (phone : String) → Keeps P (get_by_phone_number_id phone)
  unfolding get_by_phone_number_id
  Keeps-by_phone phone = record { at = λ s h. h }

  Keeps-or_fallback : (t : Option Tenant) (id : Option ℕ) → Keeps P (or_fallback t id)
  Keeps-or_fallback none id = Keeps-gets _
  Keeps-or_fallback (some t) id = Keeps-pure _

  pub Keeps-tenant_for_value : (value : Json) (id : Option ℕ) → Keeps P (tenant_for_value value id)
  unfolding tenant_for_value
  Keeps-tenant_for_value value id =
      search (keeps_rules, Keeps-metadata_field, Keeps-by_phone, Keeps-or_fallback)

  pub Keeps-time_of : (ts : Json) → Keeps P (time_of ts)
  unfolding time_of
  Keeps-time_of ts = search keeps_rules

  Keeps-by_waba : (waba_id : String) → Keeps P (get_by_waba_id waba_id)
  unfolding get_by_waba_id
  Keeps-by_waba waba_id = record { at = λ s h. h }

  pub Keeps-find_template :
      (id : ℕ) (name language : Json) → Keeps P (find_template id name language)
  unfolding find_template
  Keeps-find_template id (str name) (str language) = record { at = λ s h. h }
  Keeps-find_template id _ _ = record { at = λ s h. h }

  Keeps-by_phone_id : (phone_id : Json) → Keeps P (tenant_by_phone phone_id)
  unfolding tenant_by_phone
  Keeps-by_phone_id phone_id = search (keeps_rules, Keeps-by_phone)

  Keeps-by_waba_id : (waba_id : Json) → Keeps P (tenant_by_waba waba_id)
  unfolding tenant_by_waba get_by_waba_id
  Keeps-by_waba_id waba_id = search (keeps_rules, Keeps-by_waba)

  Keeps-or_next :
      (o : Option ℕ) (rest : Action Db (Option ℕ)) → Keeps P rest → Keeps P (or_next o rest)
  Keeps-or_next none rest k = k
  Keeps-or_next (some id) rest k = Keeps-pure _

  Keeps-infer_from_changes : (changes : List Json) → Keeps P (infer_from_changes changes)
  unfolding infer_from_changes
  Keeps-infer_from_changes [] = Keeps-pure _
  Keeps-infer_from_changes (change ∷ changes) =
      Keeps-bind _ _ (Keeps-lift (get change "value")) (λ value.
        Keeps-bind _ _ (Keeps-metadata_field (or_else value empty_dict) "phone_number_id")
          (λ phone_id.
            Keeps-bind _ _ (Keeps-by_phone_id phone_id)
              (λ found. Keeps-or_next found _ (Keeps-infer_from_changes changes))))

  Keeps-infer_body : (payload : Json) → Keeps P (infer_body payload)
  unfolding infer_body infer_from_entry
  Keeps-infer_body payload =
      search (keeps_rules, Keeps-by_waba_id, Keeps-or_next, Keeps-infer_from_changes) depth 16

  pub Keeps-infer_tenant_id : (payload : Json) → Keeps P (infer_tenant_id payload)
  unfolding infer_tenant_id
  Keeps-infer_tenant_id payload = record { at = (Keeps-infer_body payload).at }
