-- ===== src/Tenants/Kept.antt =====
-- Looking a tenant up, and its quota, keep everything.
use whatsapp_api.Base.{ℕ, String, Option, none, some}
use whatsapp_api.Base.Keeps.{Keeps, keeps_rules}
use whatsapp_api.Models.{Settings, Tenant}
use whatsapp_api.Store.{Db, get_tenant}
use whatsapp_api.Tenants.{resolve, live_or_missing, get_default, get_by_slug, get, assert_quota}

module _ {P : Db → Type 0} where
  Keeps-live : (t : Option Tenant) → Keeps P (live_or_missing t)
  Keeps-live none = record { at = λ s h. h }
  Keeps-live (some t) = search keeps_rules

  pub Keeps-get : (id : ℕ) → Keeps P (get id)
  unfolding get
  Keeps-get id = record { at = λ s h. (Keeps-live (get_tenant id s)).at s h }

  pub Keeps-by_slug : (slug : String) → Keeps P (get_by_slug slug)
  unfolding get_by_slug
  Keeps-by_slug slug = record { at = λ s h. h }

  pub Keeps-resolve : (settings : Settings) (id : Option ℕ) → Keeps P (resolve settings id)
  unfolding resolve get_default
  Keeps-resolve settings none = search (keeps_rules, Keeps-by_slug)
  Keeps-resolve settings (some id) = Keeps-get id

  pub Keeps-assert_quota : (t : Tenant) → Keeps P (assert_quota t)
  unfolding assert_quota
  Keeps-assert_quota t = search keeps_rules
