-- ===== src/System/Access.antt =====
-- The key of a request, the tenant that it resolves to and its quota leave the phones alone.
use whatsapp_api.Base.{refl, ℕ, String, Option, none, some}
use whatsapp_api.Base.Exec.{modify}
use whatsapp_api.Base.Keeps.{Keeps}
use whatsapp_api.Models.{ApiKey, Settings, Tenant}
use whatsapp_api.Store.{Db, get_tenant, put_api_key}
use whatsapp_api.Tenants.{used, increment_usage}
use whatsapp_api.Auth.{authenticate}
use whatsapp_api.Auth.Kept.{Keeps-authenticate as authenticate_kept}
use whatsapp_api.System.Dialable.{Dialable-same, Dialable, Keeps-flush}

pub Keeps-put_api_key : (k : ApiKey) → Keeps Dialable (modify (put_api_key k))
Keeps-put_api_key k = record { at = λ s h. Dialable-same refl refl refl h }

pub Keeps-authenticate :
    (hash_key : String → String) (settings : Settings) (x_api_key : Option String)
    → Keeps Dialable (authenticate hash_key settings x_api_key)
Keeps-authenticate = authenticate_kept Keeps-flush Keeps-put_api_key

used-Dialable : (o : Option Tenant) (n : ℕ) (s : Db) → Dialable s → Dialable (used o n s)
used-Dialable none n s h = h
used-Dialable (some t) n s h = Dialable-same refl refl refl h

pub Keeps-increment_usage : (id n : ℕ) → Keeps Dialable (increment_usage id n)
unfolding increment_usage
Keeps-increment_usage id n = record {
  at = λ s h. Keeps-flush.at (used (get_tenant id s) n s) (used-Dialable (get_tenant id s) n s h);
}
