-- ===== src/Auth/Kept.antt =====
-- Authenticating a request keeps what the flush and the row of a key keep.
use whatsapp_api.Base.{Bool, true, false, String, Option, none, some}
use whatsapp_api.Base.Exec.{modify}
use whatsapp_api.Base.Keeps.{Keeps, keeps_rules}
use whatsapp_api.Models.{ApiKey, Settings}
use whatsapp_api.Store.{Db, put_api_key, flush}
use whatsapp_api.Auth.{
  authenticate, anonymous, with_key, find_key, admit, admit_checked, stamp_use, is_past, is_revoked,
}

module _ {P : Db → Type 0} (flushed : Keeps P flush)
    (keyed : (k : ApiKey) → Keeps P (modify (put_api_key k))) where
  Keeps-stamp_use : (k : ApiKey) → Keeps P (stamp_use k)
  unfolding stamp_use
  Keeps-stamp_use k = search keeps_rules

  Keeps-admit : (o : Option ApiKey) → Keeps P (admit o)
  unfolding admit
  Keeps-admit none = record { at = λ s h. h }
  Keeps-admit (some k) = record {
    at = λ s h. (checked (is_revoked k) (is_past k.expires_at s.now)).at s h;
  }
    where
      checked : (a b : Bool) → Keeps P (admit_checked a b k)
      checked true b = record { at = λ s h. h }
      checked false true = record { at = λ s h. h }
      checked false false = Keeps-stamp_use k

  module _ (hash_key : String → String) (settings : Settings) where
    Keeps-anonymous : Keeps P (anonymous settings)
    unfolding anonymous
    Keeps-anonymous = search keeps_rules

    Keeps-find_key : (provided : String) → Keeps P (find_key hash_key provided)
    unfolding find_key
    Keeps-find_key provided = record { at = λ s h. h }

    Keeps-with_key : (provided : String) → Keeps P (with_key hash_key settings provided)
    unfolding with_key
    Keeps-with_key provided = search (keeps_rules, Keeps-find_key, Keeps-admit) depth 8

    pub Keeps-authenticate :
        (x_api_key : Option String) → Keeps P (authenticate hash_key settings x_api_key)
    unfolding authenticate
    Keeps-authenticate none = Keeps-anonymous
    Keeps-authenticate (some provided) = search (keeps_rules, Keeps-anonymous, Keeps-with_key)
