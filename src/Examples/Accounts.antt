-- ===== src/Examples/Accounts.antt =====
-- Examples on tenants and API keys.
use whatsapp_api.Base.{◌≡◌, ◌⊎◌, refl, true, ◌<>◌, String, Option, none, some, str_eq}
use whatsapp_api.Base.Exec.{ok, err}
use whatsapp_api.Errors.{integrity_error, response_status}
use whatsapp_api.Store.{Db, flush}
use whatsapp_api.Tenants.{Fernet, IsLawful, TenantCreate, create}
use whatsapp_api.Tenants.Seed.{SeedSettings, SeededFrom, seed, seed_twice}
use whatsapp_api.Tenants.Crud.{create_deleted_slug}
use whatsapp_api.Auth.{
  key_context, authenticate, with_key, find_key, admit, stamp_use, admin_matches,
}
use whatsapp_api.Webhooks.Signature.{compare_digest}
use whatsapp_api.Auth.Keys.{IsAdminRequest, IsKeyRequest, authenticate_ok}
use whatsapp_api.Examples.{shop, shop-IsClean, client_key, settings}

-- A cipher that puts a text behind a mark.
abbrev marked : Fernet
marked = record { encrypt_text = mark; decrypt_text = unmark }
  where
    mark : String → String
    mark s = String.◌∷◌ "x" s

    unmark : String → Option String
    unmark String.[] = none
    unmark (String.◌∷◌ c s) = some s

marked-IsLawful : IsLawful marked
marked-IsLawful = record { decrypt-encrypt = λ s. refl }

abbrev new_shop : String → TenantCreate
new_shop slug = record {
  name = "New";
  slug = slug;
  waba_id = "w3";
  phone_number_id = "300";
  access_token = "secret";
  plan = "free";
  monthly_message_limit = 1000;
}

abbrev hash : String → String
hash s = "#" <> s

abbrev prodaxis : SeedSettings
prodaxis = record {
  default_tenant_name = "Prodaxis";
  default_tenant_slug = "prodaxis";
  meta_waba_id = "w9";
  meta_phone_number_id = "900";
  meta_access_token = "secret";
}

authenticate_ok_example :
    (((key_context client_key).is_admin ≡ true)
      × (IsAdminRequest hash settings shop shop-IsClean) (some "secret"))
    ⊎ (IsKeyRequest hash settings shop shop-IsClean) (some "secret") (key_context client_key)
unfolding authenticate with_key find_key admit stamp_use admin_matches compare_digest str_eq flush
authenticate_ok_example =
    authenticate_ok hash settings shop shop-IsClean (some "secret") (key_context client_key) refl

seed_twice_example :
    (s' : Db) × (seed none prodaxis shop ≡ (ok tt, s'))
    × ((SeededFrom none prodaxis)) shop s'
    × (seed none prodaxis s' ≡ (ok tt, s'))
unfolding str_eq
seed_twice_example = seed_twice none prodaxis shop shop-IsClean (refl, (refl, tt))

create_deleted_slug_example :
    (create none ((new_shop "closed")) shop ≡ (err integrity_error, shop))
    × (response_status integrity_error ≡ 500)
unfolding str_eq
create_deleted_slug_example = create_deleted_slug none (new_shop "closed") shop refl refl
