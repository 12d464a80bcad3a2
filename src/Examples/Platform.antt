-- ===== src/Examples/Platform.antt =====
-- Examples on the application around the services: logging, requests, schemas and migrations.
use whatsapp_api.Base.{
  ℕ, ◌≤◌, ◌≡◌, refl, true, false, ◌&&◌, String, none, some, List, [], ◌∷◌, All, length, leb,
}
use whatsapp_api.Base.Text.{codes, strip, is_space}
use whatsapp_api.Base.Exec.{ok}
use whatsapp_api.Errors.{plain, conflict}
use whatsapp_api.Messages.{SendTextRequest}
use whatsapp_api.Logger.{LogRecord, LogValue, text, other, patcher}
use whatsapp_api.Logger.Tokens.{IsClean, patcher-IsClean}
use whatsapp_api.Config.{cors_origins}
use whatsapp_api.Config.Origins.{join, cors_origins-join}
use whatsapp_api.App.{Request, Ran, failed, service_error, request_context}
use whatsapp_api.App.Responses.{Answers, request_context_lem}
use whatsapp_api.App.Connections.{Process, startup, shutdown, done, more, pool_used, get_redis_pool}
use whatsapp_api.App.Connections.Laws.{start_of, lifespan_lem}
use whatsapp_api.Schemas.{validate_text, slug_fits}
use whatsapp_api.Schemas.Laws.{Sound, put_to, text_fits, validate_text_lem}
use whatsapp_api.Schemas.Slug.{described, slug_fits_lem}
use whatsapp_api.Migrations.{Schema}
use whatsapp_api.Migrations.Initial
use whatsapp_api.Migrations.ApiKeys
use whatsapp_api.Examples.{two_phones, two_phones-IsLawful}

abbrev logged : LogRecord ℕ
logged = record {
  message = text (codes "sent with EAA0123456789abcdefghijXYZ");
  extra = ("status", other 200) ∷ ("token", text (codes "EAA0123456789abcdefghijXYZ")) ∷ [];
}

abbrev named_request : Request
named_request = record { method = "GET"; path = "/"; x_request_id = some "r1" }

abbrev conflicting : Ran
conflicting = failed (service_error (plain conflict))

abbrev fresh_process : Process
fresh_process = record { pool = none; open_pools = []; engine_open = true; next = 0 }

abbrev origins : List String
origins = "http://localhost:3000" ∷ "https://prodaxis.in" ∷ []

abbrev hello : SendTextRequest
hello = record { tenant_id = none; to = " 14155552671 "; text = "hello"; preview_url = false }

abbrev other_tables : Schema
other_tables = record {
  types = [];
  tables = record { name = "alembic_version"; columns = []; uniques = [] } ∷ [];
  indexes = [];
}

patcher-IsClean_example :
    IsClean (patcher logged).message
    × All (λ (kv : String × LogValue ℕ). IsClean kv.1) (patcher logged).extra
patcher-IsClean_example = patcher-IsClean logged

request_context_lem_example :
    ((Answers "u1" named_request)) conflicting (request_context "u1" named_request conflicting)
request_context_lem_example = request_context_lem "u1" named_request conflicting

lifespan_lem_example :
    ((startup true none ((some true)) fresh_process).0 ≡ ok (start_of true none ((some true))))
    × ((shutdown true ((get_redis_pool (startup true none (some true) fresh_process).1).1)).0
        ≡ ok tt)
    × ((shutdown true
          ((get_redis_pool (startup true none (some true) fresh_process).1).1)).1.open_pools
        ≡ [])
    × ((shutdown true ((get_redis_pool (startup true none (some true) fresh_process).1).1)).1.pool
        ≡ none)
    × ((shutdown true
          ((get_redis_pool (startup true none (some true) fresh_process).1).1)).1.engine_open
        ≡ false)
lifespan_lem_example =
    lifespan_lem true none (some true) fresh_process _ refl (more (pool_used _) done)

cors_origins-join_example : cors_origins (join origins) ≡ origins
unfolding strip is_space
cors_origins-join_example = cors_origins-join origins (
  record { not_empty = refl; one = refl; stripped = refl },
  (record { not_empty = refl; one = refl; stripped = refl }, tt),
)

validate_text_lem_example :
    Sound two_phones
      (λ (q : SendTextRequest). q.to)
      put_to
      text_fits
      hello
      (validate_text two_phones hello)
validate_text_lem_example = validate_text_lem two_phones two_phones-IsLawful hello

slug_fits_lem_example :
    (slug_fits "acme-qa" ≡ (described (codes "acme-qa") && leb (length (codes "acme-qa")) 80))
    × (slug_fits "acme-qa" ≡ true → 2 ≤ length (codes "acme-qa"))
slug_fits_lem_example = slug_fits_lem "acme-qa"
