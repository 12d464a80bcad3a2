-- ===== src/Config.antt =====
-- config.py: the values that are derived from the settings.
pub mod Origins
use whatsapp_api.Base.{
  ◌≡◌, Bool, not, String, Option, none, some, List, [], ◌∷◌, map, select, ◌==◌, str_eq,
  if◌then◌else◌,
}
use whatsapp_api.Base.Text.{is_empty, strip}
use whatsapp_api.Errors.{text_or}
use Prim.Native.Char.{Char, code}

abbrev extend : Char → List String → List String
extend c [] = String.◌∷◌ c String.[] ∷ []
extend c (p ∷ ps) = String.◌∷◌ c p ∷ ps

-- `s.split(",")`
unfoldable pub split_commas : String → List String
split_commas String.[] = "" ∷ []
split_commas (String.◌∷◌ c s) =
    let rest = split_commas s in if code c == b',' then "" ∷ rest else extend c rest

-- `Settings.cors_origins`
unfoldable pub cors_origins : String → List String
cors_origins allowed = map strip (select (λ o. not (is_empty (strip o))) (split_commas allowed))

-- `v or other` on optional texts.
abbrev or_text : Option String → Option String → Option String
or_text none other = other
or_text (some String.[]) other = other
or_text (some s) other = some s

-- The validators of the two URLs of Celery, which run on values that are given.
unfoldable pub default_broker : Option String → Option String → Option String
default_broker v redis_url = or_text v redis_url

unfoldable pub default_backend : Option String → Option String → Option String
default_backend v redis_url = or_text v redis_url

unfoldable pub celery_broker : Option String → String → String
celery_broker celery_broker_url redis_url = text_or celery_broker_url redis_url

unfoldable pub celery_backend : Option String → String → String
celery_backend celery_result_backend redis_url = text_or celery_result_backend redis_url

unfoldable is_production : String → Bool
is_production app_env = str_eq app_env "production"

unfoldable is_development : String → Bool
is_development app_env = str_eq app_env "development"
