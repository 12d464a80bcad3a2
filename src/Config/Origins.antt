-- ===== src/Config/Origins.antt =====
-- The origins that CORS allows, and the URLs of Celery.
use Prim.Native.Char.{Char, code}
use Prim.Native.String.append
use whatsapp_api.Base.{
  ◌≡◌, refl, ◌∙◌, ap, Bool, true, false, not, String, ◌<>◌, Option, none, some, List, [], ◌∷◌, map,
  select, All, arith, ◌==◌, if◌then◌else◌,
}
use whatsapp_api.Base.Text.{is_empty, strip}
use whatsapp_api.Config.{
  split_commas, cors_origins, default_broker, default_backend, celery_broker, celery_backend,
}

abbrev no_comma : String → Bool
no_comma String.[] = true
no_comma (String.◌∷◌ c s) = let rest = no_comma s in if code c == b',' then false else rest

-- An origin as it is listed: not empty, without a comma, and with no space around it.
pub record IsOrigin (o : String) : Type 0 where
  pub not_empty : is_empty o ≡ false
  pub one : no_comma o ≡ true
  pub stripped : strip o ≡ o

-- `",".join(...)`
abbrev pub join : List String → String
join [] = ""
join (o ∷ []) = o
join (o ∷ p ∷ ps) = o <> ("," <> join (p ∷ ps))

split_one : (o : String) → no_comma o ≡ true → split_commas o ≡ o ∷ []
unfolding split_commas
split_one String.[] h = refl
split_one (String.◌∷◌ c s) h = ground (arith, split_one s)

split_comma :
    (c : Char) (s : String)
    → (code c == b',') ≡ true
    → split_commas (String.◌∷◌ c "" <> s) ≡ "" ∷ split_commas s
unfolding split_commas
split_comma c s h = rw (append.cons c "" s, append.nil s, h) refl

split_more :
    (o s : String) → no_comma o ≡ true → split_commas (o <> ("," <> s)) ≡ o ∷ split_commas s
unfolding split_commas
split_more String.[] s h = rw (append.nil ("," <> s)) (split_comma _ s refl)
split_more (String.◌∷◌ c o) s h = rw (append.cons c o ("," <> s)) (ground (arith, split_more o s))

split-join :
    (o : String) (os : List String) → All IsOrigin (o ∷ os) → split_commas (join (o ∷ os)) ≡ o ∷ os
split-join o [] h = split_one o h.0.one
split-join o (p ∷ ps) h =
    split_more o (join (p ∷ ps)) h.0.one ∙ ap (λ l. o ∷ l) (split-join p ps h.1)

origins_kept :
    (os : List String)
    → All IsOrigin os
    → map strip (select (λ o. not (is_empty (strip o))) os) ≡ os
origins_kept [] h = refl
origins_kept (o ∷ os) h =
    rw (h.0.stripped, h.0.not_empty, origins_kept os h.1) (ap (λ p. p ∷ os) h.0.stripped)

-- A list of origins that is written with commas is read back as it was, the empty list too.
pub cors_origins-join : (os : List String) → All IsOrigin os → cors_origins (join os) ≡ os
unfolding cors_origins split_commas strip
cors_origins-join [] h = refl
cors_origins-join (o ∷ os) h = rw (split-join o os h) (origins_kept (o ∷ os) h)

-- The validators change nothing of the URLs that Celery gets.
celery_urls :
    (v : Option String) (redis_url : String)
    → (celery_broker (default_broker v (some redis_url)) redis_url ≡ celery_broker v redis_url)
      × (celery_backend (default_backend v (some redis_url)) redis_url ≡ celery_backend v redis_url)
unfolding celery_broker celery_backend default_broker default_backend
celery_urls none String.[] = (refl, refl)
celery_urls none (String.◌∷◌ c s) = (refl, refl)
celery_urls (some String.[]) String.[] = (refl, refl)
celery_urls (some String.[]) (String.◌∷◌ c s) = (refl, refl)
celery_urls (some (String.◌∷◌ c v)) s = (refl, refl)
