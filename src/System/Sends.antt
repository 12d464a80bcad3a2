-- ===== src/System/Sends.antt =====
-- The two endpoints that send, on requests with a phone in E.164.
use whatsapp_api.Base.{◌≡◌, refl, true, not, String, Option}
use whatsapp_api.Base.Exec.{Result, ok, err, Action, ◌>>=◌, ◌>>◌, pure, modify, within}
use whatsapp_api.Base.Ensures.{Outcome}
use whatsapp_api.Base.Keeps.{Keeps, Keeps-guard, Keeps-from, Yields, keeps_rules, yields_rules}
use whatsapp_api.Errors.{Error}
use whatsapp_api.Json.{Json}
use whatsapp_api.Models.{Message, Settings, Tenant}
use whatsapp_api.Store.{Db, flush}
use whatsapp_api.Store.Kept.{Keeps-served}
use whatsapp_api.Utils.Validators.{ParsedUrl}
use whatsapp_api.Tenants.{Fernet}
use whatsapp_api.Client.{Http}
use whatsapp_api.RateLimiter.{Redis, RateLimiter, acquire}
use whatsapp_api.Auth.{AuthContext, authenticate}
use whatsapp_api.Messages.{
  World, SendTextRequest, send_text, send_template, store_queued, record_failure, record_sent,
  response_id, attempt, settle, limited,
}
use whatsapp_api.Messages.Components.{SendTemplateRequest}
use whatsapp_api.Webhooks.Events.{add_message}
use whatsapp_api.Api.{serve, world_view, world_put}
use whatsapp_api.Api.Sending.{post_text, post_template}
use whatsapp_api.Tenants.Kept.{Keeps-resolve, Keeps-assert_quota}
use whatsapp_api.System.Access.{Keeps-authenticate, Keeps-increment_usage}
use whatsapp_api.System.Dialable.{
  Dialable, Dials, in_e164, Keeps-flush, Keeps-put_message, Keeps-add_message,
}

-- The row that is stored before a call is the one that is made, with its phone.
Yields-store_queued :
    (make : Db → Message) → ((s : Db) → Dials (make s)) → Yields Dialable Dials (store_queued make)
unfolding store_queued
Yields-store_queued make d = record { yields = λ s h. go (make s) (d s) s h }
  where
    go :
        (m : Message)
        → Dials m
        → (s : Db) → Dialable s
        → Outcome
            (λ a u. Dials a × Dialable u)
            (λ _ u. Dialable u)
            ((modify (add_message m) >> (flush >> pure m)) s)
    go m k s h = (stored m k).yields s h
      where
        stored :
            (m : Message)
            → Dials m
            → Yields Dialable Dials (modify (add_message m) >> (flush >> pure m))
        stored m k = search (keeps_rules, yields_rules, Keeps-add_message, Keeps-flush)

pub Keeps-response_id : (response : Json) → Keeps Dialable (response_id response)
unfolding response_id
Keeps-response_id response = search keeps_rules

Keeps-record_failure :
    (describe : Error → String) (e : Error) (m : Message)
    → Dials m
    → Keeps Dialable (record_failure describe e m)
unfolding record_failure
Keeps-record_failure describe e m d = search (keeps_rules, Keeps-flush, Keeps-put_message) depth 12

Keeps-record_sent :
    (t : Tenant) (to : String) (m : Message) (response : Json)
    → Dials m
    → Keeps Dialable (record_sent t to m response)
unfolding record_sent
Keeps-record_sent t to m response d =
    search (keeps_rules, Keeps-flush, Keeps-put_message, Keeps-response_id, Keeps-increment_usage)
      depth 16

module _ (redis : Redis) (http : Http) where
  -- The database of a world.
  abbrev pub OnDb : World redis http → Type 0
  OnDb w = Dialable w.db

  pub Keeps-within_db :
      {A : Type 0} (m : Action Db A)
      → Keeps Dialable m
      → Keeps OnDb (within (world_view redis http) (world_put redis http) m)
  Keeps-within_db m k = record { at = λ w h. k.at w.db h }

  pub Yields-within_db :
      {A : Type 0} (Q : A → Type 0) (m : Action Db A)
      → Yields Dialable Q m
      → Yields OnDb Q (within (world_view redis http) (world_put redis http) m)
  Yields-within_db {A} Q m y = record { yields = λ w h. go w (m w.db) (y.yields w.db h) }
    where
      go :
          (w : World redis http) (p : Result A × Db)
          → Outcome (λ a u. Q a × Dialable u) (λ _ u. Dialable u) p
          → Outcome (λ a u. Q a × OnDb u) (λ _ u. OnDb u) (p.0, world_put redis http p.1 w)
      go w (ok a, u) k = k
      go w (err e, u) k = k

  module _ (fernet : Option Fernet) (limiter : RateLimiter) (settings : Settings)
      (describe : Error → String) where
    pub Keeps-limited :
        (t : Tenant) (to : String)
        → Keeps OnDb (limited redis http fernet limiter settings describe t to)
    unfolding limited
    Keeps-limited t to = record {
      at = λ w h.
          let (granted, c) = acquire redis limiter t.phone_number_id to w.counters in
          (Keeps-guard {P = OnDb} (not granted) _).at (record w { counters = c }) h;
    }

    pub Keeps-attempt :
        (m : Action http.State Json)
        → Keeps OnDb (attempt redis http fernet limiter settings describe m)
    Keeps-attempt m = record { at = λ w h. h }

    Keeps-settle :
        (t : Tenant) (to : String) (m : Message) (r : Result Json)
        → Dials m
        → Keeps OnDb (settle redis http fernet limiter settings describe t to m r)
    Keeps-settle t to m (ok response) d = Keeps-within_db _ (Keeps-record_sent t to m response d)
    Keeps-settle t to m (err e) d = Keeps-within_db _ (Keeps-record_failure describe e m d)

    -- The row is stored, and what follows knows its phone.
    pub Keeps-stored :
        {A : Type 0} (make : Db → Message) (f : Message → Action (World redis http) A)
        → ((s : Db) → Dials (make s))
        → ((m : Message) → Dials m → Keeps OnDb (f m))
        → Keeps OnDb
            (within (world_view redis http) (world_put redis http) (store_queued make) >>= f)
    Keeps-stored make f d kf =
        Keeps-from Dials _ f (Yields-within_db Dials _ (Yields-store_queued make d)) kf

    Keeps-send_text :
        (p : SendTextRequest)
        → in_e164 p.to ≡ true
        → Keeps OnDb (send_text redis http fernet limiter settings describe p)
    unfolding send_text
    Keeps-send_text p shape =
        search
          (
            keeps_rules, Keeps-within_db, Keeps-resolve, Keeps-assert_quota, Keeps-limited,
            Keeps-stored, Keeps-attempt, Keeps-settle,
          )
          depth 16

    Keeps-send_template :
        (urlparse : String → ParsedUrl) (p : SendTemplateRequest)
        → in_e164 p.to ≡ true
        → Keeps OnDb (send_template redis http fernet limiter settings describe urlparse p)
    unfolding send_template
    Keeps-send_template urlparse p shape =
        search
          (
            keeps_rules, Keeps-within_db, Keeps-resolve, Keeps-assert_quota, Keeps-limited,
            Keeps-stored, Keeps-attempt, Keeps-settle,
          )
          depth 16

    pub Keeps-serve :
        {A : Type 0} (auth : Action Db AuthContext) (m : AuthContext → Action (World redis http) A)
        → Keeps Dialable auth
        → ((ctx : AuthContext) → Keeps OnDb (m ctx))
        → Keeps OnDb (serve redis http auth m)
    unfolding serve
    Keeps-serve auth m ka km =
        Keeps-served Dialable (world_view redis http) (world_put redis http) (λ _ _. refl)
          Keeps-flush _ m (Keeps-within_db auth ka) km

    module _ (hash_key : String → String) (x_api_key : Option String) where
      pub Keeps-post_text :
          (p : SendTextRequest)
          → in_e164 p.to ≡ true
          → Keeps OnDb (post_text redis http fernet limiter settings describe hash_key x_api_key p)
      unfolding post_text
      Keeps-post_text p shape =
          Keeps-serve (authenticate hash_key settings x_api_key) _
            (Keeps-authenticate hash_key settings x_api_key)
            (λ ctx. search (keeps_rules, Keeps-send_text))

      pub Keeps-post_template :
          (urlparse : String → ParsedUrl) (p : SendTemplateRequest)
          → in_e164 p.to ≡ true
          → Keeps OnDb (
              post_template redis http fernet limiter settings describe hash_key x_api_key urlparse
                p)
      unfolding post_template
      Keeps-post_template urlparse p shape =
          Keeps-serve (authenticate hash_key settings x_api_key) _
            (Keeps-authenticate hash_key settings x_api_key)
            (λ ctx. search (keeps_rules, Keeps-send_template))
