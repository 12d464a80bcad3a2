-- ===== src/Api.antt =====
-- The endpoints of src/api/v1 over the services, each in a session of its own. FastAPI, which parses
-- the requests and writes the answers, is not modelled: an endpoint takes what was parsed, and a
-- row stands for its response model.
pub mod Kept
pub mod Laws
pub mod Sending
pub mod Reading
pub mod Bulk
pub mod Manage
use whatsapp_api.Base.Exec.{Action, ◌>>=◌, ◌>>◌, pure, within}
use whatsapp_api.Store.{Db}
use whatsapp_api.Store.Sessions.{get_session, commit, on_work}
use whatsapp_api.Client.{Http}
use whatsapp_api.RateLimiter.{Redis}
use whatsapp_api.Auth.{AuthContext}
use whatsapp_api.Messages.{World}

-- Endpoints that work on the database alone.
abbrev pub db_view : Db → Db
db_view s = s

abbrev pub db_put : Db → Db → Db
db_put d _ = d

-- A read: nothing is committed, so the use of the key that `authenticate` stamps is lost.
unfoldable pub read_with : {A : Type 0} → Action Db AuthContext → Action Db A → Action Db A
read_with auth m = get_session db_view db_put (on_work db_view db_put (auth >> m))

-- `await session.commit()` after the service's call.
unfoldable pub write_with : {A : Type 0} → Action Db AuthContext → Action Db A → Action Db A
write_with auth m = get_session db_view db_put (do
  on_work db_view db_put auth
  result ← on_work db_view db_put m
  commit db_view db_put
  pure result)

module _ (redis : Redis) (http : Http) where
  abbrev pub world_view : World redis http → Db
  world_view w = w.db

  abbrev pub world_put : Db → World redis http → World redis http
  world_put d w = record w { db = d }

  abbrev pub in_world : {A : Type 0} → Action Db A → Action (World redis http) A
  in_world m = within world_view world_put m

  -- An endpoint that writes and may call Meta, with what it does before the service.
  unfoldable pub serve :
      {A : Type 0}
      → Action Db AuthContext
      → (AuthContext → Action (World redis http) A)
      → Action (World redis http) A
  serve auth m = get_session world_view world_put (do
    ctx ← on_work world_view world_put (in_world auth)
    result ← on_work world_view world_put (m ctx)
    commit world_view world_put
    pure result)
