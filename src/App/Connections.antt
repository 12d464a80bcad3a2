-- ===== src/App/Connections.antt =====
-- redis_client.py, the probe and the closing of database.py, and `lifespan` of main.py. The packages
-- `redis` and `sqlalchemy` are parameters: whether a ping, a query, or a disconnect succeeds. A
-- connection pool is a number.
pub mod Laws
use whatsapp_api.Base.{
  ℕ, suc, ◌+◌, ◌≡◌, ◌∙◌, Bool, true, false, not, ◌&&◌, Option, none, some, List, [], ◌∷◌, ◌++◌,
  if◌then◌else◌, ◌==◌,
}
use whatsapp_api.Base.Exec.{ok, err, Action, ◌>>=◌, ◌>>◌, pure}
use whatsapp_api.Errors.{redis_error}

-- The process: the global `_pool`, the pools that are open, and whether the engine is; `next` is the
-- number of the next pool.
pub record Process : Type 0 where
  pub pool : Option ℕ
  pub open_pools : List ℕ
  pub engine_open : Bool
  pub next : ℕ

abbrev pub get_or_open : Option ℕ → Action Process ℕ
get_or_open (some k) s = (ok k, s)
get_or_open none s = (
  ok s.next,
  record s { pool = some s.next; open_pools = s.next ∷ s.open_pools; next = suc s.next },
)

unfoldable pub get_redis_pool : Action Process ℕ
get_redis_pool s = get_or_open s.pool s

abbrev pub without : ℕ → List ℕ → List ℕ
without k [] = []
without k (j ∷ js) = let rest = without k js in if j == k then rest else j ∷ rest

-- `bool(pong)`, and `False` where the ping raises.
abbrev pub answered : Option Bool → Bool
answered none = false
answered (some pong) = pong

unfoldable pub check_redis_connection : Option Bool → Action Process Bool
check_redis_connection pong = do _ ← get_redis_pool; pure (answered pong)

-- `_pool.disconnect()`, which may raise.
abbrev pub close_pool : Bool → Option ℕ → Action Process (Unit {0})
close_pool disconnects none s = (ok tt, s)
close_pool true (some k) s = (ok tt, record s { pool = none; open_pools = without k s.open_pools })
close_pool false (some k) s = (err redis_error, s)

unfoldable pub close_redis : Bool → Action Process (Unit {0})
close_redis disconnects s = close_pool disconnects s.pool s

-- `SELECT 1`
unfoldable pub check_db_connection : Option (Unit {0}) → Bool
check_db_connection none = false
check_db_connection (some _) = true

unfoldable pub close_db : Action Process (Unit {0})
close_db s = (ok tt, record s { engine_open = false })

-- `lifespan` until `yield`: the answers of the two probes, and the line that is logged where the
-- database is not there.
pub record Started : Type 0 where
  pub db_ok : Bool
  pub redis_ok : Bool
  pub failing_fast : Bool

unfoldable pub startup : Bool → Option (Unit {0}) → Option Bool → Action Process Started
startup is_production query pong = do
  redis_ok ← check_redis_connection pong
  pure (record {
    db_ok = check_db_connection query;
    redis_ok = redis_ok;
    failing_fast = not (check_db_connection query) && is_production;
  })

-- `lifespan` after `yield`.
unfoldable pub shutdown : Bool → Action Process (Unit {0})
shutdown disconnects = do close_db; close_redis disconnects

-- What the running application does with the pool: any number of requests, and of closings.
pub data Step : Process → Process → Type 0 where
  pool_used : (s : Process) → Step s (get_redis_pool s).1
  pool_checked : (pong : Option Bool) (s : Process) → Step s (check_redis_connection pong s).1
  pool_closed : (disconnects : Bool) (s : Process) → Step s (close_redis disconnects s).1

pub data Steps : Process → Process → Type 0 where
  done : {s : Process} → Steps s s
  more : {s t u : Process} → Step s t → Steps t u → Steps s u

-- The pool that is held is the only one that is open.
abbrev pub held : Option ℕ → List ℕ
held none = []
held (some k) = k ∷ []

abbrev pub NoLeak : Process → Type 0
NoLeak s = s.open_pools ≡ held s.pool
