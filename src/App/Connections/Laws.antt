-- ===== src/App/Connections/Laws.antt =====
-- No pool of connections is leaked, and the life of the application.
use whatsapp_api.Base.{
  ℕ, ◌≡◌, refl, sym, ◌∙◌, ap, subst, Bool, true, false, not, ◌&&◌, Option, none, some, [], ◌∷◌,
  ==_refl,
}
use whatsapp_api.Base.Exec.{ok, ◌>>=◌, pure}
use whatsapp_api.App.Connections.{
  Process, get_or_open, get_redis_pool, without, answered, check_redis_connection, close_pool,
  close_redis, check_db_connection, close_db, Started, startup, shutdown, Step, pool_used,
  pool_checked, pool_closed, Steps, done, more, held, NoLeak,
}

get_redis_pool-NoLeak : (s : Process) → NoLeak s → NoLeak (get_redis_pool s).1
unfolding get_redis_pool
get_redis_pool-NoLeak s h = go s.pool refl
  where
    go : (p : Option ℕ) → s.pool ≡ p → NoLeak (get_or_open p s).1
    go none e = ap (λ l. s.next ∷ l) (h ∙ ap held e)
    go (some k) e = h

check_redis_connection-eq :
    (pong : Option Bool) (s : Process)
    → check_redis_connection pong s ≡ (ok (answered pong), (get_redis_pool s).1)
unfolding check_redis_connection get_redis_pool
check_redis_connection-eq pong s = go s.pool
  where
    go :
        (p : Option ℕ)
        → (get_or_open p >>= λ _. pure (answered pong)) s
          ≡ (ok (answered pong), (get_or_open p s).1)
    go none = refl
    go (some k) = refl

close_redis-closed :
    (s : Process)
    → NoLeak s
    → ((close_redis true s).0 ≡ ok tt)
      × ((close_redis true s).1.pool ≡ none)
      × ((close_redis true s).1.open_pools ≡ [])
      × ((close_redis true s).1.engine_open ≡ s.engine_open)
unfolding close_redis
close_redis-closed s h = go s.pool refl
  where
    go :
        (p : Option ℕ)
        → s.pool ≡ p
        → ((close_pool true p s).0 ≡ ok tt)
          × ((close_pool true p s).1.pool ≡ none)
          × ((close_pool true p s).1.open_pools ≡ [])
          × ((close_pool true p s).1.engine_open ≡ s.engine_open)
    go none e = (refl, e, h ∙ ap held e, refl)
    go (some k) e = (refl, refl, ap (without k) (h ∙ ap held e) ∙ rw (==_refl k) refl, refl)

close_redis-NoLeak :
    (disconnects : Bool) (s : Process) → NoLeak s → NoLeak (close_redis disconnects s).1
unfolding close_redis
close_redis-NoLeak true s h =
    let (_, gone, empty, _) = close_redis-closed s h in empty ∙ sym (ap held gone)
close_redis-NoLeak false s h = kept s.pool
  where
    kept : (p : Option ℕ) → NoLeak (close_pool false p s).1
    kept none = h
    kept (some k) = h

Step-NoLeak : {s t : Process} → Step s t → NoLeak s → NoLeak t
Step-NoLeak (pool_used s) h = get_redis_pool-NoLeak s h
Step-NoLeak (pool_checked pong s) h =
    subst NoLeak (sym (ap (λ r. r.1) (check_redis_connection-eq pong s)))
      (get_redis_pool-NoLeak s h)
Step-NoLeak (pool_closed disconnects s) h = close_redis-NoLeak disconnects s h

Steps-NoLeak : {s t : Process} → Steps s t → NoLeak s → NoLeak t
Steps-NoLeak done h = h
Steps-NoLeak (more step steps) h = Steps-NoLeak steps (Step-NoLeak step h)

abbrev pub start_of : Bool → Option (Unit {0}) → Option Bool → Started
start_of is_production query pong = record {
  db_ok = check_db_connection query;
  redis_ok = answered pong;
  failing_fast = not (check_db_connection query) && is_production;
}

startup-eq :
    (is_production : Bool) (query : Option (Unit {0})) (pong : Option Bool) (s : Process)
    → startup is_production query pong s
      ≡ (ok (start_of is_production query pong), (check_redis_connection pong s).1)
unfolding startup
startup-eq is_production query pong s = rw (check_redis_connection-eq pong s) refl

-- The life of the application: it starts whatever the probes answer, in production with no database
-- too, and after any use of the pool a shutdown that can disconnect leaves no pool open, nor the
-- engine.
pub lifespan_lem :
    (is_production : Bool) (query : Option (Unit {0})) (pong : Option Bool) (s t : Process)
    → NoLeak s
    → Steps (startup is_production query pong s).1 t
    → ((startup is_production query pong s).0 ≡ ok (start_of is_production query pong))
      × ((shutdown true t).0 ≡ ok tt)
      × ((shutdown true t).1.open_pools ≡ [])
      × ((shutdown true t).1.pool ≡ none)
      × ((shutdown true t).1.engine_open ≡ false)
unfolding shutdown close_db
lifespan_lem is_production query pong s t h steps =
    let e = startup-eq is_production query pong s in
    let started : NoLeak (startup is_production query pong s).1 =
      subst NoLeak (sym (ap (λ r. r.1) e)) (Step-NoLeak (pool_checked pong s) h) in
    let (fine, gone, empty, engine) =
      close_redis-closed (record t { engine_open = false }) (Steps-NoLeak steps started) in
    (ap (λ r. r.0) e, fine, empty, gone, engine)
