-- ===== src/Api/Laws.antt =====
-- What an endpoint leaves in the database, whatever its service does.
use whatsapp_api.Base.{◌≡◌, refl, ◌∙◌}
use whatsapp_api.Base.Exec.{Result, ok, err, Action, ◌>>=◌, ◌>>◌, pure}
use whatsapp_api.Base.Ensures.{Outcome, outcome_bind}
use whatsapp_api.Errors.{Error}
use whatsapp_api.Store.{Db, flush}
use whatsapp_api.Store.Sessions.{Request, get_session, commit, keep_commit, on_work}
use whatsapp_api.Auth.{AuthContext}
use whatsapp_api.Client.{Http}
use whatsapp_api.RateLimiter.{Redis}
use whatsapp_api.Messages.{World}
use whatsapp_api.Api.{
  read_with, write_with, serve, db_view, db_put, world_view, world_put, in_world,
}

module _ {S : Type 0} (view : S → Db) (put : Db → S → S) (d : Db) where
  -- Nothing but a commit stores.
  abbrev Untouched : {A : Type 0} → Result A × Request S → Type 0
  Untouched = Outcome (λ _ (p : Request S). p.stored ≡ d) (λ _ (p : Request S). p.stored ≡ d)

  abbrev AtomicAfter : {A : Type 0} → Result A × Request S → Type 0
  AtomicAfter = Outcome (λ _ _. Unit) (λ _ (p : Request S). p.stored ≡ d)

  work_untouched :
      {A : Type 0} (m : Action S A) (q : Request S)
      → q.stored ≡ d
      → Untouched (on_work view put m q)
  work_untouched {A} m q h = go (m q.work)
    where
      go : (p : Result A × S) → Untouched (p.0, record { work = p.1; stored = q.stored })
      go (ok a, u) = h
      go (err e, u) = h

  finish_atomic :
      {A : Type 0} (a : A) (q : Request S)
      → q.stored ≡ d
      → AtomicAfter ((commit view put >> pure a) q)
  unfolding commit
  finish_atomic a q h =
      outcome_bind (λ _ _. Unit) (λ _ _. Unit) (λ _ (p : Request S). p.stored ≡ d) (commit view put)
        (λ _. pure a) q (go (flush (view q.work))) (λ _ u _. tt)
    where
      go : (p : Result (Unit {0}) × Db) → AtomicAfter (keep_commit view put q p)
      go (ok _, x) = tt
      go (err e, x) = h

  -- The check of the key, the service's work, and the commit.
  work_atomic :
      {A B : Type 0} (auth : Action S B) (m : B → Action S A) (q : Request S)
      → q.stored ≡ d
      → AtomicAfter (
          (on_work view put auth >>= λ ctx.
          on_work view put (m ctx) >>= λ result. commit view put >> pure result)
            q)
  work_atomic auth m q h =
      outcome_bind (λ _ (p : Request S). p.stored ≡ d) (λ _ _. Unit)
        (λ _ (p : Request S). p.stored ≡ d) (on_work view put auth) _ q (work_untouched auth q h)
        (λ ctx u k.
          outcome_bind (λ _ (p : Request S). p.stored ≡ d) (λ _ _. Unit)
            (λ _ (p : Request S). p.stored ≡ d) (on_work view put (m ctx)) _ u
            (work_untouched (m ctx) u k) (λ a v l. finish_atomic a v l))

module _ {S A : Type 0} (view : S → Db) (put : Db → S → S)
    (view-put : (d : Db) (s : S) → view (put d s) ≡ d) where
  session_atomic :
      (m : Action (Request S) A) (s : S) (e : Error)
      → AtomicAfter view put (view s) (m (record { work = s; stored = view s }))
      → (get_session view put m s).0 ≡ err e
      → view (get_session view put m s).1 ≡ view s
  unfolding get_session
  session_atomic m s e h k = go (m (record { work = s; stored = view s })) h k
    where
      go :
          (p : Result A × Request S)
          → AtomicAfter view put (view s) p
          → p.0 ≡ err e
          → view (put p.1.stored p.1.work) ≡ view s
      go (ok a, q) h k = cc
      go (err f, q) h k = view-put q.stored q.work ∙ h

  session_untouched :
      (m : Action (Request S) A) (s : S)
      → Untouched view put (view s) (m (record { work = s; stored = view s }))
      → view (get_session view put m s).1 ≡ view s
  unfolding get_session
  session_untouched m s h = go (m (record { work = s; stored = view s })) h
    where
      go :
          (p : Result A × Request S)
          → Untouched view put (view s) p
          → view (put p.1.stored p.1.work) ≡ view s
      go (ok a, q) h = view-put q.stored q.work ∙ h
      go (err f, q) h = view-put q.stored q.work ∙ h

-- An endpoint that reads leaves the database as it was, the use of the key included.
read_with_lem :
    {A : Type 0} (auth : Action Db AuthContext) (m : Action Db A) (s : Db)
    → (read_with auth m s).1 ≡ s
unfolding read_with
read_with_lem auth m s =
    session_untouched db_view db_put (λ d s. refl) (on_work db_view db_put (auth >> m)) s
      (work_untouched db_view db_put s (auth >> m) (record { work = s; stored = s }) refl)

-- An endpoint that writes, on the database alone or with calls of Meta, and that raises, in the check
-- of the key, in the service or in the commit, leaves the database as it was before the request.
write_rolled_back :
    (redis : Redis) (http : Http) {A : Type 0} (auth : Action Db AuthContext) (e : Error)
    → ((m : Action Db A) (s : Db) → (write_with auth m s).0 ≡ err e → (write_with auth m s).1 ≡ s)
      × ((m : AuthContext → Action (World redis http) A) (w : World redis http)
          → (serve redis http auth m w).0 ≡ err e
          → (serve redis http auth m w).1.db ≡ w.db)
unfolding write_with serve
write_rolled_back redis http auth e = (
  λ m s.
      session_atomic db_view db_put (λ d s. refl) _ s e
        (work_atomic db_view db_put s auth (λ _. m) (record { work = s; stored = s }) refl),
  λ m w.
      session_atomic (world_view redis http) (world_put redis http) (λ d w. refl) _ w e
        (work_atomic (world_view redis http) (world_put redis http) w.db (in_world redis http auth)
          m (record { work = w; stored = w.db }) refl),
)
