-- ===== src/Store/Sessions.antt =====
-- The sessions of database.py: `session_scope` of the tasks, and `get_session` of the requests.
use whatsapp_api.Base.{◌≡◌}
use whatsapp_api.Base.Exec.{Result, ok, err, Action, within}
use whatsapp_api.Errors.{Error}
use whatsapp_api.Store.{Db, flush}

module _ {S A : Type 0} (view : S → Db) (put : Db → S → S) where
  -- `session.rollback()`: the database is as it was before.
  abbrev rolled_back : S → Error → S → Result A × S
  rolled_back before e after = (err e, put (view before) after)

  abbrev pub committed : S → A → Result (Unit {0}) × Db → S → Result A × S
  committed before a (ok _, d) after = (ok a, put d after)
  committed before a (err e, d) after = rolled_back before e after

  abbrev pub closed : S → Result A × S → Result A × S
  closed before (ok a, after) = committed before a (flush (view after)) after
  closed before (err e, after) = rolled_back before e after

  -- The body in a session of its own, which is committed at the end, or rolled back where the
  -- body or the commit raises.
  unfoldable pub session_scope : Action S A → Action S A
  session_scope body before = closed before (body before)

module _ {S A : Type 0} (view : S → Db) (put : Db → S → S)
    (view-put : (d : Db) (s : S) → view (put d s) ≡ d) where
  -- Whatever the body does, and wherever it or the commit raises, the database is as it was before.
  pub session_scope_rolled_back :
      (body : Action S A) (s : S) (e : Error)
      → (session_scope view put body s).0 ≡ err e
      → view (session_scope view put body s).1 ≡ view s
  unfolding session_scope
  session_scope_rolled_back body s e h = go (body s) h
    where
      commit :
          (a : A) (u : S) (p : Result (Unit {0}) × Db)
          → (committed view put s a p u).0 ≡ err e
          → view (committed view put s a p u).1 ≡ view s
      commit a u (ok _, d) k = cc
      commit a u (err f, d) k = view-put (view s) u

      go :
          (p : Result A × S)
          → (closed view put s p).0 ≡ err e
          → view (closed view put s p).1 ≡ view s
      go (ok a, u) k = commit a u (flush (view u)) k
      go (err f, u) k = view-put (view s) u

-- The work of one request on a state with a session: `get_session` yields it, `commit` stores what
-- it holds, and at the end, whether the request raised or not, what was not committed is lost.
pub record Request (S : Type 0) : Type 0 where
  pub work : S
  pub stored : Db

module _ {S : Type 0} (view : S → Db) (put : Db → S → S) where
  abbrev pub keep_commit : Request S → Result (Unit {0}) × Db → Result (Unit {0}) × Request S
  keep_commit q (ok _, d) = (ok tt, record { work = put d q.work; stored = d })
  keep_commit q (err e, d) = (err e, q)

  -- `await session.commit()`
  unfoldable pub commit : Action (Request S) (Unit {0})
  commit q = keep_commit q (flush (view q.work))

  abbrev pub on_work : {A : Type 0} → Action S A → Action (Request S) A
  on_work m = within (λ (q : Request S). q.work) (λ s (q : Request S). record q { work = s }) m

  -- The dependency `get_session`, around the whole request.
  unfoldable pub get_session : {A : Type 0} → Action (Request S) A → Action S A
  get_session m s =
      let (r, q) = m (record { work = s; stored = view s }) in (r, put q.stored q.work)
