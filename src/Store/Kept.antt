-- ===== src/Store/Kept.antt =====
-- The sessions keep what their bodies and the flush keep.
use whatsapp_api.Base.{◌≡◌, sym, subst}
use whatsapp_api.Base.Exec.{Result, ok, err, Action, ◌>>=◌, ◌>>◌, pure}
use whatsapp_api.Base.Keeps.{Keeps, Keeps-bind, Keeps-pure}
use whatsapp_api.Store.{Db, flush}
use whatsapp_api.Store.Sessions.{
  session_scope, committed, closed, Request, keep_commit, commit, on_work, get_session,
}

module _ {S : Type 0} (P : Db → Type 0) (view : S → Db) (put : Db → S → S)
    (view-put : (d : Db) (s : S) → view (put d s) ≡ d) (flushed : Keeps P flush) where
  -- Both what the session holds and what is stored.
  abbrev Both : Request S → Type 0
  Both q = P (view q.work) × P q.stored

  put_lem : (d : Db) (s : S) → P d → P (view (put d s))
  put_lem d s h = subst P (sym (view-put d s)) h

  Keeps-on_work :
      {A : Type 0} (m : Action S A) → Keeps (λ s. P (view s)) m → Keeps Both (on_work view put m)
  Keeps-on_work m km = record { at = λ q h. (km.at q.work h.0, h.1) }

  Keeps-commit : Keeps Both (commit view put)
  unfolding commit
  Keeps-commit = record { at = λ q h. go q (flush (view q.work)) (flushed.at (view q.work) h.0) h }
    where
      go :
          (q : Request S) (p : Result (Unit {0}) × Db)
          → P p.1
          → Both q
          → Both (keep_commit view put q p).1
      go q (ok _, d) k h = (put_lem d q.work k, k)
      go q (err e, d) k h = h

  Keeps-get_session :
      {A : Type 0} (m : Action (Request S) A)
      → Keeps Both m
      → Keeps (λ s. P (view s)) (get_session view put m)
  unfolding get_session
  Keeps-get_session m km = record {
    at = λ s h.
        let (r, q) = m (record { work = s; stored = view s }) in
        put_lem q.stored q.work (km.at (record { work = s; stored = view s }) (h, h)).1;
  }

  -- A request: its key, the work of its service, and the commit.
  pub Keeps-served :
      {A B : Type 0} (auth : Action S A) (m : A → Action S B)
      → Keeps (λ s. P (view s)) auth
      → ((a : A) → Keeps (λ s. P (view s)) (m a))
      → Keeps
          (λ s. P (view s))
          (get_session view put (
            on_work view put auth >>= λ a.
            on_work view put (m a) >>= λ b. commit view put >> pure b))
  Keeps-served auth m ka km = Keeps-get_session _ (
      Keeps-bind _ _ (Keeps-on_work auth ka) (λ a.
        Keeps-bind _ _ (Keeps-on_work (m a) (km a))
          (λ b. Keeps-bind _ _ Keeps-commit (λ _. Keeps-pure b))))

  pub Keeps-session_scope :
      {A : Type 0} (m : Action S A)
      → Keeps (λ s. P (view s)) m
      → Keeps (λ s. P (view s)) (session_scope view put m)
  unfolding session_scope
  Keeps-session_scope {A} m km = record { at = λ s h. close s (m s) (km.at s h) h }
    where
      end :
          (s : S) (a : A) (u : S) (p : Result (Unit {0}) × Db)
          → P p.1
          → P (view s)
          → P (view (committed view put s a p u).1)
      end s a u (ok _, d) k h = put_lem d u k
      end s a u (err e, d) k h = put_lem (view s) u h

      close :
          (s : S) (p : Result A × S) → P (view p.1) → P (view s) → P (view (closed view put s p).1)
      close s (ok a, u) k h = end s a u (flush (view u)) (flushed.at (view u) k) h
      close s (err e, u) k h = put_lem (view s) u h
