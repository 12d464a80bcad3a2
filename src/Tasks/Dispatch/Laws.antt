-- ===== src/Tasks/Dispatch/Laws.antt =====
-- What `process_campaign` puts on the queue.
use whatsapp_api.Base.{ℕ, ◌≡◌, refl, inl, inr, false, some, List, [], ◌∷◌, All, Option-cases, arith}
use whatsapp_api.Base.Exec.{Result, ok, err}
use whatsapp_api.Json.{Json}
use whatsapp_api.Models.{Campaign, is_running}
use whatsapp_api.Store.{Db, find_by, get_campaign, flush}
use whatsapp_api.Campaigns.Idle.{NoneRunning, Reaches, none_running}
use whatsapp_api.Store.Sessions.{session_scope, committed}
use whatsapp_api.Tasks.Dispatch.{process_found, process_campaign}

found_idle :
    (k : ℕ) (c : Campaign) (cs : List Campaign)
    → All (λ (d : Campaign). is_running d.status ≡ false) cs
    → find_by (λ (d : Campaign). d.id) k cs ≡ some c
    → is_running c.status ≡ false
found_idle k c [] h e = cc
found_idle k c (d ∷ ds) h e = ground (arith, found_idle k c ds)

idle_ids : (k : ℕ) (s : Db) → NoneRunning s → (process_found k (get_campaign k s) s).1 ≡ []
unfolding process_found
idle_ids k s h = elim (Option-cases (get_campaign k s)) [
  | inl missing ↦ rw missing refl
  | inr (c, found) ↦ rw (found, found_idle k c s.campaigns h found) refl
]

-- From a state in which no campaign is running, whatever calls of the service come first, the
-- task that works off a campaign puts no recipient on the queue.
process_campaign_idle :
    (s u : Db) (k : ℕ) (answer : Json) (ids : List ℕ)
    → NoneRunning s
    → Reaches s u
    → (process_campaign k u).0 ≡ ok (answer, ids)
    → ids ≡ []
unfolding process_campaign session_scope
process_campaign_idle s u k answer ids h calls =
    go (process_found k (get_campaign k u) u) (idle_ids k u (none_running s u h calls)) (flush u)
  where
    go :
        (a : Json × List ℕ)
        → a.1 ≡ []
        → (p : Result (Unit {0}) × Db)
        → (committed (λ (d : Db). d) (λ d _. d) u a p u).0 ≡ ok (answer, ids)
        → ids ≡ []
    go (j, is) e (ok _, d) k = cc
    go (j, is) e (err _, d) k = cc
