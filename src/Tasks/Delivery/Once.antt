-- ===== src/Tasks/Delivery/Once.antt =====
-- A delivery of `send_recipient` from any state, and the delivery of the same task after it.
use whatsapp_api.Base.{
  ℕ, ◌≡◌, refl, ◌⊎◌, inl, inr, true, false, Option, none, some, String, Bool-cases, Option-cases,
}
use whatsapp_api.Base.Exec.{Result, ok, err}
use whatsapp_api.Base.Ensures.{Ensures, Ensures-map}
use whatsapp_api.Errors.{Error}
use whatsapp_api.Models.{Campaign, CampaignRecipient, CampaignRecipientStatus, Settings}
use whatsapp_api.Store.{Db, get_recipient, get_campaign, flush}
use whatsapp_api.Store.Laws.{IsClean, SameWork, flush-Ensures, flush_clean, find_by-replace_found}
use whatsapp_api.Tenants.{Fernet}
use whatsapp_api.Client.{Http}
use whatsapp_api.RateLimiter.{Redis, RateLimiter}
use whatsapp_api.Messages.{World}
use whatsapp_api.Store.Sessions.{session_scope, committed, closed}
use whatsapp_api.Store.Sessions.{session_scope_rolled_back}
use whatsapp_api.Tasks.Delivery.{
  is_unsent, send_unsent, send_for, send_found, send_recipient, one_sent, one_failed,
}
use whatsapp_api.Tasks.Delivery.Outcome.{SameWork-refl, SameWork-trans, Concluded, Concluded-same}
use whatsapp_api.Tasks.Delivery.Runs.{unsent-Ensures}

-- A recipient that a delivery has nothing to do for.
pub data IsSettled (k : ℕ) (s : Db) : Type 0 where
  no_recipient : get_recipient k s ≡ none → IsSettled k s
  no_campaign :
      (r : CampaignRecipient)
      → get_recipient k s ≡ some r
      → get_campaign r.campaign_id s ≡ none
      → IsSettled k s
  is_done :
      (r : CampaignRecipient)
      → get_recipient k s ≡ some r
      → is_unsent r.status ≡ false
      → IsSettled k s

-- A delivery that returned found nothing to do, or concluded the recipient.
pub data Finished (k : ℕ) (s u : Db) : Type 0 where
  idle : SameWork s u → IsSettled k s → Finished k s u
  worked :
      (r : CampaignRecipient) (c : Campaign)
      → get_recipient k s ≡ some r
      → get_campaign r.campaign_id s ≡ some c
      → is_unsent r.status ≡ true
      → Concluded r c s u
      → Finished k s u

Finished-after : (k : ℕ) (s u v : Db) → Finished k s u → SameWork u v → Finished k s v
Finished-after k s u v (idle same settled) h = idle (SameWork-trans s u v same h) settled
Finished-after k s u v (worked r c found of unsent done) h =
    worked r c found of unsent (Concluded-same r c s u v done h)

-- After a delivery that returned there is nothing left to do.
pub IsSettled-after : (k : ℕ) (s u : Db) → Finished k s u → IsSettled k u
IsSettled-after k s u (idle same (no_recipient h)) = no_recipient (rw (same.recipients_eq) h)
IsSettled-after k s u (idle same (no_campaign r found h)) =
    no_campaign r (rw (same.recipients_eq) found) (rw (same.campaigns_eq) h)
IsSettled-after k s u (idle same (is_done r found h)) = is_done r (rw (same.recipients_eq) found) h
IsSettled-after k s u (worked r c found of unsent done) =
    is_done done.row
      (rw done.recipients_eq (
        find_by-replace_found (λ (x : CampaignRecipient). x.id) k done.row r s.recipients found
          done.same_id))
      (closed_status done.outcome)
  where
    closed_status :
        ((done.row.status ≡ CampaignRecipientStatus.sent) × (done.campaign ≡ one_sent c))
          ⊎ ((done.row.status ≡ CampaignRecipientStatus.failed) × (done.campaign ≡ one_failed c))
        → is_unsent done.row.status ≡ false
    closed_status (inl (h, _)) = rw h
    closed_status (inr (h, _)) = rw h

module _ (redis : Redis) (http : Http) (fernet : Option Fernet) (limiter : RateLimiter)
    (settings : Settings) (describe : Error → String) where
  abbrev W : Type 0
  W = World redis http

  found-Ensures :
      (k : ℕ) (w : W)
      → Ensures
          (λ _ (u : W). Finished k w.db u.db)
          (send_found redis http fernet limiter settings describe (get_recipient k w.db) w)
  unfolding send_found send_for
  found-Ensures k w = elim (Option-cases (get_recipient k w.db)) [
    | inl missing ↦ rw missing (idle (SameWork-refl w.db) (no_recipient missing))
    | inr (r, found) ↦ rw found (elim (Option-cases (get_campaign r.campaign_id w.db)) [
      | inl missing ↦ rw missing (idle (SameWork-refl w.db) (no_campaign r found missing))
      | inr (c, of) ↦ rw of (elim (Bool-cases (is_unsent r.status)) [
        | inl unsent ↦ rw unsent (
            Ensures-map (λ _ (u : W). Concluded r c w.db u.db) (λ _ (u : W). Finished k w.db u.db)
              (send_unsent redis http fernet limiter settings describe r c w)
              (unsent-Ensures redis http fernet limiter settings describe r c w)
              (λ _ u h. worked r c found of unsent h))
        | inr done ↦ rw done (idle (SameWork-refl w.db) (is_done r found done))
      ])
    ])
  ]

  -- A delivery that returned is committed, and concluded.
  pub send_recipient-Ensures :
      (k : ℕ) (w : W)
      → Ensures
          (λ _ (u : W). IsClean u.db × Finished k w.db u.db)
          (send_recipient redis http fernet limiter settings describe k w)
  unfolding send_recipient session_scope
  send_recipient-Ensures k w =
      go (send_found redis http fernet limiter settings describe (get_recipient k w.db) w)
        (found-Ensures k w)
    where
      commit :
          (a : String) (u : W) (p : Result (Unit {0}) × Db)
          → Ensures (λ _ v. IsClean v × SameWork u.db v) p
          → Finished k w.db u.db
          → Ensures
              (λ _ (v : W). IsClean v.db × Finished k w.db v.db)
              (committed (λ (w : W). w.db) (λ d (w : W). record w { db = d }) w a p u)
      commit a u (ok _, d) h f = (h.0, Finished-after k w.db u.db d f h.1)
      commit a u (err e, d) h f = tt

      go :
          (p : Result String × W)
          → Ensures (λ _ (u : W). Finished k w.db u.db) p
          → Ensures
              (λ _ (u : W). IsClean u.db × Finished k w.db u.db)
              (closed (λ (w : W). w.db) (λ d (w : W). record w { db = d }) w p)
      go (ok a, u) f = commit a u (flush u.db) (flush-Ensures u.db) f
      go (err e, u) f = tt

  -- Nothing to do: the delivery returns, and changes nothing.
  settled_lem :
      (k : ℕ) (w : W)
      → IsClean w.db
      → IsSettled k w.db
      → (send_recipient redis http fernet limiter settings describe k w).1 ≡ w
  unfolding send_recipient session_scope send_found send_for
  settled_lem k w clean (no_recipient h) = rw (h, flush_clean w.db clean)
  settled_lem k w clean (no_campaign r found h) = rw (found, h, flush_clean w.db clean)
  settled_lem k w clean (is_done r found done) =
      elim (Option-cases (get_campaign r.campaign_id w.db)) [
        | inl missing ↦ rw (found, missing, flush_clean w.db clean)
        | inr (c, of) ↦ rw (found, of, done, flush_clean w.db clean)
      ]

  -- After a delivery that returned, whatever it returned and whatever the state it started in, the
  -- next delivery of the same task changes nothing: no call of Meta, no token of the rate limiter,
  -- no row.
  pub send_recipient_once :
      (k : ℕ) (w : W) (answer : String)
      → (send_recipient redis http fernet limiter settings describe k w).0 ≡ ok answer
      → (send_recipient redis http fernet limiter settings describe k
          (send_recipient redis http fernet limiter settings describe k w).1).1
        ≡ (send_recipient redis http fernet limiter settings describe k w).1
  send_recipient_once k w answer h =
      go (send_recipient redis http fernet limiter settings describe k w)
        (send_recipient-Ensures k w) h
    where
      go :
          (p : Result String × W)
          → Ensures (λ _ (u : W). IsClean u.db × Finished k w.db u.db) p
          → p.0 ≡ ok answer
          → (send_recipient redis http fernet limiter settings describe k p.1).1 ≡ p.1
      go (ok a, u) f h = settled_lem k u f.0 (IsSettled-after k w.db u.db f.1)
      go (err e, u) f h = cc

  -- A delivery that raised, at whatever point, leaves the database as it was before.
  pub send_recipient_rolled_back :
      (k : ℕ) (w : W) (e : Error)
      → (send_recipient redis http fernet limiter settings describe k w).0 ≡ err e
      → (send_recipient redis http fernet limiter settings describe k w).1.db ≡ w.db
  unfolding send_recipient
  send_recipient_rolled_back k w e h =
      session_scope_rolled_back (λ (w : W). w.db) (λ d (w : W). record w { db = d }) (λ d w. refl)
        (λ w. send_found redis http fernet limiter settings describe (get_recipient k w.db) w) w e h
