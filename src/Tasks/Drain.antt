-- ===== src/Tasks/Drain.antt =====
-- A running campaign, from its dispatch to the last of its deliveries.
use whatsapp_api.Base.{
  ℕ, ◌≡◌, refl, ◌≢◌, inl, inr, Bool, true, ◌&&◌, ◌||◌, Option, some, String, List, [], ◌∷◌, ◌∙◌,
  sym, ap, subst, arith, All, exists, select, map, ◌==◌, ==_iff, ==_refl, Bool-cases, if_elim,
}
use whatsapp_api.Base.Exec.{Result, ok, err}
use whatsapp_api.Base.Ensures.{Ensures}
use whatsapp_api.Errors.{Error}
use whatsapp_api.Json.{Json}
use whatsapp_api.Models.{
  Campaign, CampaignRecipient, CampaignRecipientStatus, Settings, recipient_eq, is_running,
}
use whatsapp_api.Store.{Db, find_by, get_recipient, get_campaign, flush}
use whatsapp_api.Store.Laws.{IsClean, SameWork, flush-Ensures}
use whatsapp_api.Store.Sessions.{session_scope, committed}
use whatsapp_api.Tenants.{Fernet}
use whatsapp_api.Client.{Http}
use whatsapp_api.RateLimiter.{Redis, RateLimiter}
use whatsapp_api.Messages.{World}
use whatsapp_api.Tasks.Dispatch.{queued_ids, dispatched, process_found, process_campaign}
use whatsapp_api.Tasks.Delivery.Once.{IsSettled}
use whatsapp_api.Tasks.Delivery.Lasting.{some≢none, some-injective}
use whatsapp_api.Tasks.Works.{
  Works, Works-IsSettled, Works-queued, Works-campaign, settled_not_queued,
}

-- A task is among those that returned.
abbrev is_among : ℕ → List ℕ → Bool
is_among j ks = exists (λ k. k == j) ks

among_select :
    (j : ℕ) (p : CampaignRecipient → Bool) (r : CampaignRecipient) (xs : List CampaignRecipient)
    → find_by (λ (x : CampaignRecipient). x.id) j xs ≡ some r
    → p r ≡ true
    → is_among j (map (λ (x : CampaignRecipient). x.id) (select p xs)) ≡ true
among_select j p r [] found h = cc
among_select j p r (x ∷ xs) found h = elim (Bool-cases (x.id == j)) [
  | inl here ↦
      let same : x ≡ r = some-injective refl (rw here at found) in rw (ap p same ∙ h, here) refl
  | inr away ↦
      if_elim (λ l. is_among j (map (λ (y : CampaignRecipient). y.id) l) ≡ true) (p x)
        (λ _. later (x.id == j) _ (among_select j p r xs (rw away at found) h))
        (λ _. among_select j p r xs (rw away at found) h)
]
  where
    later : (a b : Bool) → b ≡ true → (a || b) ≡ true
    later a b e = ground arith

abbrev ids_of : Result (Json × List ℕ) → List ℕ
ids_of (ok (answer, ids)) = ids
ids_of (err e) = []

dispatched_ids :
    (k : ℕ) (c : Campaign) (s d : Db) (answer : Json) (ids : List ℕ)
    → get_campaign k s ≡ some c
    → is_running c.status ≡ true
    → process_campaign k s ≡ (ok (answer, ids), d)
    → (ids ≡ queued_ids k s) × SameWork s d
unfolding process_campaign session_scope process_found
dispatched_ids k c s d answer ids found running h =
    go (flush s) (flush-Ensures s) (rw (found, running) at h)
  where
    go :
        (p : Result (Unit {0}) × Db)
        → Ensures (λ _ u. IsClean u × SameWork s u) p
        → committed (λ (d : Db). d) (λ d _. d) s (dispatched (queued_ids k s)) p s
          ≡ (ok (answer, ids), d)
        → (ids ≡ queued_ids k s) × SameWork s d
    go (ok _, u) f e = (sym (ap (λ p. ids_of p.0) e), subst (SameWork s) (ap (λ p. p.1) e) f.1)
    go (err _, u) f e = cc

-- What holds of all the tasks holds of one among them.
All-among : (P : ℕ → Type 0) (j : ℕ) (ks : List ℕ) → All P ks → is_among j ks ≡ true → P j
All-among P j [] h e = cc
All-among P j (k ∷ ks) h e = elim (Bool-cases (k == j)) [
  | inl here ↦ subst P ((==_iff k j).0 here) h.0
  | inr away ↦ All-among P j ks h.1 (rw away at e)
]

is_dispatched :
    (j k : ℕ) (q : CampaignRecipient) (s : Db)
    → get_recipient j s ≡ some q
    → q.campaign_id ≡ k
    → q.status ≡ CampaignRecipientStatus.queued
    → is_among j (queued_ids k s) ≡ true
unfolding recipient_eq
is_dispatched j k q s found of queued =
    among_select j
      (λ (r : CampaignRecipient).
        r.campaign_id == k && recipient_eq r.status CampaignRecipientStatus.queued)
      q s.recipients found (rw (of, ==_refl k, queued) refl)

module _ (redis : Redis) (http : Http) (fernet : Option Fernet) (limiter : RateLimiter)
    (settings : Settings) (describe : Error → String) where
  -- A running campaign is dispatched, and then tasks are delivered, in any order, any number of
  -- times and however they end, with other work in between. Once one delivery of each dispatched
  -- task has returned, no recipient of the campaign is queued.
  pub dispatch_drains :
      (k : ℕ) (c : Campaign) (s : Db) (w u : World redis http) (answer : Json) (ids ks : List ℕ)
      → get_campaign k s ≡ some c
      → is_running c.status ≡ true
      → process_campaign k s ≡ (ok (answer, ids), w.db)
      → Works redis http fernet limiter settings describe w ks u
      → All (λ j. is_among j ks ≡ true) ids
      → (j : ℕ) (q : CampaignRecipient) → get_recipient j u.db ≡ some q
      → q.campaign_id ≡ k
      → q.status ≢ CampaignRecipientStatus.queued
  dispatch_drains k c s w u answer ids ks there running sent work all_in j q found of queued =
      let (listed, same) = dispatched_ids k c s w.db answer ids there running sent in
      let before : get_recipient j s ≡ some q =
        sym (ap (find_by (λ (x : CampaignRecipient). x.id) j) same.recipients_eq)
        ∙ Works-queued redis http fernet limiter settings describe w u ks j q work queued found in
      let among : is_among j ids ≡ true =
        ap (is_among j) listed ∙ is_dispatched j k q s before of queued in
      let settled =
        All-among (λ i. IsSettled i u.db) j ks
          (Works-IsSettled redis http fernet limiter settings describe w u ks work)
          (All-among (λ i. is_among i ks ≡ true) j ids all_in among) in
      settled_not_queued redis http fernet limiter settings describe j u.db q settled found
        (λ gone. some≢none c (
          sym there
          ∙ ap (λ i. get_campaign i s) (sym of)
          ∙ sym (ap (find_by (λ (x : Campaign). x.id) q.campaign_id) same.campaigns_eq)
          ∙ Works-campaign redis http fernet limiter settings describe w u ks q.campaign_id work
              gone))
        queued
