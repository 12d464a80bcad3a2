-- ===== src/Tasks/Works.antt =====
-- Any sequence of deliveries of `send_recipient`, with the tasks of which one returned.
use whatsapp_api.Base.{
  ℕ, ◌≡◌, refl, ◌≢◌, ◌⊎◌, inl, inr, Option, none, some, String, List, [], ◌∷◌, ◌∙◌, sym, ap, subst,
  All,
}
use whatsapp_api.Base.Exec.{Result, ok, err}
use whatsapp_api.Base.Ensures.{Ensures}
use whatsapp_api.Errors.{Error}
use whatsapp_api.Models.{CampaignRecipient, CampaignRecipientStatus, Settings}
use whatsapp_api.Store.{Db, get_recipient, get_campaign}
use whatsapp_api.Store.Laws.{IsClean}
use whatsapp_api.Tenants.{Fernet}
use whatsapp_api.Client.{Http}
use whatsapp_api.RateLimiter.{Redis, RateLimiter}
use whatsapp_api.Messages.{World}
use whatsapp_api.Tasks.Delivery.{is_unsent, send_recipient}
use whatsapp_api.Tasks.Delivery.Once.{
  IsSettled, no_recipient, no_campaign, is_done, Finished, IsSettled-after, send_recipient-Ensures,
  send_recipient_rolled_back,
}
use whatsapp_api.Tasks.Delivery.Lasting.{
  IsSettled-kept, queued_before, campaign_before, some≢none, some-injective, true≢false,
}

module _ (redis : Redis) (http : Http) (fernet : Option Fernet) (limiter : RateLimiter)
    (settings : Settings) (describe : Error → String) where
  abbrev W : Type 0
  W = World redis http

  abbrev deliver : ℕ → W → Result String × W
  deliver j v = send_recipient redis http fernet limiter settings describe j v

  -- Deliveries in any order and any number, with other work on Redis and Meta in between; the list
  -- holds the tasks of which one delivery returned.
  pub data Works (w : W) : List ℕ → W → Type 0 where
    start : Works w [] w
    delivered : (j : ℕ) (ks : List ℕ) (v : W) → Works w ks v → Works w ks (deliver j v).1
    returned :
        (j : ℕ) (ks : List ℕ) (v : W) (answer : String)
        → Works w ks v
        → (deliver j v).0 ≡ ok answer
        → Works w (j ∷ ks) (deliver j v).1
    elsewhere :
        (k : redis.State) (h : http.State) (ks : List ℕ) (v : W)
        → Works w ks v
        → Works w ks (record { db = v.db; counters = k; remote = h })

  -- A delivery returned and finished, or raised and changed no row.
  delivery-cases :
      (j : ℕ) (v : W) → Finished j v.db (deliver j v).1.db ⊎ ((deliver j v).1.db ≡ v.db)
  delivery-cases j v =
      go (deliver j v) (send_recipient-Ensures redis http fernet limiter settings describe j v)
        (send_recipient_rolled_back redis http fernet limiter settings describe j v)
    where
      go :
          (p : Result String × W)
          → Ensures (λ _ (u : W). IsClean u.db × Finished j v.db u.db) p
          → ((e : Error) → p.0 ≡ err e → p.1.db ≡ v.db)
          → Finished j v.db p.1.db ⊎ (p.1.db ≡ v.db)
      go (ok a, u) f back = inl f.1
      go (err e, u) f back = inr (back e refl)

  delivery-Finished :
      (j : ℕ) (v : W) (answer : String)
      → (deliver j v).0 ≡ ok answer
      → Finished j v.db (deliver j v).1.db
  delivery-Finished j v answer h =
      go (deliver j v) (send_recipient-Ensures redis http fernet limiter settings describe j v) h
    where
      go :
          (p : Result String × W)
          → Ensures (λ _ (u : W). IsClean u.db × Finished j v.db u.db) p
          → p.0 ≡ ok answer
          → Finished j v.db p.1.db
      go (ok a, u) f h = f.1
      go (err e, u) f h = cc

  -- What every finished delivery keeps, and equality does, the deliveries keep.
  delivery-keeps :
      (P : Db → Type 0) (j : ℕ) (v : W)
      → ((u : Db) → Finished j v.db u → P u)
      → P v.db
      → P (deliver j v).1.db
  delivery-keeps P j v step h = elim (delivery-cases j v) [
    | inl f ↦ step (deliver j v).1.db f
    | inr same ↦ subst P (sym same) h
  ]

  All-IsSettled :
      (ks : List ℕ) (j : ℕ) (v : W)
      → All (λ k. IsSettled k v.db) ks
      → All (λ k. IsSettled k (deliver j v).1.db) ks
  All-IsSettled [] j v h = tt
  All-IsSettled (k ∷ ks) j v h = (
    delivery-keeps (IsSettled k) j v (λ u f. IsSettled-kept j k v.db u h.0 f) h.0,
    All-IsSettled ks j v h.1,
  )

  -- A task of which one delivery returned has nothing left to do.
  pub Works-IsSettled : (w u : W) (ks : List ℕ) → Works w ks u → All (λ k. IsSettled k u.db) ks
  Works-IsSettled w u ks start = tt
  Works-IsSettled w u ks (delivered j _ v work) = All-IsSettled ks j v (Works-IsSettled w v ks work)
  Works-IsSettled w u ks (returned j js v answer work h) = (
    IsSettled-after j v.db (deliver j v).1.db (delivery-Finished j v answer h),
    All-IsSettled js j v (Works-IsSettled w v js work),
  )
  Works-IsSettled w u ks (elsewhere k h _ v work) = Works-IsSettled w v ks work

  -- A recipient that is queued in the end was queued, and the same, at the start.
  pub Works-queued :
      (w u : W) (ks : List ℕ) (k : ℕ) (q : CampaignRecipient)
      → Works w ks u
      → q.status ≡ CampaignRecipientStatus.queued
      → get_recipient k u.db ≡ some q
      → get_recipient k w.db ≡ some q
  Works-queued w u ks k q start queued h = h
  Works-queued w u ks k q (delivered j _ v work) queued h = Works-queued w v ks k q work queued (
      delivery-keeps (λ d. get_recipient k d ≡ some q → get_recipient k v.db ≡ some q) j v
        (λ d f found. queued_before j k v.db d q f found queued) (λ found. found) h)
  Works-queued w u ks k q (returned j js v answer work e) queued h =
      Works-queued w v js k q work queued
        (queued_before j k v.db (deliver j v).1.db q (delivery-Finished j v answer e) h queued)
  Works-queued w u ks k q (elsewhere i h _ v work) queued found =
      Works-queued w v ks k q work queued found

  pub Works-campaign :
      (w u : W) (ks : List ℕ) (k : ℕ)
      → Works w ks u
      → get_campaign k u.db ≡ none
      → get_campaign k w.db ≡ none
  Works-campaign w u ks k start h = h
  Works-campaign w u ks k (delivered j _ v work) h = Works-campaign w v ks k work (
      delivery-keeps (λ d. get_campaign k d ≡ none → get_campaign k v.db ≡ none) j v
        (λ d f. campaign_before j k v.db d f) (λ gone. gone) h)
  Works-campaign w u ks k (returned j js v answer work e) h =
      Works-campaign w v js k work
        (campaign_before j k v.db (deliver j v).1.db (delivery-Finished j v answer e) h)
  Works-campaign w u ks k (elsewhere i h _ v work) gone = Works-campaign w v ks k work gone

  -- Nothing that is settled is queued, as long as its campaign is there.
  pub settled_not_queued :
      (j : ℕ) (s : Db) (q : CampaignRecipient)
      → IsSettled j s
      → get_recipient j s ≡ some q
      → get_campaign q.campaign_id s ≢ none
      → q.status ≢ CampaignRecipientStatus.queued
  settled_not_queued j s q (no_recipient h) found there queued = some≢none q (sym found ∙ h)
  settled_not_queued j s q (no_campaign r h none_of) found there queued = there (
      ap (λ (x : CampaignRecipient). get_campaign x.campaign_id s) (some-injective found h)
      ∙ none_of)
  settled_not_queued j s q (is_done r h closed) found there queued = true≢false (
      sym (ap is_unsent queued)
      ∙ ap (λ (x : CampaignRecipient). is_unsent x.status) (some-injective found h)
      ∙ closed)
