-- ===== src/Tasks/Delivery/Tally.antt =====
-- The counters of the campaigns, over any sequence of deliveries of `send_recipient`.
use whatsapp_api.Base.{
  ℕ, ◌+◌, ◌≡◌, refl, ◌≢◌, inl, inr, Bool, true, false, ◌&&◌, Option, some, arith, String, ◌∙◌, ap,
  sym, subst, ◌==◌, ==_iff, Bool-cases,
}
use whatsapp_api.Base.Exec.{Result, ok, err}
use whatsapp_api.Base.Ensures.{Ensures}
use whatsapp_api.Errors.{Error}
use whatsapp_api.Models.{
  Campaign, CampaignRecipient, CampaignRecipientStatus, Settings, recipient_eq,
}
use whatsapp_api.Store.{Db, get_recipient, get_campaign, find_by}
use whatsapp_api.Store.Laws.{IsClean, find_by-replace_found, find_by-replace_ne, find_by-id}
use whatsapp_api.Store.Counting.{bit, count, Unique, Unique-replace, count-replace}
use whatsapp_api.Tenants.{Fernet}
use whatsapp_api.Client.{Http}
use whatsapp_api.RateLimiter.{Redis, RateLimiter}
use whatsapp_api.Messages.{World}
use whatsapp_api.Tasks.Delivery.{is_unsent, send_recipient}
use whatsapp_api.Tasks.Delivery.Outcome.{Concluded}
use whatsapp_api.Tasks.Delivery.Once.{
  Finished, idle, worked, send_recipient-Ensures, send_recipient_rolled_back,
}

-- Is the row one of the campaign's, with the status?
abbrev has_status : CampaignRecipientStatus → ℕ → CampaignRecipient → Bool
has_status status k r = r.campaign_id == k && recipient_eq r.status status

abbrev pub with_status : CampaignRecipientStatus → ℕ → Db → ℕ
with_status status k s = count (has_status status k) s.recipients

-- The two statuses that a delivery ends in, and the campaign's counter for each.
abbrev pub final : Bool → CampaignRecipientStatus
final true = CampaignRecipientStatus.sent
final false = CampaignRecipientStatus.failed

abbrev pub counter : Bool → Campaign → ℕ
counter true c = c.sent_count
counter false c = c.failed_count

-- Recipients have ids of their own, and each campaign counts its sent and its failed ones.
pub record IsBalanced (s : Db) : Type 0 where
  pub unique : Unique (λ (r : CampaignRecipient). r.id) s.recipients
  pub tallied :
      (b : Bool) (k : ℕ) (c : Campaign)
      → get_campaign k s ≡ some c
      → counter b c ≡ with_status (final b) k s

unsent_other :
    (b : Bool) (status : CampaignRecipientStatus)
    → is_unsent status ≡ true
    → recipient_eq status (final b) ≡ false
unfolding recipient_eq
unsent_other true CampaignRecipientStatus.queued h = refl
unsent_other false CampaignRecipientStatus.queued h = refl
unsent_other true CampaignRecipientStatus.sending h = refl
unsent_other false CampaignRecipientStatus.sending h = refl
unsent_other _ CampaignRecipientStatus.sent h = cc
unsent_other _ CampaignRecipientStatus.delivered h = cc
unsent_other _ CampaignRecipientStatus.read h = cc
unsent_other _ CampaignRecipientStatus.failed h = cc
unsent_other _ CampaignRecipientStatus.skipped h = cc

module _ (r : CampaignRecipient) (c : Campaign) (s u : Db) (k : ℕ) (balanced : IsBalanced s)
    (found : get_recipient k s ≡ some r) (of : get_campaign r.campaign_id s ≡ some c)
    (unsent : is_unsent r.status ≡ true) (done : Concluded r c s u) where
  moved :
      (p : CampaignRecipient → Bool)
      → count p u.recipients + bit (p r) ≡ count p s.recipients + bit (p done.row)
  moved p = rw done.recipients_eq (
      count-replace (λ (x : CampaignRecipient). x.id) p k done.row r s.recipients balanced.unique
        found (done.same_id ∙ find_by-id (λ (x : CampaignRecipient). x.id) k r s.recipients found))

  row_bit :
      (b : Bool) (j : ℕ) (here : Bool)
      → (r.campaign_id == j) ≡ here
      → (has_status (final b) j r ≡ false)
        × (has_status (final b) j done.row ≡ (here && recipient_eq done.row.status (final b)))
  row_bit b j here e =
      (rw (unsent_other b r.status unsent) (ground arith), rw (done.same_campaign, e) refl)

  campaign_id : done.campaign.id ≡ r.campaign_id
  campaign_id = elim done.outcome [
    | inl (_, e) ↦ rw e (find_by-id (λ (x : Campaign). x.id) r.campaign_id c s.campaigns of)
    | inr (_, e) ↦ rw e (find_by-id (λ (x : Campaign). x.id) r.campaign_id c s.campaigns of)
  ]

  counted :
      (b : Bool)
      → counter b done.campaign ≡ counter b c + bit (recipient_eq done.row.status (final b))
  unfolding recipient_eq
  counted true = elim done.outcome [
    | inl (h, e) ↦ rw (h, e) refl
    | inr (h, e) ↦ rw (h, e) (omega arith)
  ]
  counted false = elim done.outcome [
    | inl (h, e) ↦ rw (h, e) (omega arith)
    | inr (h, e) ↦ rw (h, e) refl
  ]

  moved_bit :
      (b : Bool) (j : ℕ) (here : Bool)
      → (r.campaign_id == j) ≡ here
      → with_status (final b) j u
        ≡ with_status (final b) j s + bit (here && recipient_eq done.row.status (final b))
  moved_bit b j here e = omega (
    arith,
    subst (λ x. with_status (final b) j u + bit x.0 ≡ with_status (final b) j s + bit x.1)
        (pair_eq (row_bit b j here e).0 (row_bit b j here e).1) (moved (has_status (final b) j)),
  )
    where
      pair_eq : {x x' y y' : Bool} → x ≡ x' → y ≡ y' → ◌≡◌ {A = Bool × Bool} (x, y) (x', y')
      pair_eq h k = rw (h, k) refl

  campaign_after : (j : ℕ) → r.campaign_id ≡ j → get_campaign j u ≡ some done.campaign
  campaign_after j e = rw done.campaigns_eq (
      find_by-replace_found (λ (x : Campaign). x.id) j done.campaign c s.campaigns
        (subst (λ i. get_campaign i s ≡ some c) e of)
        (campaign_id ∙ sym (find_by-id (λ (x : Campaign). x.id) r.campaign_id c s.campaigns of)))

  other_after : (j : ℕ) → r.campaign_id ≢ j → get_campaign j u ≡ get_campaign j s
  other_after j away = rw done.campaigns_eq (
      find_by-replace_ne (λ (x : Campaign). x.id) j done.campaign s.campaigns
        (λ e. away (sym campaign_id ∙ e)))

  tallied_here :
      (b : Bool) (j : ℕ) (d : Campaign)
      → get_campaign j u ≡ some d
      → (r.campaign_id == j) ≡ true
      → counter b d ≡ with_status (final b) j u
  tallied_here b j d h here =
      ap (counter b) (some-injective (campaign_after j e) h)
      ∙ counted b
      ∙ ap (λ n. n + bit (recipient_eq done.row.status (final b)))
          (balanced.tallied b j c (subst (λ i. get_campaign i s ≡ some c) e of))
      ∙ sym (moved_bit b j true here)
    where
      e : r.campaign_id ≡ j
      e = (==_iff r.campaign_id j).0 here

      some-injective : {o : Option Campaign} {x y : Campaign} → o ≡ some x → o ≡ some y → y ≡ x
      some-injective p q = cc

  tallied_after :
      (b : Bool) (j : ℕ) (d : Campaign)
      → get_campaign j u ≡ some d
      → counter b d ≡ with_status (final b) j u
  tallied_after b j d h = elim (Bool-cases (r.campaign_id == j)) [
    | inl here ↦ tallied_here b j d h here
    | inr away ↦
        balanced.tallied b j d
          (sym (other_after j (λ e. absurd (ground (arith, ==_iff r.campaign_id j)))) ∙ h)
        ∙ omega (arith, moved_bit b j false away)
  ]

IsBalanced-after : (k : ℕ) (s u : Db) → IsBalanced s → Finished k s u → IsBalanced u
IsBalanced-after k s u h (idle same settled) = record {
  unique = rw same.recipients_eq h.unique;
  tallied = λ b j c found. rw same.recipients_eq (
      h.tallied b j c
        (subst (λ cs. find_by (λ (x : Campaign). x.id) j cs ≡ some c) same.campaigns_eq found));
}
IsBalanced-after k s u h (worked r c found of unsent done) = record {
  unique =
      rw done.recipients_eq
        (Unique-replace (λ (x : CampaignRecipient). x.id) done.row s.recipients h.unique);
  tallied = tallied_after r c s u k h found of unsent done;
}

module _ (redis : Redis) (http : Http) (fernet : Option Fernet) (limiter : RateLimiter)
    (settings : Settings) (describe : Error → String) where
  abbrev W : Type 0
  W = World redis http

  -- The states that deliveries lead to, from `w`: any tasks in any order, each as often as Celery
  -- delivers it, and between them whatever happens outside the database.
  pub data Deliveries (w : W) : W → Type 0 where
    here : Deliveries w w
    delivered :
        (recipient_id : ℕ) (u : W)
        → Deliveries w u
        → Deliveries w (send_recipient redis http fernet limiter settings describe recipient_id u).1
    elsewhere :
        (k : redis.State) (h : http.State) (u : W)
        → Deliveries w u
        → Deliveries w (record { db = u.db; counters = k; remote = h })

  step-IsBalanced :
      (recipient_id : ℕ) (w : W)
      → IsBalanced w.db
      → IsBalanced (send_recipient redis http fernet limiter settings describe recipient_id w).1.db
  step-IsBalanced recipient_id w h =
      go (send_recipient redis http fernet limiter settings describe recipient_id w)
        (send_recipient-Ensures redis http fernet limiter settings describe recipient_id w)
        (send_recipient_rolled_back redis http fernet limiter settings describe recipient_id w)
    where
      go :
          (p : Result String × W)
          → Ensures (λ _ (u : W). IsClean u.db × Finished recipient_id w.db u.db) p
          → ((e : Error) → p.0 ≡ err e → p.1.db ≡ w.db)
          → IsBalanced p.1.db
      go (ok a, u) f back = IsBalanced-after recipient_id w.db u.db h f.1
      go (err e, u) f back = rw (back e refl) h

  -- Over any sequence of deliveries one after the other, of any tasks in any order and however they
  -- end, a state in which each campaign's counters are the numbers of its sent and of its failed
  -- recipients stays one.
  pub Deliveries-IsBalanced : (w u : W) → IsBalanced w.db → Deliveries w u → IsBalanced u.db
  Deliveries-IsBalanced w u h here = h
  Deliveries-IsBalanced w u h (delivered recipient_id v r) =
      step-IsBalanced recipient_id v (Deliveries-IsBalanced w v h r)
  Deliveries-IsBalanced w u h (elsewhere k l v r) = Deliveries-IsBalanced w v h r
