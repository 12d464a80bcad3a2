-- ===== src/Tasks/Delivery/Lasting.antt =====
-- What a delivery of one task leaves of the other recipients, and of the campaigns.
use whatsapp_api.Base.{
  ℕ, ◌≡◌, refl, ◌≢◌, ◌⊎◌, inl, inr, true, false, Option, none, some, List, [], ◌∷◌, ◌∙◌, sym, ap,
  arith, Bool-cases, ◌==◌, ==_iff,
}
use whatsapp_api.Models.{Campaign, CampaignRecipient, CampaignRecipientStatus}
use whatsapp_api.Store.{Db, find_by, replace, get_recipient, get_campaign}
use whatsapp_api.Store.Laws.{SameWork, find_by-replace_found, find_by-replace_ne, find_by-id}
use whatsapp_api.Store.Counting.{find_by-replace-none}
use whatsapp_api.Tasks.Delivery.{is_unsent}
use whatsapp_api.Tasks.Delivery.Outcome.{Concluded}
use whatsapp_api.Tasks.Delivery.Once.{
  IsSettled, no_recipient, no_campaign, is_done, Finished, idle, worked,
}

find_by-none-replace :
    {A : Type 0} (id : A → ℕ) (k : ℕ) (r : A) (xs : List A)
    → find_by id k (replace id r xs) ≡ none
    → find_by id k xs ≡ none
find_by-none-replace id k r [] h = refl
find_by-none-replace id k r (x ∷ xs) h = ground (arith, find_by-none-replace id k r xs)

pub true≢false : true ≢ false
true≢false h = cc

pub some≢none : {A : Type 0} (a : A) → some a ≢ none
some≢none a h = cc

pub some-injective : {A : Type 0} {o : Option A} {x y : A} → o ≡ some x → o ≡ some y → x ≡ y
some-injective p q = cc

module _ (j : ℕ) (s u : Db) (r : CampaignRecipient) (c : Campaign)
    (found : get_recipient j s ≡ some r) (of : get_campaign r.campaign_id s ≡ some c)
    (done : Concluded r c s u) where
  row_id : done.row.id ≡ j
  row_id = done.same_id ∙ find_by-id (λ (x : CampaignRecipient). x.id) j r s.recipients found

  -- The row that was worked on.
  row_after : get_recipient j u ≡ some done.row
  row_after = rw done.recipients_eq (
      find_by-replace_found (λ (x : CampaignRecipient). x.id) j done.row r s.recipients found
        done.same_id)

  -- Another recipient is as it was.
  other_row : (k : ℕ) → j ≢ k → get_recipient k u ≡ get_recipient k s
  other_row k away = rw done.recipients_eq (
      find_by-replace_ne (λ (x : CampaignRecipient). x.id) k done.row s.recipients
        (λ e. away (sym row_id ∙ e)))

  closed_status :
      (done.row.status ≡ CampaignRecipientStatus.sent)
      ⊎ (done.row.status ≡ CampaignRecipientStatus.failed)
  closed_status = elim done.outcome [ inl (h, _) ↦ inl h | inr (h, _) ↦ inr h ]

  campaign_id : done.campaign.id ≡ r.campaign_id
  campaign_id = elim done.outcome [
    | inl (_, e) ↦ rw e (find_by-id (λ (x : Campaign). x.id) r.campaign_id c s.campaigns of)
    | inr (_, e) ↦ rw e (find_by-id (λ (x : Campaign). x.id) r.campaign_id c s.campaigns of)
  ]

  -- A campaign is there after a delivery exactly if it was before.
  campaign_none : (k : ℕ) → get_campaign k s ≡ none → get_campaign k u ≡ none
  campaign_none k h =
      rw done.campaigns_eq
        (find_by-replace-none (λ (x : Campaign). x.id) k done.campaign s.campaigns h)

  campaign_some : (k : ℕ) → get_campaign k u ≡ none → get_campaign k s ≡ none
  campaign_some k h =
      find_by-none-replace (λ (x : Campaign). x.id) k done.campaign s.campaigns
        (rw (← done.campaigns_eq) h)

same_row : (k : ℕ) (s u : Db) → SameWork s u → get_recipient k u ≡ get_recipient k s
same_row k s u same = rw same.recipients_eq refl

same_campaign : (k : ℕ) (s u : Db) → SameWork s u → get_campaign k u ≡ get_campaign k s
same_campaign k s u same = rw same.campaigns_eq refl

-- Either the tasks are one, or they are two.
same_task : (j k : ℕ) → (j ≡ k) ⊎ (j ≢ k)
same_task j k = elim (Bool-cases (j == k)) [
  | inl here ↦ inl ((==_iff j k).0 here)
  | inr away ↦ inr (λ e. true≢false (sym ((==_iff j k).1 e) ∙ away))
]

-- A recipient with nothing left to do stays one, whatever delivery comes next.
pub IsSettled-kept : (j k : ℕ) (s u : Db) → IsSettled k s → Finished j s u → IsSettled k u
IsSettled-kept j k s u (no_recipient h) (idle same _) = no_recipient (same_row k s u same ∙ h)
IsSettled-kept j k s u (no_campaign q h none_of) (idle same _) =
    no_campaign q (same_row k s u same ∙ h) (same_campaign q.campaign_id s u same ∙ none_of)
IsSettled-kept j k s u (is_done q h closed) (idle same _) =
    is_done q (same_row k s u same ∙ h) closed
IsSettled-kept j k s u (no_recipient h) (worked r c found of unsent done) = no_recipient (
    rw done.recipients_eq
      (find_by-replace-none (λ (x : CampaignRecipient). x.id) k done.row s.recipients h))
IsSettled-kept j k s u (no_campaign q h none_of) (worked r c found of unsent done) =
    elim (same_task j k) [
      | inl e ↦ absurd (
          some≢none c (
            sym of
            ∙ ap (λ (x : CampaignRecipient). get_campaign x.campaign_id s) (same_found e)
            ∙ none_of))
      | inr away ↦
          no_campaign q (other_row j s u r c found of done k away ∙ h)
            (campaign_none j s u r c found of done q.campaign_id none_of)
    ]
  where
    same_found : j ≡ k → r ≡ q
    same_found e = some-injective found (ap (λ i. get_recipient i s) e ∙ h)
IsSettled-kept j k s u (is_done q h closed) (worked r c found of unsent done) =
    elim (same_task j k) [
      | inl e ↦ absurd (
          true≢false (
            sym unsent
            ∙ ap (λ (x : CampaignRecipient). is_unsent x.status) (same_found e)
            ∙ closed))
      | inr away ↦ is_done q (other_row j s u r c found of done k away ∙ h) closed
    ]
  where
    same_found : j ≡ k → r ≡ q
    same_found e = some-injective found (ap (λ i. get_recipient i s) e ∙ h)

sent≢queued : CampaignRecipientStatus.sent ≢ CampaignRecipientStatus.queued
sent≢queued h = cc

failed≢queued : CampaignRecipientStatus.failed ≢ CampaignRecipientStatus.queued
failed≢queued h = cc

-- A recipient that is queued after a delivery was queued before it, and is as it was.
pub queued_before :
    (j k : ℕ) (s u : Db) (q : CampaignRecipient)
    → Finished j s u
    → get_recipient k u ≡ some q
    → q.status ≡ CampaignRecipientStatus.queued
    → get_recipient k s ≡ some q
queued_before j k s u q (idle same _) h queued = sym (same_row k s u same) ∙ h
queued_before j k s u q (worked r c found of unsent done) h queued = elim (same_task j k) [
  | inl e ↦ absurd (not_queued (same_found e))
  | inr away ↦ sym (other_row j s u r c found of done k away) ∙ h
]
  where
    same_found : j ≡ k → done.row ≡ q
    same_found e =
        some-injective (row_after j s u r c found of done) (ap (λ i. get_recipient i u) e ∙ h)

    not_queued : done.row ≢ q
    not_queued e = elim (closed_status j s u r c found of done) [
      | inl sent ↦ sent≢queued (sym sent ∙ ap (λ (x : CampaignRecipient). x.status) e ∙ queued)
      | inr failed ↦
          failed≢queued (sym failed ∙ ap (λ (x : CampaignRecipient). x.status) e ∙ queued)
    ]

-- No delivery removes a campaign.
pub campaign_before :
    (j k : ℕ) (s u : Db) → Finished j s u → get_campaign k u ≡ none → get_campaign k s ≡ none
campaign_before j k s u (idle same _) h = sym (same_campaign k s u same) ∙ h
campaign_before j k s u (worked r c found of unsent done) h =
    campaign_some j s u r c found of done k h
