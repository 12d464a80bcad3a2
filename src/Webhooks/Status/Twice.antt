-- ===== src/Webhooks/Status/Twice.antt =====
-- A status report that arrives twice, at the recipient and its campaign.
use whatsapp_api.Base.{
  ℕ, ◌≡◌, refl, sym, ap, subst, ◌∙◌, inl, inr, true, ◌&&◌, some, arith, if◌then◌else◌, Bool-cases,
}
use whatsapp_api.Models.{
  Campaign, CampaignRecipient, CampaignRecipientStatus, MessageStatus, recipient_eq, is_running,
}
use whatsapp_api.Store.{Db, get_campaign, get_recipient}
use whatsapp_api.Webhooks.Status.{
  recipient_status, counted, completed, none_outstanding, rolled_up, advanced,
  propagate_campaign_status,
}
use whatsapp_api.Webhooks.Status.Rollup.{propagated, advanced-id}

recipient_eq_refl : (a : CampaignRecipientStatus) → recipient_eq a a ≡ true
unfolding recipient_eq
recipient_eq_refl CampaignRecipientStatus.queued = refl
recipient_eq_refl _ = refl

completed_again : (now : ℕ) (c : Campaign) → completed now (completed now c) ≡ completed now c
unfolding completed
completed_again now c = elim (Bool-cases (none_outstanding c && is_running c.status)) [
  | inl done ↦ rw done (ground arith)
  | inr open_ ↦ rw (open_, open_)
]

-- The same report again, when the recipient has its status already, leaves the campaign as the
-- first one left it.
rolled_up_again :
    (now : ℕ) (old new : CampaignRecipientStatus) (reported : MessageStatus) (c : Campaign)
    → rolled_up now new new reported (rolled_up now old new reported c)
      ≡ rolled_up now old new reported c
unfolding rolled_up
rolled_up_again now old new reported c =
    rw (recipient_eq_refl new)
      (completed_again now (if recipient_eq old new then c else counted reported c))

advanced_again :
    (now : ℕ) (new : CampaignRecipientStatus) (reported : MessageStatus) (r : CampaignRecipient)
    → advanced now new reported (advanced now new reported r) ≡ advanced now new reported r
advanced_again now new MessageStatus.failed r = refl
advanced_again now new _ r = refl

advanced-campaign :
    (now : ℕ) (new : CampaignRecipientStatus) (reported : MessageStatus) (r : CampaignRecipient)
    → (advanced now new reported r).campaign_id ≡ r.campaign_id
advanced-campaign now new reported r = (advanced-id now new reported r).1

-- A report that arrives twice about a known recipient counts once: the second leaves the recipient
-- and the campaign as the first did.
propagate_twice :
    (s : Db) (k : ℕ) (r : CampaignRecipient) (c : Campaign) (reported : MessageStatus)
    (new : CampaignRecipientStatus)
    → get_recipient k s ≡ some r
    → get_campaign r.campaign_id s ≡ some c
    → recipient_status reported ≡ some new
    → let s' = propagate_campaign_status k reported s in
      let s'' = propagate_campaign_status k reported s' in
      (get_recipient k s'' ≡ get_recipient k s')
      × (get_campaign r.campaign_id s'' ≡ get_campaign r.campaign_id s')
propagate_twice s k r c reported new found owner known =
    let (found1, owner1, _, _, now1, _) = propagated s k r c reported new found owner known in
    let s' : Db = propagate_campaign_status k reported s in
    let r' : CampaignRecipient = advanced s.now new reported r in
    let c' : Campaign = rolled_up s.now r.status new reported c in
    let home = advanced-campaign s.now new reported r in
    let (found2, owner2, _, _, _, _) =
      propagated s' k r' c' reported new found1
        (subst (λ j. get_campaign j s' ≡ some c') (sym home) owner1) known in
    (
      found2
          ∙ ap (λ n. some (advanced n new reported r')) now1
          ∙ ap some (advanced_again s.now new reported r)
          ∙ sym found1,
      subst
            (λ j.
              get_campaign j (propagate_campaign_status k reported s')
              ≡ some (rolled_up s'.now r'.status new reported c'))
            home owner2
          ∙ ap (λ n. some (rolled_up n r'.status new reported c')) now1
          ∙ ap (λ o. some (rolled_up s.now o new reported c')) (advanced-id s.now new reported r).2
          ∙ ap some (rolled_up_again s.now r.status new reported c)
          ∙ sym owner1,
    )
