-- ===== src/Webhooks/Status/Rollup.antt =====
-- How a reported status reaches the recipient and its campaign.
use whatsapp_api.Base.{
  ℕ, ◌+◌, ◌≡◌, refl, sym, ap, ◌∙◌, ◌≢◌, Bool, false, not, ◌&&◌, some, arith, leb, if◌then◌else◌,
}
use whatsapp_api.Models.{
  Campaign, CampaignRecipient, CampaignRecipientStatus, CampaignStatus, MessageStatus, recipient_eq,
  message_eq, is_running,
}
use whatsapp_api.Store.{Db, get_campaign, put_campaign, get_recipient, put_recipient}
use whatsapp_api.Store.Laws.{find_by-replace_found, find_by-replace_ne, find_by-id}
use whatsapp_api.Webhooks.Status.{
  recipient_status, counted, completed, rolled_up, advanced, propagate_campaign_status,
}

-- The recipients that a campaign counts as settled.
abbrev pub settled : Campaign → ℕ
settled c = c.delivered_count + c.read_count + c.failed_count

-- What a counter goes up by.
abbrev pub one_if : Bool → ℕ
one_if b = if b then 1 else 0

-- A campaign after a report, with `changed` telling whether the recipient's status changed: the
-- counter of the reported status goes up by one if it did, and no other counter moves. The
-- campaign is completed, now, exactly if it was running and as many recipients are counted as it
-- has; its other columns are as they were.
pub record IsRolledUp (now : ℕ) (changed : Bool) (reported : MessageStatus) (c c' : Campaign)
    : Type 0 where
  pub delivered :
      c'.delivered_count
      ≡ c.delivered_count + one_if (changed && message_eq reported MessageStatus.delivered)
  pub read :
      c'.read_count ≡ c.read_count + one_if (changed && message_eq reported MessageStatus.read)
  pub failed :
      c'.failed_count
      ≡ c.failed_count + one_if (changed && message_eq reported MessageStatus.failed)
  pub status : c'.status ≡ (
      if is_running c.status && leb c.total_recipients (settled c')
      then CampaignStatus.completed
      else c.status)
  pub completed_at : c'.completed_at ≡ (
      if is_running c.status && leb c.total_recipients (settled c')
      then some now
      else c.completed_at)
  pub rest : c' ≡ record c {
    delivered_count = c'.delivered_count;
    read_count = c'.read_count;
    failed_count = c'.failed_count;
    status = c'.status;
    completed_at = c'.completed_at;
  }

-- A report moves only the counter of the reported status, by one, and none if the recipient's status
-- stays the same. The campaign's status changes only from running to completed, and does so
-- exactly if as many recipients are counted as the campaign has. No other column changes but the
-- time of completion.
pub rolled_up_lem :
    (now : ℕ) (old new : CampaignRecipientStatus) (reported : MessageStatus) (c : Campaign)
    → IsRolledUp now (not (recipient_eq old new)) reported c (rolled_up now old new reported c)
unfolding rolled_up completed counted message_eq
rolled_up_lem now old new MessageStatus.queued c = record {
  delivered = ground arith;
  read = ground arith;
  failed = ground arith;
  status = ground arith;
  completed_at = ground arith;
  rest = ground arith;
}
rolled_up_lem now old new _ c = record {
  delivered = ground arith;
  read = ground arith;
  failed = ground arith;
  status = ground arith;
  completed_at = ground arith;
  rest = ground arith;
}

module _ (s : Db) (k : ℕ) (r : CampaignRecipient) (c : Campaign) (reported : MessageStatus)
    (new : CampaignRecipientStatus) where
  abbrev Found : Type 0
  Found =
      (get_recipient k s ≡ some r)
      × (get_campaign r.campaign_id s ≡ some c)
      × (recipient_status reported ≡ some new)

  abbrev next : Db
  next =
      put_campaign (rolled_up s.now r.status new reported c)
        (put_recipient (advanced s.now new reported r) s)

  propagate-eq : Found → propagate_campaign_status k reported s ≡ next
  unfolding propagate_campaign_status
  propagate-eq (found, owner, known) = rw (found, known, owner)

pub advanced-id :
    (now : ℕ) (new : CampaignRecipientStatus) (reported : MessageStatus) (r : CampaignRecipient)
    → ((advanced now new reported r).id ≡ r.id)
      × ((advanced now new reported r).campaign_id ≡ r.campaign_id)
      × ((advanced now new reported r).status ≡ new)
advanced-id now new MessageStatus.queued r = (refl, refl, refl)
advanced-id now new _ r = (refl, refl, refl)

pub rolled_up-id :
    (now : ℕ) (old new : CampaignRecipientStatus) (reported : MessageStatus) (c : Campaign)
    → (rolled_up now old new reported c).id ≡ c.id
unfolding rolled_up completed counted
rolled_up-id now old new MessageStatus.queued c = ground arith
rolled_up-id now old new _ c = ground arith

-- What a report about a known recipient of a known campaign leaves, in the code's own terms.
pub propagated :
    (s : Db) (k : ℕ) (r : CampaignRecipient) (c : Campaign) (reported : MessageStatus)
    (new : CampaignRecipientStatus)
    → get_recipient k s ≡ some r
    → get_campaign r.campaign_id s ≡ some c
    → recipient_status reported ≡ some new
    → let s' = propagate_campaign_status k reported s in
      (get_recipient k s' ≡ some (advanced s.now new reported r))
      × (get_campaign r.campaign_id s' ≡ some (rolled_up s.now r.status new reported c))
      × ((j : ℕ) → k ≢ j → get_recipient j s' ≡ get_recipient j s)
      × ((j : ℕ) → r.campaign_id ≢ j → get_campaign j s' ≡ get_campaign j s)
      × (s'.now ≡ s.now)
      × (s'.messages ≡ s.messages)
propagated s k r c reported new found owner known =
    let rid = find_by-id (λ (x : CampaignRecipient). x.id) k r s.recipients found in
    let cid = find_by-id (λ (x : Campaign). x.id) r.campaign_id c s.campaigns owner in
    rw (propagate-eq s k r c reported new (found, owner, known)) (
      find_by-replace_found (λ (x : CampaignRecipient). x.id) k _ r s.recipients found
          (advanced-id s.now new reported r).0,
      find_by-replace_found (λ (x : Campaign). x.id) r.campaign_id _ c s.campaigns owner
          (rolled_up-id s.now r.status new reported c),
      λ j ne.
          find_by-replace_ne (λ (x : CampaignRecipient). x.id) j _ s.recipients
            (λ e. ne (sym rid ∙ sym (advanced-id s.now new reported r).0 ∙ e)),
      λ j ne.
          find_by-replace_ne (λ (x : Campaign). x.id) j _ s.campaigns
            (λ e. ne (sym cid ∙ sym (rolled_up-id s.now r.status new reported c) ∙ e)),
      refl,
      refl,
    )

advanced_lem :
    (now : ℕ) (new : CampaignRecipientStatus) (reported : MessageStatus) (r : CampaignRecipient)
    → advanced now new reported r ≡ record r {
      status = new;
      completed_at = if message_eq reported MessageStatus.failed then some now else r.completed_at;
    }
unfolding message_eq
advanced_lem now new MessageStatus.queued r = refl
advanced_lem now new _ r = refl

-- A report about a known recipient of a known campaign. The recipient has the reported status, with
-- the time of completion if it failed, and is otherwise as it was. The campaign's counter of the
-- reported status goes up by one if the recipient's status changed, its status may become
-- completed, and its other columns stay. No other recipient, no other campaign and no message
-- changes.
pub propagate_campaign_status_lem :
    (s : Db) (k : ℕ) (r : CampaignRecipient) (c : Campaign) (reported : MessageStatus)
    (new : CampaignRecipientStatus)
    → get_recipient k s ≡ some r
    → get_campaign r.campaign_id s ≡ some c
    → recipient_status reported ≡ some new
    → let s' = propagate_campaign_status k reported s in
      (get_recipient k s'
        ≡ some (record r {
          status = new;
          completed_at =
              if message_eq reported MessageStatus.failed then some s.now else r.completed_at;
        }))
      × ((c' : Campaign) × (get_campaign r.campaign_id s' ≡ some c')
          × IsRolledUp s.now (not (recipient_eq r.status new)) reported c c')
      × ((j : ℕ) → k ≢ j → get_recipient j s' ≡ get_recipient j s)
      × ((j : ℕ) → r.campaign_id ≢ j → get_campaign j s' ≡ get_campaign j s)
      × (s'.messages ≡ s.messages)
propagate_campaign_status_lem s k r c reported new found owner known =
    let (found1, owner1, others, elsewhere, _, messages) =
      propagated s k r c reported new found owner known in
    (
      found1 ∙ ap some (advanced_lem s.now new reported r),
      (_, owner1, rolled_up_lem s.now r.status new reported c),
      others,
      elsewhere,
      messages,
    )

-- A recipient that is reported as delivered and then as read counts twice.
twice_counted :
    (now : ℕ) (old : CampaignRecipientStatus) (c : Campaign)
    → recipient_eq old CampaignRecipientStatus.delivered ≡ false
    → c.status ≡ CampaignStatus.running
    → c.total_recipients ≡ settled c + 2
    → (rolled_up now CampaignRecipientStatus.delivered CampaignRecipientStatus.read
        MessageStatus.read
        (rolled_up now old CampaignRecipientStatus.delivered MessageStatus.delivered c)).status
      ≡ CampaignStatus.completed
unfolding rolled_up completed counted recipient_eq
twice_counted now old c fresh running two = ground arith

-- A running campaign with two recipients that are not counted yet is completed when one of them,
-- not delivered before, is reported as delivered and then as read; every other recipient is as it
-- was.
pub completed_early :
    (s : Db) (k : ℕ) (r : CampaignRecipient) (c : Campaign)
    → get_recipient k s ≡ some r
    → get_campaign r.campaign_id s ≡ some c
    → recipient_eq r.status CampaignRecipientStatus.delivered ≡ false
    → c.status ≡ CampaignStatus.running
    → c.total_recipients ≡ settled c + 2
    → let s' =
        propagate_campaign_status k MessageStatus.read
          (propagate_campaign_status k MessageStatus.delivered s) in
      ((c' : Campaign) × (get_campaign r.campaign_id s' ≡ some c')
        × (c'.status ≡ CampaignStatus.completed))
      × ((j : ℕ) → k ≢ j → get_recipient j s' ≡ get_recipient j s)
unfolding recipient_status
completed_early s k r c found owner fresh running two =
    let (found1, owner1, others1, _, now1, _) =
      propagated s k r c MessageStatus.delivered CampaignRecipientStatus.delivered found owner
        refl in
    let (found2, owner2, others2, _, now2, _) =
      propagated (propagate_campaign_status k MessageStatus.delivered s) k
        (advanced s.now CampaignRecipientStatus.delivered MessageStatus.delivered r)
        (rolled_up s.now r.status CampaignRecipientStatus.delivered MessageStatus.delivered c)
        MessageStatus.read CampaignRecipientStatus.read found1 owner1 refl in
    (
      (_, owner2, rw now1 (twice_counted s.now r.status c fresh running two)),
      λ j ne. others2 j ne ∙ others1 j ne,
    )
