-- ===== src/Campaigns/Lifecycle.antt =====
-- The states of a campaign.
use whatsapp_api.Base.{ℕ, ◌≡◌, refl, Bool, true, false, some, Option-cases, inl, inr}
use whatsapp_api.Base.Exec.{ok, err, Action, ◌>>=◌, ◌>>◌, raise, raise_if}
use whatsapp_api.Errors.{Error}
use whatsapp_api.Models.{Campaign}
use whatsapp_api.Store.{Db, get_campaign, put_campaign}
use whatsapp_api.Store.Laws.{IsClean, flush_clean, find_by-replace_found}
use whatsapp_api.Campaigns.{get, start, resume, cancel, cancel_open, cancelled, is_over}

-- The action raises in every state, and changes nothing.
pub record Refuses {A : Type 0} (m : Action Db A) : Type 0 where
  pub outcome : (s : Db) → (e : Error) × (m s ≡ (err e, s))

module _ {A : Type 0} where
  Refuses-raise : (e : Error) → Refuses (raise {A = A} e)
  Refuses-raise e = record { outcome = λ s. (e, refl) }

module _ {B : Type 0} where
  Refuses-raise_if :
      (b : Bool) (e : Error) (k : Action Db B) → Refuses k → Refuses (raise_if b e >> k)
  Refuses-raise_if true e k r = Refuses-raise e
  Refuses-raise_if false e k r = r

  Refuses-get :
      (campaign_id : ℕ) (f : Campaign → Action Db B)
      → ((c : Campaign) → Refuses (f c))
      → Refuses (get campaign_id >>= f)
  unfolding get
  Refuses-get campaign_id f r = record {
    outcome = λ s. elim (Option-cases (get_campaign campaign_id s)) [
      | inl missing ↦ rw missing (_, refl)
      | inr (c, found) ↦ rw found ((r c).outcome s)
    ];
  }

-- `start` raises for every campaign and in every state, and changes nothing: no call of the
-- service sets a campaign running.
pub start-Refuses : (campaign_id : ℕ) → Refuses (start campaign_id)
unfolding start
start-Refuses campaign_id = search (Refuses-get, Refuses-raise_if, Refuses-raise) depth 10

-- So `resume` raises as well, also for a paused campaign, which stays paused.
pub resume-Refuses : (campaign_id : ℕ) → Refuses (resume campaign_id)
unfolding resume
resume-Refuses campaign_id = search (Refuses-get, Refuses-raise_if, start-Refuses) depth 10

module _ (campaign_id : ℕ) (c : Campaign) where
  -- Cancelling a campaign that is neither completed nor cancelled, with nothing to flush before,
  -- returns it as cancelled now, and it is found so; cancelling it again changes nothing.
  cancel_twice :
      (s : Db)
      → get_campaign campaign_id s ≡ some c
      → is_over c.status ≡ false
      → IsClean s
      → let u = put_campaign (cancelled s.now c) s in
        (cancel campaign_id s ≡ (ok (cancelled s.now c), u))
        × (get_campaign campaign_id u ≡ some (cancelled s.now c))
        × (cancel campaign_id u ≡ (ok (cancelled s.now c), u))
  unfolding cancel cancel_open get
  cancel_twice s found live clean =
      let u = put_campaign (cancelled s.now c) s in
      let again =
        find_by-replace_found (λ (x : Campaign). x.id) campaign_id (cancelled s.now c) c s.campaigns
          found refl in
      (
        rw (
          found,
          live,
          flush_clean u
              (record { nothing_pending = clean.nothing_pending; storable = clean.storable }),
        ),
        again,
        rw again,
      )
