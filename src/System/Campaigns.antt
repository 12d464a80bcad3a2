-- ===== src/System/Campaigns.antt =====
-- The calls on campaigns leave the phones alone.
use whatsapp_api.Base.{refl, ℕ}
use whatsapp_api.Base.Exec.{modify}
use whatsapp_api.Base.Keeps.{Keeps}
use whatsapp_api.Models.{Campaign, CampaignStatus, Settings}
use whatsapp_api.Campaigns.{CampaignCreate, create, add_campaign, pause, cancel}
use whatsapp_api.Campaigns.Kept.{Keeps-create, Keeps-pause, Keeps-cancel}
use whatsapp_api.System.Dialable.{Dialable-same, Dialable, Keeps-flush}
use whatsapp_api.System.Uploads.{Keeps-put_campaign}

Keeps-add_campaign : (c : Campaign) → Keeps Dialable (modify (add_campaign c))
Keeps-add_campaign c = record { at = λ s h. Dialable-same refl refl refl h }

abbrev Any : CampaignStatus → Type 0
Any status = Unit

pub create-Dialable :
    (settings : Settings) (payload : CampaignCreate) → Keeps Dialable (create settings payload)
create-Dialable =
    Keeps-create Any Keeps-flush (λ c _. Keeps-put_campaign c) (λ c _. Keeps-add_campaign c)
      (λ _. tt) tt tt

pub pause-Dialable : (campaign_id : ℕ) → Keeps Dialable (pause campaign_id)
pause-Dialable =
    Keeps-pause Any Keeps-flush (λ c _. Keeps-put_campaign c) (λ c _. Keeps-add_campaign c)
      (λ _. tt) tt tt

pub cancel-Dialable : (campaign_id : ℕ) → Keeps Dialable (cancel campaign_id)
cancel-Dialable =
    Keeps-cancel Any Keeps-flush (λ c _. Keeps-put_campaign c) (λ c _. Keeps-add_campaign c)
      (λ _. tt) tt tt
