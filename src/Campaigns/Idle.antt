-- ===== src/Campaigns/Idle.antt =====
-- The calls of `CampaignService`, over any sequence of them.
use whatsapp_api.Base.{ℕ, ◌≡◌, refl, false, not, Option, none, some, arith, All}
use whatsapp_api.Base.Exec.{modify}
use whatsapp_api.Base.Keeps.{Keeps, keeps_rules}
use whatsapp_api.Models.{Campaign, CampaignStatus, Settings, is_running}
use whatsapp_api.Store.{Db, put_campaign, flush}
use whatsapp_api.Store.Rows.{All-snoc, All-replace}
use whatsapp_api.Utils.Phone.{PhoneLib}
use whatsapp_api.Campaigns.Upload.{Csv, Upload, grown, add_recipients, upload_recipients}
use whatsapp_api.Campaigns.{
  CampaignCreate, create, add_campaign, first_status, is_open, start, pause, resume, cancel,
}
use whatsapp_api.Campaigns.Kept.{Keeps-get, Keeps-Refuses, Keeps-create, Keeps-pause, Keeps-cancel}
use whatsapp_api.Campaigns.Lifecycle.{start-Refuses, resume-Refuses}

-- The session's campaigns, when none is running.
abbrev IsIdle : Campaign → Type 0
IsIdle c = is_running c.status ≡ false

abbrev pub NoneRunning : Db → Type 0
NoneRunning s = All IsIdle s.campaigns

Keeps-put : (c : Campaign) → IsIdle c → Keeps NoneRunning (modify (put_campaign c))
Keeps-put c i = record { at = λ s h. All-replace IsIdle (λ (x : Campaign). x.id) c s.campaigns i h }

Keeps-add : (c : Campaign) → IsIdle c → Keeps NoneRunning (modify (add_campaign c))
Keeps-add c i = record { at = λ s h. All-snoc IsIdle c s.campaigns i h }

flush-campaigns : (s : Db) → (flush s).1.campaigns ≡ s.campaigns
unfolding flush
flush-campaigns s = ground arith

pub Keeps-flush : Keeps NoneRunning flush
Keeps-flush = record { at = λ s h. rw (flush-campaigns s) h }

first-IsIdle : (t : Option ℕ) → is_running (first_status t) ≡ false
first-IsIdle none = refl
first-IsIdle (some _) = refl

abbrev Idle : CampaignStatus → Type 0
Idle status = is_running status ≡ false

pub create-NoneRunning :
    (settings : Settings) (payload : CampaignCreate) → Keeps NoneRunning (create settings payload)
create-NoneRunning = Keeps-create Idle Keeps-flush Keeps-put Keeps-add first-IsIdle refl refl

pub pause-NoneRunning : (campaign_id : ℕ) → Keeps NoneRunning (pause campaign_id)
pause-NoneRunning = Keeps-pause Idle Keeps-flush Keeps-put Keeps-add first-IsIdle refl refl

pub cancel-NoneRunning : (campaign_id : ℕ) → Keeps NoneRunning (cancel campaign_id)
cancel-NoneRunning = Keeps-cancel Idle Keeps-flush Keeps-put Keeps-add first-IsIdle refl refl

open-IsIdle : (c : Campaign) (n : ℕ) → not (is_open c.status) ≡ false → IsIdle (grown n c)
open-IsIdle c n h = go c.status h
  where
    go : (status : CampaignStatus) → not (is_open status) ≡ false → is_running status ≡ false
    go CampaignStatus.running h = cc
    go _ h = ground arith

Keeps-add_recipients : (u : Upload) → Keeps NoneRunning (modify (add_recipients u))
Keeps-add_recipients u = record { at = λ s h. h }

pub Keeps-upload :
    (lib : PhoneLib) (campaign_id : ℕ) (csv : Csv)
    → Keeps NoneRunning (upload_recipients lib campaign_id csv)
unfolding upload_recipients
Keeps-upload lib campaign_id csv =
    search (keeps_rules, Keeps-get, Keeps-flush, Keeps-put, Keeps-add_recipients, open-IsIdle) depth
      16

-- The calls of the service that may write.
pub data Call : Type 1 where
  create_call : Settings → CampaignCreate → Call
  upload_call : PhoneLib → ℕ → Csv → Call
  start_call pause_call resume_call cancel_call : ℕ → Call

-- What a call leaves, whether it returns or raises: the route commits or not, and if it does not
-- the state before it stays.
abbrev run_call : Call → Db → Db
run_call (create_call settings payload) s = (create settings payload s).1
run_call (upload_call lib campaign_id csv) s = (upload_recipients lib campaign_id csv s).1
run_call (start_call campaign_id) s = (start campaign_id s).1
run_call (pause_call campaign_id) s = (pause campaign_id s).1
run_call (resume_call campaign_id) s = (resume campaign_id s).1
run_call (cancel_call campaign_id) s = (cancel campaign_id s).1

-- The states that calls lead to, from `s`; a call that raised may have been rolled back.
pub data Reaches (s : Db) : Db → Type 1 where
  here : Reaches s s
  called : (call : Call) (u : Db) → Reaches s u → Reaches s (run_call call u)

call_keeps : (call : Call) (s : Db) → NoneRunning s → NoneRunning (run_call call s)
call_keeps (create_call settings payload) s h = (create-NoneRunning settings payload).at s h
call_keeps (upload_call lib campaign_id csv) s h = (Keeps-upload lib campaign_id csv).at s h
call_keeps (start_call campaign_id) s h =
    (Keeps-Refuses {P = NoneRunning} (start campaign_id) (start-Refuses campaign_id)).at s h
call_keeps (pause_call campaign_id) s h = (pause-NoneRunning campaign_id).at s h
call_keeps (resume_call campaign_id) s h =
    (Keeps-Refuses {P = NoneRunning} (resume campaign_id) (resume-Refuses campaign_id)).at s h
call_keeps (cancel_call campaign_id) s h = (cancel-NoneRunning campaign_id).at s h

-- No sequence of calls of the service, however they end, sets a campaign running where none was.
pub none_running : (s u : Db) → NoneRunning s → Reaches s u → NoneRunning u
none_running s u h here = h
none_running s u h (called call v r) = call_keeps call v (none_running s v h r)
