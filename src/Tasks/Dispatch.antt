-- ===== src/Tasks/Dispatch.antt =====
-- tasks/send_campaign_task.py: `process_campaign_task`. What it puts on the queue is the list of
-- recipient ids that it returns with its answer.
pub mod Laws
use whatsapp_api.Base.{
  ℕ, true, ◌&&◌, Option, none, some, List, [], ◌∷◌, map, select, length, ◌==◌, if◌then◌else◌, ◌≡◌,
}
use whatsapp_api.Base.Int.{pos}
use whatsapp_api.Base.Exec.{ok, Action}
use whatsapp_api.Json.{Json, obj, bool, num, str, field, end}
use whatsapp_api.Models.{
  Campaign, CampaignRecipient, CampaignRecipientStatus, campaign_value, recipient_eq, is_running,
}
use whatsapp_api.Store.{Db, get_campaign}
use whatsapp_api.Store.Sessions.{session_scope}

abbrev pub queued_ids : ℕ → Db → List ℕ
queued_ids campaign_id s =
    map (λ (r : CampaignRecipient). r.id)
      (select
        (λ (r : CampaignRecipient).
          r.campaign_id == campaign_id && recipient_eq r.status CampaignRecipientStatus.queued)
        s.recipients)

abbrev pub dispatched : List ℕ → Json × List ℕ
dispatched ids =
    (obj (field "status" (str "dispatched") (field "count" (num (pos (length ids))) end)), ids)

unfoldable pub process_found : ℕ → Option Campaign → Db → Json × List ℕ
process_found campaign_id none s = (obj (field "status" (str "missing") end), [])
process_found campaign_id (some c) s =
    if is_running c.status then dispatched (queued_ids campaign_id s) else (
      obj (field "status" (str (campaign_value c.status)) (field "skipped" (bool true) end)),
      [],
    )

-- `_process_campaign`
unfoldable pub process_campaign : ℕ → Action Db (Json × List ℕ)
process_campaign campaign_id =
    session_scope (λ (s : Db). s) (λ d s. d)
      (λ s. (ok (process_found campaign_id (get_campaign campaign_id s) s), s))
