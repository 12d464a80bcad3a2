-- ===== src/Examples/Reports.antt =====
-- Examples on webhooks.
use whatsapp_api.Base.{
  ℕ, ◌≡◌, ◌≢◌, ◌↔◌, refl, true, false, not, ◌++◌, String, none, some, [], ◌∷◌, str_eq,
  if◌then◌else◌,
}
use whatsapp_api.Base.Int.{pos}
use whatsapp_api.Base.Text.{codes}
use whatsapp_api.Base.Exec.{ok, err}
use whatsapp_api.Errors.{Error, multiple_results_found}
use whatsapp_api.Json.{null, num, get, get_or, truthy, iterate}
use whatsapp_api.Models.{
  Campaign, CampaignStatus, CampaignRecipientStatus, MessageStatus, recipient_eq, message_eq,
}
use whatsapp_api.Store.{Db, get_campaign, get_recipient, get_event, put_message}
use whatsapp_api.Webhooks.Signature.{verify_signature}
use whatsapp_api.Webhooks.Signature.Laws.{verify_signature_lem}
use whatsapp_api.Webhooks.Status.{
  rolled_up, propagate_campaign_status, stamped, apply_status_update, propagate, recipient_status,
  status_of, status_of_json, find_by_wa_id, apply_known, apply_to, time_of, timestamp, failure_step,
  priced,
}
use whatsapp_api.Webhooks.Status.Rollup.{
  IsRolledUp, rolled_up_lem, propagate_campaign_status_lem, completed_early,
}
use whatsapp_api.Webhooks.Status.Stamps.{
  IsReport, earliest, apply_status_update_lem, apply_status_update_ambiguous,
}
use whatsapp_api.Webhooks.Events.{rows_of, handle_messages, tenant_for_value, metadata_field}
use whatsapp_api.Webhooks.Processing.{
  process_event, handle_payload, handle_entry, handle_change, handle_field,
}
use whatsapp_api.Webhooks.Processing.Laws.{
  succeeded, error_text, outcome, result_event, process_event_lem, process_event_twice,
}
use whatsapp_api.Examples.{shop, spring, first_recipient, first_message, read_report, read_event}

abbrev shown : Error → String
shown e = "error"

abbrev no_digest : String → String
no_digest body = "ab"

-- A second row with the message's id.
abbrev doubled : Db
doubled = record shop { messages = first_message ∷ first_message ∷ [] }

read_report-IsReport : IsReport read_report "m1" "read" (num (pos 900)) null
unfolding get get_or str_eq
read_report-IsReport = record {
  id = refl;
  id_given = refl;
  status_text = refl;
  status_given = refl;
  time_text = refl;
  price = refl;
}

process_event_lem_example :
    let (r, u) = process_event shown 9 shop in
    (r ≡ ok tt)
    × (get_event 9 u ≡ some (result_event shown read_event shop))
    × ((result_event shown read_event shop).processed ≡ succeeded (outcome read_event shop))
    × ((result_event shown read_event shop).error ≡ error_text shown (outcome read_event shop))
    × (u.tenants ≡ shop.tenants)
    × (u.api_keys ≡ shop.api_keys)
unfolding handle_payload handle_entry handle_change handle_field handle_messages rows_of get get_or
    truthy iterate tenant_for_value metadata_field apply_status_update status_of_json status_of
    find_by_wa_id apply_known apply_to time_of timestamp failure_step priced
    propagate_campaign_status recipient_status stamped str_eq
process_event_lem_example = process_event_lem shown 9 shop read_event refl refl refl

process_event_twice_example :
    let u = (process_event shown 9 shop).1 in process_event shown 9 u ≡ (ok tt, u)
unfolding handle_payload handle_entry handle_change handle_field handle_messages rows_of get get_or
    truthy iterate tenant_for_value metadata_field apply_status_update status_of_json status_of
    find_by_wa_id apply_known apply_to time_of timestamp failure_step priced
    propagate_campaign_status recipient_status stamped str_eq
process_event_twice_example = process_event_twice shown 9 shop read_event refl refl refl tt

propagate_campaign_status_lem_example :
    let s' = propagate_campaign_status 7 (MessageStatus.read) shop in
    (get_recipient 7 s'
      ≡ some (record first_recipient {
        status = CampaignRecipientStatus.read;
        completed_at =
            if message_eq (MessageStatus.read) MessageStatus.failed
            then some shop.now
            else first_recipient.completed_at;
      }))
    × ((c' : Campaign) × (get_campaign first_recipient.campaign_id s' ≡ some c')
        × IsRolledUp shop.now
            (not (recipient_eq first_recipient.status (CampaignRecipientStatus.read)))
            (MessageStatus.read)
            spring
            c')
    × ((j : ℕ) → 7 ≢ j → get_recipient j s' ≡ get_recipient j shop)
    × ((j : ℕ) → first_recipient.campaign_id ≢ j → get_campaign j s' ≡ get_campaign j shop)
    × (s'.messages ≡ shop.messages)
unfolding recipient_status
propagate_campaign_status_lem_example =
    propagate_campaign_status_lem shop 7 first_recipient spring MessageStatus.read
      CampaignRecipientStatus.read refl refl refl

rolled_up_lem_example :
    IsRolledUp 1000
      (not (recipient_eq (CampaignRecipientStatus.sent) (CampaignRecipientStatus.failed)))
      (MessageStatus.failed)
      spring
      (rolled_up 1000
        (CampaignRecipientStatus.sent)
        (CampaignRecipientStatus.failed)
        (MessageStatus.failed)
        spring)
rolled_up_lem_example =
    rolled_up_lem 1000 CampaignRecipientStatus.sent CampaignRecipientStatus.failed
      MessageStatus.failed spring

completed_early_example :
    let s' =
      propagate_campaign_status 7 MessageStatus.read
        (propagate_campaign_status 7 MessageStatus.delivered shop) in
    ((c' : Campaign) × (get_campaign first_recipient.campaign_id s' ≡ some c')
      × (c'.status ≡ CampaignStatus.completed))
    × ((j : ℕ) → 7 ≢ j → get_recipient j s' ≡ get_recipient j shop)
unfolding recipient_eq
completed_early_example = completed_early shop 7 first_recipient spring refl refl refl refl refl

apply_status_update_lem_example : apply_status_update read_report shop ≡ (
  ok tt,
  propagate first_message.campaign_recipient_id (MessageStatus.read) (
      put_message
        (record first_message {
          status = MessageStatus.read;
          sent_at =
              earliest
                (message_eq (MessageStatus.read) MessageStatus.sent)
                first_message.sent_at
                900;
          delivered_at =
              earliest
                (message_eq (MessageStatus.read) MessageStatus.delivered)
                first_message.delivered_at
                900;
          read_at =
              earliest
                (message_eq (MessageStatus.read) MessageStatus.read)
                first_message.read_at
                900;
          failed_at =
              earliest
                (message_eq (MessageStatus.read) MessageStatus.failed)
                first_message.failed_at
                900;
        })
        shop),
)
unfolding status_of time_of timestamp truthy str_eq
apply_status_update_lem_example =
    apply_status_update_lem read_report (num (pos 900)) null "m1" "read" read_report-IsReport
      MessageStatus.read refl shop first_message 900 refl refl refl refl

apply_status_update_ambiguous_example :
    apply_status_update read_report doubled ≡ (err multiple_results_found, doubled)
unfolding status_of str_eq
apply_status_update_ambiguous_example =
    apply_status_update_ambiguous read_report (num (pos 900)) null "m1" "read" read_report-IsReport
      MessageStatus.read refl doubled first_message first_message [] refl

verify_signature_lem_example :
    (verify_signature no_digest "{}" none ≡ ok false)
    × ((header : String)
        → (verify_signature no_digest "{}" (some header) ≡ ok true)
          ↔ (codes header ≡ codes "sha256=" ++ codes (no_digest "{}")))
verify_signature_lem_example = verify_signature_lem no_digest "{}" refl
