-- ===== src/Webhooks/Status/Stamps.antt =====
-- What a status report does to its message.
use whatsapp_api.Base.{
  ℕ, ◌≡◌, ap, ◌∙◌, Bool, false, String, Option, none, some, List, [], ◌∷◌, arith, select,
  if◌then◌else◌,
}
use whatsapp_api.Base.Text.{is_empty}
use whatsapp_api.Base.Exec.{ok, err}
use whatsapp_api.Errors.{multiple_results_found}
use whatsapp_api.Json.{Json, str, get, truthy}
use whatsapp_api.Models.{Message, MessageStatus, message_eq}
use whatsapp_api.Store.{Db, put_message}
use whatsapp_api.Webhooks.Status.{
  status_of, status_of_json, is_text, find_by_wa_id, stamped, is_first_failure, failure_step,
  time_of, priced, apply_to, apply_known, apply_status_update, propagate,
}

-- The time that is kept: one that is set stays.
abbrev pub earliest : Bool → Option ℕ → ℕ → Option ℕ
earliest reported (some t) when = some t
earliest reported none when = if reported then some when else none

-- A report sets the status and stamps the time of the reported status if none is set: no time that
-- is set is changed, no time but that of the reported status is set, and no other column changes.
stamped_lem :
    (new : MessageStatus) (when : ℕ) (m : Message)
    → stamped new when m ≡ record m {
      status = new;
      sent_at = earliest (message_eq new MessageStatus.sent) m.sent_at when;
      delivered_at = earliest (message_eq new MessageStatus.delivered) m.delivered_at when;
      read_at = earliest (message_eq new MessageStatus.read) m.read_at when;
      failed_at = earliest (message_eq new MessageStatus.failed) m.failed_at when;
    }
unfolding stamped message_eq
stamped_lem MessageStatus.queued when m = ground arith
stamped_lem _ when m = ground arith

-- A status object of a webhook, as the code reads it.
pub record IsReport (status : Json) (wa raw : String) (ts pricing : Json) : Type 0 where
  pub id : get status "id" ≡ ok (str wa)
  pub id_given : is_empty wa ≡ false
  pub status_text : get status "status" ≡ ok (str raw)
  pub status_given : is_empty raw ≡ false
  pub time_text : get status "timestamp" ≡ ok ts
  pub price : get status "pricing" ≡ ok pricing

abbrev rows : String → Db → List Message
rows wa s = select (λ (m : Message). is_text wa m.wa_message_id) s.messages

module _ (status ts pricing : Json) (wa raw : String) (report : IsReport status wa raw ts pricing)
    (new : MessageStatus) (known : status_of raw ≡ some new) (s : Db) where
  known-eq : apply_status_update status s ≡ apply_known status (str wa) (some new) s
  unfolding apply_status_update truthy status_of_json
  known-eq = rw (report.id, report.status_text, report.id_given, report.status_given, known)

  -- A message id that two rows have, as when an inbound message is delivered twice, stops every
  -- report about it: the lookup raises.
  pub apply_status_update_ambiguous :
      (m n : Message) (rest : List Message)
      → rows wa s ≡ m ∷ n ∷ rest
      → apply_status_update status s ≡ (err multiple_results_found, s)
  unfolding apply_known find_by_wa_id
  apply_status_update_ambiguous m n rest two = known-eq ∙ rw two

  apply_known-eq :
      (m : Message)
      → rows wa s ≡ m ∷ []
      → apply_known status (str wa) (some new) s ≡ apply_to status new m s
  unfolding apply_known find_by_wa_id
  apply_known-eq m one = rw one

  failure_step-eq :
      (u : Db) (m m' : Message)
      → is_first_failure new m ≡ false
      → failure_step status new m m' u ≡ (ok m', u)
  unfolding failure_step
  failure_step-eq u m m' h = rw h

  priced-eq : (u : Db) (m : Message) → truthy pricing ≡ false → priced pricing m u ≡ u
  unfolding priced
  priced-eq u m h = rw h

  apply_to-eq :
      (m : Message) (when : ℕ)
      → time_of ts s ≡ (ok when, s)
      → is_first_failure new m ≡ false
      → truthy pricing ≡ false
      → apply_to status new m s
        ≡ (ok tt, propagate m.campaign_recipient_id new (put_message (stamped new when m) s))
  unfolding apply_to
  apply_to-eq m when timed no_failure free = rw (
    report.time_text,
    timed,
    failure_step-eq (put_message (stamped new when m) s) m (stamped new when m) no_failure,
    report.price,
    priced-eq (put_message (stamped new when m) s) (stamped new when m) free,
  )

  -- A report about one message, which is no first failure and has no price, gives the message its
  -- status, stamps the time of that status unless it is set, keeps every other column and every
  -- time that is set, passes the status on to its campaign's recipient if it has one, and changes
  -- nothing else.
  pub apply_status_update_lem :
      (m : Message) (when : ℕ)
      → rows wa s ≡ m ∷ []
      → time_of ts s ≡ (ok when, s)
      → is_first_failure new m ≡ false
      → truthy pricing ≡ false
      → apply_status_update status s ≡ (
        ok tt,
        propagate m.campaign_recipient_id new (
            put_message
              (record m {
                status = new;
                sent_at = earliest (message_eq new MessageStatus.sent) m.sent_at when;
                delivered_at =
                    earliest (message_eq new MessageStatus.delivered) m.delivered_at when;
                read_at = earliest (message_eq new MessageStatus.read) m.read_at when;
                failed_at = earliest (message_eq new MessageStatus.failed) m.failed_at when;
              })
              s),
      )
  apply_status_update_lem m when one timed no_failure free =
      known-eq
      ∙ apply_known-eq m one
      ∙ apply_to-eq m when timed no_failure free
      ∙ ap (λ m'. (ok tt, propagate m.campaign_recipient_id new (put_message m' s)))
          (stamped_lem new when m)
