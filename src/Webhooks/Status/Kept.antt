-- ===== src/Webhooks/Status/Kept.antt =====
-- A report on a message keeps what its queries and writes keep, where that of a message depends on its
-- direction and its phone.
use whatsapp_api.Base.{ℕ, Option, none, some, if_elim, arith}
use whatsapp_api.Base.Exec.{◌>>=◌, ◌>>◌, lift, modify}
use whatsapp_api.Base.Keeps.{
  Keeps, Keeps-pure, Keeps-bind, keeps_rules, Yields, yields_rules, Keeps-from,
}
use whatsapp_api.Json.{Json, truthy, get}
use whatsapp_api.Models.{Message, MessageStatus}
use whatsapp_api.Store.{Db, put_message}
use whatsapp_api.Webhooks.Status.{
  apply_status_update, apply_known, apply_found, apply_to, find_by_wa_id, failure_step, read_errors,
  record_error, priced, propagate, stamped,
}
use whatsapp_api.Store.Rows.{Found}
use whatsapp_api.Models.{MessageDirection}
use whatsapp_api.Webhooks.Kept.{Keeps-time_of}

module _ {P : Db → Type 0} (R : MessageDirection → Json → Type 0)
    (put : (m : Message) → R m.direction m.recipient_phone → Keeps P (modify (put_message m)))
    (found : (wa_id : Json)
      → Yields P (Found (λ (m : Message). R m.direction m.recipient_phone)) (find_by_wa_id wa_id))
    (moved : (id : Option ℕ) (new : MessageStatus) → Keeps P (modify (propagate id new))) where
  abbrev Q : Message → Type 0
  Q m = R m.direction m.recipient_phone

  Keeps-priced : (pricing : Json) (m : Message) → Q m → Keeps P (modify (priced pricing m))
  unfolding priced
  Keeps-priced pricing m d = record {
    at = λ s h.
        if_elim P (truthy pricing) (λ _. (put (record m { meta_pricing = pricing }) d).at s h)
          (λ _. h);
  }

  -- The error of a failure is recorded in a message with the same phone.
  Yields-record_error : (found : Json) (m : Message) → Q m → Yields P Q (record_error found m)
  unfolding record_error
  Yields-record_error found m d = search (keeps_rules, yields_rules, put) depth 14

  Yields-failure_step :
      (status : Json) (new : MessageStatus) (old m : Message)
      → Q m
      → Yields P Q (failure_step status new old m)
  unfolding failure_step read_errors
  Yields-failure_step status new old m d =
      search (keeps_rules, yields_rules, Yields-record_error) depth 14

  stamped-Kind : (new : MessageStatus) (when : ℕ) (m : Message) → Q m → Q (stamped new when m)
  unfolding stamped
  stamped-Kind new when m d = ground arith

  Keeps-after_failure :
      (status : Json) (new : MessageStatus) (id : Option ℕ) (m : Message)
      → Q m
      → Keeps P (
          lift (get status "pricing") >>= λ pricing.
          modify (priced pricing m) >> modify (propagate id new))
  Keeps-after_failure status new id m d = search (keeps_rules, Keeps-priced, moved)

  Keeps-after_stamp :
      (status : Json) (new : MessageStatus) (id : Option ℕ) (old m : Message)
      → Q m
      → Keeps P (
          modify (put_message m)
          >> (failure_step status new old m >>= λ n. lift (get status "pricing") >>= λ pricing.
              modify (priced pricing n) >> modify (propagate id new)))
  Keeps-after_stamp status new id old m d = Keeps-bind _ _ (put m d) (λ _.
      Keeps-from Q _ _ (Yields-failure_step status new old m d) (Keeps-after_failure status new id))

  Keeps-apply_to :
      (status : Json) (new : MessageStatus) (m : Message) → Q m → Keeps P (apply_to status new m)
  unfolding apply_to
  Keeps-apply_to status new m d =
      search (keeps_rules, Keeps-time_of, Keeps-after_stamp, stamped-Kind) depth 14

  Keeps-apply_found :
      (status : Json) (new : MessageStatus) (m : Option Message)
      → Found Q m
      → Keeps P (apply_found status new m)
  Keeps-apply_found status new none f = Keeps-pure tt
  Keeps-apply_found status new (some m) f = Keeps-apply_to status new m f

  Keeps-apply_known :
      (status wa_id : Json) (new : Option MessageStatus) → Keeps P (apply_known status wa_id new)
  unfolding apply_known
  Keeps-apply_known status wa_id none = Keeps-pure tt
  Keeps-apply_known status wa_id (some new) =
      Keeps-from (Found Q) _ _ (found wa_id) (Keeps-apply_found status new)

  pub Keeps-apply_status_update : (status : Json) → Keeps P (apply_status_update status)
  unfolding apply_status_update
  Keeps-apply_status_update status = search (keeps_rules, Keeps-apply_known) depth 12
