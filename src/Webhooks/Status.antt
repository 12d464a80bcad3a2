-- ===== src/Webhooks/Status.antt =====
-- The status updates of services/webhook_service.py: `_apply_status_update` and
-- `_propagate_campaign_status`.
pub mod Kept
pub mod Rollup
pub mod Stamps
pub mod Twice
use whatsapp_api.Base.{
  ℕ, ◌+◌, ◌≤◌, ◌<◌, Bool, true, false, not, ◌&&◌, ◌||◌, String, Option, none, some, ◌∷◌, select,
  leb, ltb, ◌==◌, str_eq, if◌then◌else◌,
}
use whatsapp_api.Base.Int.{pos, negsuc}
use whatsapp_api.Base.Text.{strip, isdigit, codes, number_from}
use whatsapp_api.Base.Exec.{Result, ok, err, Action, ◌>>=◌, ◌>>◌, pure, gets, lift, modify}
use whatsapp_api.Errors.{type_error, value_error}
use whatsapp_api.Json.{Json, bool, num, str, arr, obj, get, truthy, or_else, first}
use whatsapp_api.Models.{
  Campaign, CampaignRecipient, CampaignRecipientStatus, CampaignStatus, Message, MessageStatus,
  recipient_eq, is_running,
}
use whatsapp_api.Store.{
  Db, one_or_none, get_campaign, put_campaign, get_recipient, put_recipient, put_message,
}

-- `_STATUS_MAP.get(raw)`
unfoldable pub status_of : String → Option MessageStatus
status_of s =
    if str_eq s "sent"
    then some MessageStatus.sent
    else if str_eq s "delivered"
    then some MessageStatus.delivered
    else if str_eq s "read"
    then some MessageStatus.read
    else if str_eq s "failed"
    then some MessageStatus.failed
    else if str_eq s "deleted"
    then some MessageStatus.failed
    else none

-- A dict's `get` with any key: a list or a dict cannot be hashed.
unfoldable pub status_of_json : Json → Result (Option MessageStatus)
status_of_json (str s) = ok (status_of s)
status_of_json (arr _) = err type_error
status_of_json (obj _) = err type_error
status_of_json _ = ok none

-- The `mapping` of `_propagate_campaign_status`.
unfoldable pub recipient_status : MessageStatus → Option CampaignRecipientStatus
recipient_status MessageStatus.queued = none
recipient_status MessageStatus.sent = some CampaignRecipientStatus.sent
recipient_status MessageStatus.delivered = some CampaignRecipientStatus.delivered
recipient_status MessageStatus.read = some CampaignRecipientStatus.read
recipient_status MessageStatus.failed = some CampaignRecipientStatus.failed

-- The largest time that `datetime.fromtimestamp` takes: the end of the year 9999.
abbrev max_timestamp : ℕ
max_timestamp = 253402300799

abbrev in_range : ℕ → Result ℕ
in_range n = if ltb max_timestamp n then err value_error else ok n

-- `datetime.fromtimestamp(int(ts))`, for texts and numbers. A time before 1970 is not modelled.
unfoldable pub timestamp : Json → Result ℕ
timestamp (num (pos n)) = in_range n
timestamp (num (negsuc _)) = err value_error
timestamp (str s) =
    if isdigit (strip s) then in_range (number_from 0 (codes (strip s))) else err value_error
timestamp (bool true) = ok 1
timestamp (bool false) = ok 0
timestamp _ = err type_error

abbrev is_text : String → Json → Bool
is_text s (str t) = str_eq t s
is_text s _ = false

-- `select(Message).where(Message.wa_message_id == wa_id)`; the driver takes a text only.
unfoldable pub find_by_wa_id : Json → Action Db (Option Message)
find_by_wa_id (str wa_id) s =
    (one_or_none (select (λ (m : Message). is_text wa_id m.wa_message_id) s.messages), s)
find_by_wa_id _ s = (err type_error, s)

-- The counters of a campaign when a recipient's status changed to one that a message reported.
unfoldable pub counted : MessageStatus → Campaign → Campaign
counted MessageStatus.delivered c = record c { delivered_count = c.delivered_count + 1 }
counted MessageStatus.read c = record c { read_count = c.read_count + 1 }
counted MessageStatus.failed c = record c { failed_count = c.failed_count + 1 }
counted _ c = c

-- `total - (delivered + read + failed) <= 0`
abbrev pub none_outstanding : Campaign → Bool
none_outstanding c = leb c.total_recipients (c.delivered_count + c.read_count + c.failed_count)

unfoldable pub completed : ℕ → Campaign → Campaign
completed now c =
    if none_outstanding c && is_running c.status
    then record c { status = CampaignStatus.completed; completed_at = some now }
    else c

-- The roll-up to the campaign.
unfoldable pub rolled_up :
    ℕ → CampaignRecipientStatus → CampaignRecipientStatus → MessageStatus → Campaign → Campaign
rolled_up now old new reported c =
    completed now (if recipient_eq old new then c else counted reported c)

-- The recipient with its new status.
abbrev pub advanced :
    ℕ → CampaignRecipientStatus → MessageStatus → CampaignRecipient → CampaignRecipient
advanced now new MessageStatus.failed r = record r { status = new; completed_at = some now }
advanced now new _ r = record r { status = new }

abbrev pub roll_up :
    CampaignRecipientStatus → CampaignRecipientStatus → MessageStatus → Option Campaign → Db → Db
roll_up old new reported none s = s
roll_up old new reported (some c) s = put_campaign (rolled_up s.now old new reported c) s

abbrev pub propagate_to :
    Option CampaignRecipient → Option CampaignRecipientStatus → MessageStatus → Db → Db
propagate_to none new reported s = s
propagate_to (some r) none reported s = s
propagate_to (some r) (some new) reported s =
    roll_up r.status new reported (get_campaign r.campaign_id s)
      (put_recipient (advanced s.now new reported r) s)

unfoldable pub propagate_campaign_status : ℕ → MessageStatus → Db → Db
propagate_campaign_status recipient_id reported s =
    propagate_to (get_recipient recipient_id s) (recipient_status reported) reported s

-- `new if old is None else old`
abbrev first_time : Option ℕ → ℕ → Option ℕ
first_time none when = some when
first_time (some t) when = some t

-- The status and the time of its first report.
unfoldable pub stamped : MessageStatus → ℕ → Message → Message
stamped MessageStatus.queued when m = record m { status = MessageStatus.queued }
stamped MessageStatus.sent when m = record m {
  status = MessageStatus.sent;
  sent_at = first_time m.sent_at when;
}
stamped MessageStatus.delivered when m = record m {
  status = MessageStatus.delivered;
  delivered_at = first_time m.delivered_at when;
}
stamped MessageStatus.read when m = record m {
  status = MessageStatus.read;
  read_at = first_time m.read_at when;
}
stamped MessageStatus.failed when m = record m {
  status = MessageStatus.failed;
  failed_at = first_time m.failed_at when;
}

-- The error of a first failure, read from `errors[0]`, which is `found`.
unfoldable pub record_error : Json → Message → Action Db Message
record_error found m = do
  code ← lift (get found "code")
  modify (put_message (record m { error_code = code }))
  title ← lift (get found "title")
  message ← lift (get found "message")
  modify (put_message (record m { error_code = code; error_message = or_else title message }))
  pure (record m { error_code = code; error_message = or_else title message })

unfoldable pub read_errors : Json → Message → Action Db Message
read_errors errors m =
    let recorded = lift (first errors) >>= (λ found. record_error found m) in
    if truthy errors then recorded else pure m

-- `new_status == failed and message.failed_at is None`
abbrev pub is_first_failure : MessageStatus → Message → Bool
is_first_failure MessageStatus.failed m = elim m.failed_at [ none ↦ true | some _ ↦ false ]
is_first_failure _ m = false

unfoldable pub failure_step : Json → MessageStatus → Message → Message → Action Db Message
failure_step status new old m =
    let reading = lift (get status "errors") >>= (λ errors. read_errors errors m) in
    if is_first_failure new old then reading else pure m

unfoldable pub priced : Json → Message → Db → Db
priced pricing m s =
    if truthy pricing then put_message (record m { meta_pricing = pricing }) s else s

abbrev pub propagate : Option ℕ → MessageStatus → Db → Db
propagate none new s = s
propagate (some recipient_id) new s = propagate_campaign_status recipient_id new s

-- `datetime.fromtimestamp(int(ts)) if ts else datetime.now()`
unfoldable pub time_of : Json → Action Db ℕ
time_of ts = if truthy ts then lift (timestamp ts) else gets (λ (s : Db). s.now)

-- The update of the message that was found.
unfoldable pub apply_to : Json → MessageStatus → Message → Action Db (Unit {0})
apply_to status new message = do
  ts ← lift (get status "timestamp")
  when ← time_of ts
  modify (put_message (stamped new when message))
  m ← failure_step status new message (stamped new when message)
  pricing ← lift (get status "pricing")
  modify (priced pricing m)
  modify (propagate message.campaign_recipient_id new)

abbrev pub apply_found : Json → MessageStatus → Option Message → Action Db (Unit {0})
apply_found status new none = pure tt
apply_found status new (some message) = apply_to status new message

unfoldable pub apply_known : Json → Json → Option MessageStatus → Action Db (Unit {0})
apply_known status wa_id none = pure tt
apply_known status wa_id (some new) = find_by_wa_id wa_id >>= apply_found status new

unfoldable pub apply_status_update : Json → Action Db (Unit {0})
apply_status_update status = do
  wa_id ← lift (get status "id")
  raw ← lift (get status "status")
  let known = lift (status_of_json raw) >>= apply_known status wa_id
  if not (truthy wa_id) || not (truthy raw) then pure tt else known
