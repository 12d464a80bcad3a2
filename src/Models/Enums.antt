-- ===== src/Models/Enums.antt =====
-- The enumerations of src/models, with `.value`, the call on a value, and equality.
use whatsapp_api.Base.{
  ℕ, Bool, true, false, String, Option, none, some, ◌==◌, str_eq, if◌then◌else◌,
}

pub data CampaignStatus : Type 0 where
  draft scheduled running paused completed failed cancelled : CampaignStatus

pub data CampaignRecipientStatus : Type 0 where
  queued sending sent delivered read failed skipped : CampaignRecipientStatus

pub data MessageDirection : Type 0 where
  outbound inbound : MessageDirection

pub data MessageType : Type 0 where
  text template image document audio video interactive location contacts reaction : MessageType
  sticker unsupported : MessageType

pub data MessageStatus : Type 0 where
  queued sent delivered read failed : MessageStatus

pub data TemplateCategory : Type 0 where
  utility marketing authentication : TemplateCategory

pub data TemplateStatus : Type 0 where
  pending approved rejected paused disabled : TemplateStatus

-- `status.value`
unfoldable pub campaign_value : CampaignStatus → String
campaign_value CampaignStatus.draft = "draft"
campaign_value CampaignStatus.scheduled = "scheduled"
campaign_value CampaignStatus.running = "running"
campaign_value CampaignStatus.paused = "paused"
campaign_value CampaignStatus.completed = "completed"
campaign_value CampaignStatus.failed = "failed"
campaign_value CampaignStatus.cancelled = "cancelled"

unfoldable pub recipient_value : CampaignRecipientStatus → String
recipient_value CampaignRecipientStatus.queued = "queued"
recipient_value CampaignRecipientStatus.sending = "sending"
recipient_value CampaignRecipientStatus.sent = "sent"
recipient_value CampaignRecipientStatus.delivered = "delivered"
recipient_value CampaignRecipientStatus.read = "read"
recipient_value CampaignRecipientStatus.failed = "failed"
recipient_value CampaignRecipientStatus.skipped = "skipped"

unfoldable pub template_value : TemplateStatus → String
template_value TemplateStatus.pending = "pending"
template_value TemplateStatus.approved = "approved"
template_value TemplateStatus.rejected = "rejected"
template_value TemplateStatus.paused = "paused"
template_value TemplateStatus.disabled = "disabled"

-- `MessageType(raw)`, with no value for its `ValueError`.
unfoldable pub message_type : String → Option MessageType
message_type s =
    if str_eq s "text"
    then some MessageType.text
    else if str_eq s "template"
    then some MessageType.template
    else if str_eq s "image"
    then some MessageType.image
    else if str_eq s "document"
    then some MessageType.document
    else if str_eq s "audio"
    then some MessageType.audio
    else if str_eq s "video"
    then some MessageType.video
    else if str_eq s "interactive"
    then some MessageType.interactive
    else if str_eq s "location"
    then some MessageType.location
    else if str_eq s "contacts"
    then some MessageType.contacts
    else if str_eq s "reaction"
    then some MessageType.reaction
    else if str_eq s "sticker"
    then some MessageType.sticker
    else if str_eq s "unsupported"
    then some MessageType.unsupported
    else none

recipient_index : CampaignRecipientStatus → ℕ
recipient_index CampaignRecipientStatus.queued = 0
recipient_index CampaignRecipientStatus.sending = 1
recipient_index CampaignRecipientStatus.sent = 2
recipient_index CampaignRecipientStatus.delivered = 3
recipient_index CampaignRecipientStatus.read = 4
recipient_index CampaignRecipientStatus.failed = 5
recipient_index CampaignRecipientStatus.skipped = 6

-- `a == b` on recipient statuses.
unfoldable pub recipient_eq : CampaignRecipientStatus → CampaignRecipientStatus → Bool
unfolding recipient_index
recipient_eq a b = recipient_index a == recipient_index b

template_index : TemplateStatus → ℕ
template_index TemplateStatus.pending = 0
template_index TemplateStatus.approved = 1
template_index TemplateStatus.rejected = 2
template_index TemplateStatus.paused = 3
template_index TemplateStatus.disabled = 4

unfoldable pub template_eq : TemplateStatus → TemplateStatus → Bool
unfolding template_index
template_eq a b = template_index a == template_index b

abbrev pub message_index : MessageStatus → ℕ
message_index MessageStatus.queued = 0
message_index MessageStatus.sent = 1
message_index MessageStatus.delivered = 2
message_index MessageStatus.read = 3
message_index MessageStatus.failed = 4

unfoldable pub message_eq : MessageStatus → MessageStatus → Bool
message_eq a b = message_index a == message_index b

-- `CampaignStatus.running`, as a test.
abbrev pub is_running : CampaignStatus → Bool
is_running CampaignStatus.running = true
is_running _ = false
