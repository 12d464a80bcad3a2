-- ===== src/Store.antt =====
-- The database session, as the services see it: the tables, and the rows added and not yet flushed
-- (`autoflush=False`, so a query does not see those). A fresh id stands for `uuid.uuid4()`.
-- `now()` of the server and of the process is one clock, read once in each call.
pub mod Laws
pub mod Counting
pub mod Sessions
pub mod Kept
pub mod Rows
use whatsapp_api.Base.{
  ℕ, ◌+◌, ◌≡◌, Bool, true, false, Option, none, some, List, [], ◌∷◌, ◌++◌, find, ◌==◌, ◌&&◌,
  if◌then◌else◌,
}
use whatsapp_api.Base.Exec.{Result, ok, err, Action}
use whatsapp_api.Errors.{multiple_results_found, type_error}
use whatsapp_api.Json.{Json, null, num, str}
use whatsapp_api.Models.{
  Tenant, Template, Campaign, CampaignRecipient, Message, WebhookEvent, ApiKey,
}

pub record Db : Type 0 where
  pub now : ℕ
  pub next_id : ℕ
  pub tenants : List Tenant
  pub templates : List Template
  pub campaigns : List Campaign
  pub recipients : List CampaignRecipient
  pub messages : List Message
  pub pending : List Message
  pub events : List WebhookEvent
  pub api_keys : List ApiKey

module _ {A : Type 0} (id : A → ℕ) where
  -- `session.get(Model, id)`
  abbrev pub find_by : ℕ → List A → Option A
  find_by k = find (λ r. id r == k)

  -- A row whose attributes were assigned, written back under its id.
  abbrev pub replace : A → List A → List A
  replace r [] = []
  replace r (x ∷ xs) = (if id x == id r then r else x) ∷ replace r xs

-- `result.scalar_one_or_none()`
abbrev pub one_or_none : {A : Type 0} → List A → Result (Option A)
one_or_none [] = ok none
one_or_none (r ∷ []) = ok (some r)
one_or_none (_ ∷ _ ∷ _) = err multiple_results_found

abbrev pub get_tenant : ℕ → Db → Option Tenant
get_tenant k s = find_by (λ (r : Tenant). r.id) k s.tenants

abbrev pub put_tenant : Tenant → Db → Db
put_tenant r s = record s { tenants = replace (λ (x : Tenant). x.id) r s.tenants }

abbrev pub get_campaign : ℕ → Db → Option Campaign
get_campaign k s = find_by (λ (r : Campaign). r.id) k s.campaigns

abbrev pub put_campaign : Campaign → Db → Db
put_campaign r s = record s { campaigns = replace (λ (x : Campaign). x.id) r s.campaigns }

abbrev pub get_recipient : ℕ → Db → Option CampaignRecipient
get_recipient k s = find_by (λ (r : CampaignRecipient). r.id) k s.recipients

abbrev pub put_recipient : CampaignRecipient → Db → Db
put_recipient r s = record s {
  recipients = replace (λ (x : CampaignRecipient). x.id) r s.recipients;
}

abbrev pub get_message : ℕ → Db → Option Message
get_message k s = find_by (λ (r : Message). r.id) k s.messages

abbrev pub put_message : Message → Db → Db
put_message r s = record s { messages = replace (λ (x : Message). x.id) r s.messages }

abbrev pub put_template : Template → Db → Db
put_template r s = record s { templates = replace (λ (x : Template). x.id) r s.templates }

abbrev pub get_event : ℕ → Db → Option WebhookEvent
get_event k s = find_by (λ (r : WebhookEvent). r.id) k s.events

abbrev pub put_event : WebhookEvent → Db → Db
put_event r s = record s { events = replace (λ (x : WebhookEvent). x.id) r s.events }

abbrev pub put_api_key : ApiKey → Db → Db
put_api_key r s = record s { api_keys = replace (λ (x : ApiKey). x.id) r s.api_keys }

-- A value that fits a nullable text column, a text column, a nullable integer column.
abbrev pub nullable_text : Json → Bool
nullable_text null = true
nullable_text (str _) = true
nullable_text _ = false

abbrev a_text : Json → Bool
a_text (str _) = true
a_text _ = false

abbrev nullable_number : Json → Bool
nullable_number null = true
nullable_number (num _) = true
nullable_number _ = false

-- What the driver accepts of a row of `messages`.
abbrev pub storable : Message → Bool
storable m =
    nullable_text m.wa_message_id
    && a_text m.recipient_phone
    && a_text m.sender_phone
    && nullable_number m.error_code
    && nullable_text m.error_message

abbrev pub all_storable : List Message → Bool
all_storable [] = true
all_storable (m ∷ ms) = storable m && all_storable ms

-- `session.flush()`, where only rows of `messages` may be refused.
unfoldable pub flush : Action Db (Unit {0})
flush s =
    if all_storable s.messages && all_storable s.pending
    then (ok tt, record s { messages = s.messages ++ s.pending; pending = [] })
    else (err type_error, s)
