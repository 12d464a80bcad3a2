-- ===== src/Tasks/Delivery.antt =====
-- tasks/send_message_task.py: `send_recipient`.
pub mod Laws
pub mod Outcome
pub mod Runs
pub mod Order
pub mod Once
pub mod Tally
pub mod Lasting
use whatsapp_api.Base.{
  ℕ, ◌+◌, Bool, true, false, String, ◌<>◌, Option, none, some, List, [], ◌∷◌, map, leb,
  if◌then◌else◌,
}
use whatsapp_api.Base.Text.{codes, last_part, all_digits, number_from}
use whatsapp_api.Base.Exec.{Result, ok, err, Action, ◌>>=◌, ◌>>◌, pure, raise, gets, modify, within}
use whatsapp_api.Errors.{Error, prodaxis, Kind}
use whatsapp_api.Json.{Json, arr, obj, str, field, end, from_list, to_str}
use whatsapp_api.Models.{
  Tenant, Campaign, CampaignRecipient, CampaignRecipientStatus, Message, MessageType, Settings,
  recipient_value,
}
use whatsapp_api.Store.{
  Db, get_recipient, get_campaign, put_recipient, put_campaign, put_message, flush,
}
use whatsapp_api.Tenants.{Fernet, get, increment_usage}
use whatsapp_api.Client.{Http, send_template as post_template}
use whatsapp_api.RateLimiter.{Redis, RateLimiter}
use whatsapp_api.Messages.{
  World, client_for, limited, attempt, outbound, failed_with, sent_as, response_id, store_queued,
}
use whatsapp_api.Messages.Components.{body_component}
use whatsapp_api.Store.Sessions.{session_scope}

-- `int(...) if ....isdigit() else 999`, of what stands after the last underscore of the name.
abbrev number_or_last : List ℕ → ℕ
number_or_last [] = 999
number_or_last (c ∷ cs) = if all_digits (c ∷ cs) then number_from 0 (c ∷ cs) else 999

unfoldable pub position : String × Json → ℕ
position (k, v) = number_or_last (last_part (codes k) (codes k))

-- `sorted(...)` by that key, which is stable.
abbrev pub insert_variable : String × Json → List (String × Json) → List (String × Json)
insert_variable v [] = v ∷ []
insert_variable v (x ∷ xs) =
    let rest = insert_variable v xs in
    if leb (position v) (position x) then v ∷ x ∷ xs else x ∷ rest

abbrev pub ordered : List (String × Json) → List (String × Json)
ordered [] = []
ordered (v ∷ vs) = insert_variable v (ordered vs)

abbrev shown : String × Json → String
shown (k, v) = to_str v

unfoldable pub body_components : List (String × Json) → List Json
body_components variables = body_component (some (map shown (ordered variables)))

-- `queued` or `sending`
abbrev pub is_unsent : CampaignRecipientStatus → Bool
is_unsent CampaignRecipientStatus.queued = true
is_unsent CampaignRecipientStatus.sending = true
is_unsent _ = false

abbrev pub started : ℕ → CampaignRecipient → CampaignRecipient
started now r = record r {
  status = CampaignRecipientStatus.sending;
  attempt_count = r.attempt_count + 1;
  attempted_at = some now;
}

-- `except MetaInvalidRequestError as exc`, with `exc.message`.
unfoldable pub refusal : Error → Option String
refusal (prodaxis f) = elim f.kind [ Kind.meta_invalid_request ↦ some f.message | _ ↦ none ]
refusal _ = none

abbrev pub recipient_failed : String → ℕ → CampaignRecipient → CampaignRecipient
recipient_failed text now r = record r {
  status = CampaignRecipientStatus.failed;
  error_message = some text;
  completed_at = some now;
}

abbrev pub one_failed : Campaign → Campaign
one_failed c = record c { failed_count = c.failed_count + 1 }

abbrev pub recipient_sent : Json → CampaignRecipient → CampaignRecipient
recipient_sent wa_id r = record r { status = CampaignRecipientStatus.sent; wa_message_id = wa_id }

abbrev pub one_sent : Campaign → Campaign
one_sent c = record c { sent_count = c.sent_count + 1 }

abbrev pub task_row : Tenant → Campaign → CampaignRecipient → Db → Message
task_row t c r s =
    record (outbound t r.phone MessageType.template
      (obj (
        field "template_name" (str c.template_name) (
          field "language_code" (str c.template_language)
            (field "components" (arr (from_list (body_components r.variables))) end))))
      (some c.template_name) (some c.template_language) s) { campaign_recipient_id = some r.id }

-- The two outcomes that the task records.
abbrev pub write_failed : String → Campaign → CampaignRecipient → Message → Db → Db
write_failed text c r m s =
    put_campaign (one_failed c)
      (put_recipient (recipient_failed text s.now r) (put_message (failed_with text s.now m) s))

abbrev pub write_sent : Json → Campaign → CampaignRecipient → Message → Db → Db
write_sent wa_id c r m s =
    put_campaign (one_sent c)
      (put_recipient (recipient_sent wa_id r) (put_message (sent_as wa_id s.now m) s))

unfoldable pub settle_failed : String → Campaign → CampaignRecipient → Message → Action Db String
settle_failed text c r m = do modify (write_failed text c r m); flush; pure "failed"

unfoldable pub settle_sent :
    Tenant → Campaign → CampaignRecipient → Message → Json → Action Db String
settle_sent t c r m response = do
  wa_id ← response_id response
  modify (write_sent wa_id c r m)
  increment_usage t.id 1
  flush
  pure "sent"

unfoldable pub settle_error :
    Option String → Error → Campaign → CampaignRecipient → Message → Action Db String
settle_error none e c r m = raise e
settle_error (some text) e c r m = settle_failed text c r m

unfoldable pub settle_answer :
    Tenant → Campaign → CampaignRecipient → Message → Result Json → Action Db String
settle_answer t c r m (ok response) = settle_sent t c r m response
settle_answer t c r m (err e) = settle_error (refusal e) e c r m

-- The row as it is written before the call.
unfoldable pub mark_started : CampaignRecipient → Action Db CampaignRecipient
mark_started r = do
  now ← gets (λ (s : Db). s.now)
  modify (put_recipient (started now r))
  flush
  pure (started now r)

module _ (redis : Redis) (http : Http) (fernet : Option Fernet) (limiter : RateLimiter)
    (settings : Settings) (describe : Error → String) where
  abbrev pub on_db : {A : Type 0} → Action Db A → Action (World redis http) A
  on_db m =
      within (λ (w : World redis http). w.db) (λ d (w : World redis http). record w { db = d }) m

  -- The call, and what the task records of its answer.
  unfoldable pub call_meta :
      Tenant → Campaign → CampaignRecipient → Message → Action (World redis http) String
  call_meta t c q m = do
    answer ← attempt redis http fernet limiter settings describe (
        post_template http (client_for redis http fernet limiter settings describe t) q.phone
          c.template_name c.template_language (body_components q.variables))
    on_db (settle_answer t c q m answer)

  unfoldable pub send_marked : CampaignRecipient → Campaign → Action (World redis http) String
  send_marked q c = do
    t ← on_db (get c.tenant_id)
    limited redis http fernet limiter settings describe t q.phone
    m ← on_db (store_queued (task_row t c q))
    call_meta t c q m

  unfoldable pub send_unsent : CampaignRecipient → Campaign → Action (World redis http) String
  send_unsent r c = do q ← on_db (mark_started r); send_marked q c

  unfoldable pub send_for : CampaignRecipient → Option Campaign → Action (World redis http) String
  send_for r none = pure "missing_campaign"
  send_for r (some c) =
      let send = send_unsent r c in
      if is_unsent r.status then send else pure ("skipped:" <> recipient_value r.status)

  unfoldable pub send_found : Option CampaignRecipient → Action (World redis http) String
  send_found none w = (ok "missing", w)
  send_found (some r) w = send_for r (get_campaign r.campaign_id w.db) w

  -- `_send_recipient`
  unfoldable pub send_recipient : ℕ → Action (World redis http) String
  send_recipient recipient_id =
      session_scope (λ (w : World redis http). w.db)
        (λ d (w : World redis http). record w { db = d })
        (λ w. send_found (get_recipient recipient_id w.db) w)
