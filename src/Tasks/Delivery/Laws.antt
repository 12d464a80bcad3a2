-- ===== src/Tasks/Delivery/Laws.antt =====
-- What a delivery of the task `send_recipient` leaves behind.
use whatsapp_api.Base.{
  ℕ, ◌+◌, ◌≡◌, refl, sym, ap, ◌∙◌, subst, true, false, Option, none, some, String, [], ◌∷◌, ◌++◌,
}
use whatsapp_api.Base.Exec.{ok, err}
use whatsapp_api.Errors.{Error, Failure, prodaxis, Kind, plain, rate_limit_exceeded}
use whatsapp_api.Json.{Json, str, arr, obj, field, end, from_list}
use whatsapp_api.Models.{
  Tenant, Campaign, CampaignRecipient, CampaignRecipientStatus, Message, MessageStatus,
  MessageDirection, MessageType, Settings,
}
use whatsapp_api.Store.{
  Db, get_recipient, get_campaign, get_tenant, put_recipient, flush, find_by, replace,
}
use whatsapp_api.Store.Counting.{replace-snoc}
use whatsapp_api.Store.Laws.{IsClean, flush_clean, find_by-id, replace-replace_last}
use whatsapp_api.Tenants.{Fernet, get, is_live, increment_usage, used}
use whatsapp_api.Client.{Http, send_template as post_template}
use whatsapp_api.RateLimiter.{Redis, RateLimiter, acquire}
use whatsapp_api.Messages.{
  World, client_for, limited, store_queued, response_id, failed_with, sent_as,
}
use whatsapp_api.Messages.Laws.{
  with_row, with_row-IsClean, store_queued-eq, all_storable-replace, used-IsClean,
}
use whatsapp_api.Store.Sessions.{session_scope}
use whatsapp_api.Tasks.Delivery.{
  started, recipient_sent, is_unsent, task_row, write_failed, write_sent, mark_started,
  body_components, refusal, settle_answer, settle_error, settle_failed, settle_sent, send_unsent,
  send_marked, call_meta, send_for, send_found, send_recipient,
}

put-IsClean : (r : CampaignRecipient) (s : Db) → IsClean s → IsClean (put_recipient r s)
put-IsClean r s clean = record {
  nothing_pending = clean.nothing_pending;
  storable = clean.storable;
}

module _ (redis : Redis) (http : Http) (fernet : Option Fernet) (limiter : RateLimiter)
    (settings : Settings) (describe : Error → String) (recipient_id : ℕ) (w : World redis http)
    (r : CampaignRecipient) (c : Campaign) (t : Tenant)
    (recipient_found : get_recipient recipient_id w.db ≡ some r)
    (campaign_found : get_campaign r.campaign_id w.db ≡ some c)
    (tenant_found : get_tenant c.tenant_id w.db ≡ some t) (live : is_live t ≡ true)
    (unsent : is_unsent r.status ≡ true) (clean : IsClean w.db) where
  abbrev attempted : CampaignRecipient
  attempted = started w.db.now r

  abbrev attempted_db : Db
  attempted_db = put_recipient attempted w.db

  abbrev row : Message
  row = task_row t c attempted attempted_db

  abbrev stored_db : Db
  stored_db = with_row row attempted_db

  attempted-IsClean : IsClean attempted_db
  attempted-IsClean = put-IsClean attempted w.db clean

  stored-IsClean : IsClean stored_db
  stored-IsClean = with_row-IsClean row attempted_db attempted-IsClean refl

  mark-eq : mark_started r w.db ≡ (ok attempted, attempted_db)
  unfolding mark_started
  mark-eq = rw (flush_clean attempted_db attempted-IsClean)

  get-eq : get c.tenant_id attempted_db ≡ (ok t, attempted_db)
  unfolding get
  get-eq = rw (tenant_found, live)

  store-eq : store_queued (task_row t c attempted) attempted_db ≡ (ok row, stored_db)
  store-eq = store_queued-eq (task_row t c attempted) attempted_db attempted-IsClean refl

  abbrev failed_db : String → Db
  failed_db text = write_failed text c attempted row stored_db

  abbrev sent_db : String → Db
  sent_db wa = write_sent (str wa) c attempted row stored_db

  failed-IsClean : (text : String) → IsClean (failed_db text)
  failed-IsClean text = record {
    nothing_pending = refl;
    storable =
        all_storable-replace (failed_with text stored_db.now row) stored_db.messages
          stored-IsClean.storable refl;
  }

  sent-IsClean : (wa : String) → IsClean (sent_db wa)
  sent-IsClean wa = record {
    nothing_pending = refl;
    storable =
        all_storable-replace (sent_as (str wa) stored_db.now row) stored_db.messages
          stored-IsClean.storable refl;
  }

  abbrev pub used_db : String → Db
  used_db wa = used (get_tenant t.id (sent_db wa)) 1 (sent_db wa)

  flush_failed : (text : String) → flush (failed_db text) ≡ (ok tt, failed_db text)
  flush_failed text = flush_clean (failed_db text) (failed-IsClean text)

  flush_used : (wa : String) → flush (used_db wa) ≡ (ok tt, used_db wa)
  flush_used wa =
      flush_clean (used_db wa)
        (used-IsClean (get_tenant t.id (sent_db wa)) 1 (sent_db wa) (sent-IsClean wa))

  failed-eq :
      (text : String) → settle_failed text c attempted row stored_db ≡ (ok "failed", failed_db text)
  unfolding settle_failed
  failed-eq text = rw (flush_failed text)

  sent-eq :
      (answer : Json) (wa : String)
      → ((s : Db) → response_id answer s ≡ (ok (str wa), s))
      → settle_sent t c attempted row answer stored_db ≡ (ok "sent", used_db wa)
  unfolding settle_sent increment_usage
  sent-eq answer wa named = rw (named stored_db, flush_used wa) (rw (flush_used wa))

  -- A delivery that the limiter refuses raises, for Celery to retry, and leaves the database as it
  -- was, the attempt's count included.
  send_recipient_limited :
      (k : redis.State)
      → acquire redis limiter t.phone_number_id r.phone w.counters ≡ (false, k)
      → send_recipient redis http fernet limiter settings describe recipient_id w
        ≡ (err (plain rate_limit_exceeded), record w { counters = k })
  unfolding send_recipient session_scope send_found send_for send_unsent send_marked call_meta
      limited
  send_recipient_limited k refused =
      rw (recipient_found, campaign_found, unsent, mark-eq, get-eq, refused)

  -- A delivery that the limiter grants and Meta refuses as invalid returns "failed": the message
  -- and the recipient are committed as failed with the error's text, and the campaign counts one
  -- failure more. The campaign's status plays no part, and the tenant's usage does not change.
  send_recipient_refused :
      (f : Failure) (k : redis.State) (h : http.State)
      → acquire redis limiter t.phone_number_id r.phone w.counters ≡ (true, k)
      → post_template http
          (client_for redis http fernet limiter settings describe t)
          r.phone
          c.template_name
          c.template_language
          (body_components r.variables)
          w.remote
        ≡ (err (prodaxis f), h)
      → f.kind ≡ Kind.meta_invalid_request
      → send_recipient redis http fernet limiter settings describe recipient_id w
        ≡ (ok "failed", record { db = failed_db f.message; counters = k; remote = h })
  unfolding send_recipient session_scope send_found send_for send_unsent send_marked call_meta
      limited settle_answer settle_error refusal
  send_recipient_refused f k h granted refused invalid = rw (
    recipient_found,
    campaign_found,
    unsent,
    mark-eq,
    get-eq,
    granted,
    store-eq,
    refused,
    invalid,
    failed-eq f.message,
    flush_failed f.message,
  )

  -- A delivery that the limiter grants and that fails with any other error raises it, and leaves
  -- the database as it was: Meta was called, and no row tells of it.
  pub send_recipient_failed :
      (e : Error) (k : redis.State) (h : http.State)
      → acquire redis limiter t.phone_number_id r.phone w.counters ≡ (true, k)
      → post_template http
          (client_for redis http fernet limiter settings describe t)
          r.phone
          c.template_name
          c.template_language
          (body_components r.variables)
          w.remote
        ≡ (err e, h)
      → refusal e ≡ none
      → send_recipient redis http fernet limiter settings describe recipient_id w
        ≡ (err e, record { db = w.db; counters = k; remote = h })
  unfolding send_recipient session_scope send_found send_for send_unsent send_marked call_meta
      limited settle_answer settle_error
  send_recipient_failed e k h granted failed other =
      rw
        (recipient_found, campaign_found, unsent, mark-eq, get-eq, granted, store-eq, failed, other)

  -- The same that Meta accepts, with the database in the code's own terms.
  pub send_recipient_sent :
      (answer : Json) (wa : String) (k : redis.State) (h : http.State)
      → acquire redis limiter t.phone_number_id r.phone w.counters ≡ (true, k)
      → post_template http
          (client_for redis http fernet limiter settings describe t)
          r.phone
          c.template_name
          c.template_language
          (body_components r.variables)
          w.remote
        ≡ (ok answer, h)
      → ((s : Db) → response_id answer s ≡ (ok (str wa), s))
      → send_recipient redis http fernet limiter settings describe recipient_id w
        ≡ (ok "sent", record { db = used_db wa; counters = k; remote = h })
  unfolding send_recipient session_scope send_found send_for send_unsent send_marked call_meta
      limited settle_answer
  send_recipient_sent answer wa k h granted accepted named = rw (
    recipient_found,
    campaign_found,
    unsent,
    mark-eq,
    get-eq,
    granted,
    store-eq,
    accepted,
    sent-eq answer wa named,
    flush_used wa,
  )

  -- The row of a template that Meta accepted for the recipient.
  abbrev pub accepted_row : String → Message
  accepted_row wa = record {
    id = w.db.next_id;
    created_at = w.db.now;
    tenant_id = t.id;
    direction = MessageDirection.outbound;
    wa_message_id = str wa;
    recipient_phone = str r.phone;
    sender_phone = str t.phone_number_id;
    message_type = MessageType.template;
    content = obj (
        field "template_name" (str c.template_name) (
          field "language_code" (str c.template_language)
            (field "components" (arr (from_list (body_components r.variables))) end)));
    template_name = some c.template_name;
    template_language = some c.template_language;
    status = MessageStatus.sent;
    error_code = Json.null;
    error_message = Json.null;
    meta_pricing = Json.null;
    sent_at = some w.db.now;
    delivered_at = none;
    read_at = none;
    failed_at = none;
    campaign_recipient_id = some r.id;
  }

  abbrev pub accepted_db : String → Db
  accepted_db wa = record w.db {
    messages = w.db.messages ++ (accepted_row wa ∷ []);
    recipients =
        replace (λ (x : CampaignRecipient). x.id)
          (record r {
            status = CampaignRecipientStatus.sent;
            wa_message_id = str wa;
            attempt_count = r.attempt_count + 1;
            attempted_at = some w.db.now;
          })
          w.db.recipients;
    campaigns =
        replace (λ (x : Campaign). x.id) (record c { sent_count = c.sent_count + 1 })
          w.db.campaigns;
    tenants =
        replace (λ (x : Tenant). x.id)
          (record t { messages_sent_this_month = t.messages_sent_this_month + 1 }) w.db.tenants;
    next_id = w.db.next_id + 1;
    pending = [];
  }

  used-eq :
      (wa : String)
      → find_by (λ (m : Message). m.id) w.db.next_id w.db.messages ≡ none
      → used_db wa ≡ accepted_db wa
  used-eq wa fresh =
      let owner : get_tenant t.id w.db ≡ some t =
        subst (λ k. get_tenant k w.db ≡ some t)
          (sym (find_by-id (λ (x : Tenant). x.id) c.tenant_id t w.db.tenants tenant_found))
          tenant_found in
      rw
        (
          owner,
          replace-snoc (λ (m : Message). m.id) (accepted_row wa) row w.db.messages refl fresh,
          replace-replace_last (λ (x : CampaignRecipient). x.id) (recipient_sent (str wa) attempted)
              attempted w.db.recipients refl,
        )
        refl

  -- A delivery that the limiter grants and Meta accepts with a message id returns "sent" and
  -- commits: one new message, sent to the recipient with the id; the recipient as sent, with the
  -- id, the time and one attempt more; one more send in the campaign; one more message in the
  -- tenant's usage. Nothing else changes. The campaign's status and the tenant's quota play no
  -- part. No message has the new id before.
  pub send_recipient_accepted :
      (answer : Json) (wa : String) (k : redis.State) (h : http.State)
      → acquire redis limiter t.phone_number_id r.phone w.counters ≡ (true, k)
      → post_template http
          (client_for redis http fernet limiter settings describe t)
          r.phone
          c.template_name
          c.template_language
          (body_components r.variables)
          w.remote
        ≡ (ok answer, h)
      → ((s : Db) → response_id answer s ≡ (ok (str wa), s))
      → find_by (λ (m : Message). m.id) w.db.next_id w.db.messages ≡ none
      → send_recipient redis http fernet limiter settings describe recipient_id w
        ≡ (ok "sent", record { db = accepted_db wa; counters = k; remote = h })
  send_recipient_accepted answer wa k h granted accepted named fresh =
      send_recipient_sent answer wa k h granted accepted named
      ∙ ap (λ (v : Db). (ok "sent", record { db = v; counters = k; remote = h })) (used-eq wa fresh)
