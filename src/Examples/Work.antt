-- ===== src/Examples/Work.antt =====
-- Examples on the tasks: a recipient that waits in a campaign that was cancelled.
use whatsapp_api.Base.Int.{pos}
use whatsapp_api.Base.{
  ◌≢◌, ℕ, ◌≡◌, refl, arith, Bool, true, false, none, some, List, [], ◌∷◌, str_eq, ap,
}
use whatsapp_api.Base.Exec.{ok, err}
use whatsapp_api.Json.{Json, obj, bool, str, field, end, item, first, num}
use whatsapp_api.Errors.{timeout_exception}
use whatsapp_api.Models.{
  Campaign, CampaignStatus, CampaignRecipient, CampaignRecipientStatus, recipient_eq,
}
use whatsapp_api.Store.{Db, get_recipient, flush}
use whatsapp_api.Store.Laws.{IsClean}
use whatsapp_api.Store.Sessions.{session_scope}
use whatsapp_api.Utils.Retry.{with_retry, retry_from, pause}
use whatsapp_api.Client.{send_template as post_template, request, call_once, is_transient}
use whatsapp_api.Client.Responses.{
  read_outcome, read_response, raise_for_status, read_content, parsed,
}
use whatsapp_api.RateLimiter.{acquire, acquire_body, acquire_recipient, bump, sec_key, recip_key}
use whatsapp_api.Messages.{World, response_id}
use whatsapp_api.Tasks.Dispatch.{process_campaign, process_found}
use whatsapp_api.Tasks.Delivery.{send_recipient, refusal}
use whatsapp_api.Tasks.Delivery.Laws.{
  used_db, accepted_db, send_recipient_sent, send_recipient_accepted, send_recipient_failed,
}
use whatsapp_api.Tasks.Dispatch.{process_found, process_campaign}
use whatsapp_api.Tasks.Works.{Works}
use whatsapp_api.Tasks.Drain.{dispatch_drains}
use whatsapp_api.Tasks.Delivery.Once.{send_recipient_once}
use whatsapp_api.Tasks.Delivery.Tally.{
  IsBalanced, Deliveries, final, counter, with_status, Deliveries-IsBalanced,
}
use whatsapp_api.Examples.Lines.{
  shown, counters, limiter, no_sends, one_send, silent, accepting, refusing, acceptance,
}
use whatsapp_api.Examples.{shop, settings, acme, spring, first_recipient}

abbrev halted : Campaign
halted = record spring { status = CampaignStatus.cancelled; sent_count = 0; total_recipients = 1 }

abbrev waiting : CampaignRecipient
waiting = record first_recipient {
  status = CampaignRecipientStatus.queued;
  wa_message_id = Json.null;
  variables = ("name_2", str "B") ∷ ("name_1", str "A") ∷ [];
  attempt_count = 0;
}

abbrev work_shop : Db
work_shop = record shop { campaigns = halted ∷ []; recipients = waiting ∷ [] }

work_shop-IsClean : IsClean work_shop
work_shop-IsClean = record { nothing_pending = refl; storable = refl }

abbrev work : World counters accepting
work = record { db = work_shop; counters = no_sends; remote = 0 }

abbrev unanswered : World counters silent
unanswered = record { db = work_shop; counters = no_sends; remote = 0 }

abbrev refused : World counters refusing
refused = record { db = work_shop; counters = no_sends; remote = 0 }

abbrev cancelled_answer : Json
cancelled_answer = obj (field "status" (str "cancelled") (field "skipped" (bool true) end))

abbrev no_ids : List ℕ
no_ids = []

work_shop-IsBalanced : IsBalanced work_shop
unfolding recipient_eq
work_shop-IsBalanced = record { unique = (refl, tt); tallied = tallied }
  where
    tallied :
        (b : Bool) (k : ℕ) (c : Campaign)
        → whatsapp_api.Store.get_campaign k work_shop ≡ some c
        → counter b c ≡ with_status (final b) k work_shop
    tallied true k c h = ground arith
    tallied false k c h = ground arith

first_answer : (send_recipient counters accepting none limiter settings shown 7 work).0 ≡ ok "sent"
unfolding response_id item first acquire acquire_body acquire_recipient bump sec_key recip_key
    str_eq pause post_template request with_retry retry_from call_once read_outcome is_transient
    read_response raise_for_status read_content parsed
first_answer =
    ap (λ r. r.0)
      (send_recipient_sent counters accepting none limiter settings shown 7 work waiting halted acme
        refl refl refl refl refl work_shop-IsClean acceptance "m9" one_send 1 refl refl (λ s. refl))

-- The campaign, if it runs, with what becomes of its recipient.
abbrev live : Campaign
live = record halted { status = CampaignStatus.running }

abbrev live_work : World counters accepting
live_work = record work { db = record work_shop { campaigns = live ∷ [] } }

live_work-IsClean : IsClean live_work.db
live_work-IsClean = record { nothing_pending = refl; storable = refl }

live_sent : send_recipient counters accepting none limiter settings shown 7 live_work ≡ (
  ok "sent",
  record {
    db =
        used_db counters accepting none limiter settings shown 7 live_work waiting live acme refl
          refl refl refl refl live_work-IsClean "m9";
    counters = one_send;
    remote = 1;
  },
)
unfolding response_id item first acquire acquire_body acquire_recipient bump sec_key recip_key
    str_eq pause post_template request with_retry retry_from call_once read_outcome is_transient
    read_response raise_for_status read_content parsed
live_sent =
    send_recipient_sent counters accepting none limiter settings shown 7 live_work waiting live acme
      refl refl refl refl refl live_work-IsClean acceptance "m9" one_send 1 refl refl (λ s. refl)

abbrev reached : CampaignRecipient
reached = record waiting {
  status = CampaignRecipientStatus.sent;
  wa_message_id = str "m9";
  attempt_count = 1;
  attempted_at = some work_shop.now;
}

reached_row :
    get_recipient 7 (send_recipient counters accepting none limiter settings shown 7 live_work).1.db
    ≡ some reached
reached_row = ap (λ r. get_recipient 7 r.1.db) live_sent

abbrev dispatch_answer : Json
dispatch_answer = obj (field "status" (str "dispatched") (field "count" (num (pos 1)) end))

live_dispatch : process_campaign 5 live_work.db ≡ (ok (dispatch_answer, 7 ∷ []), live_work.db)
unfolding process_campaign process_found session_scope flush recipient_eq
live_dispatch = refl

live_works :
    Works counters accepting none limiter settings shown live_work
      (7 ∷ [])
      (send_recipient counters accepting none limiter settings shown 7 live_work).1
live_works = Works.returned 7 [] live_work "sent" Works.start (ap (λ r. r.0) live_sent)

send_recipient_accepted_example :
    send_recipient counters accepting none limiter settings shown 7 work ≡ (
      ok "sent",
      record {
        db =
            ((accepted_db counters accepting none limiter settings shown 7 work waiting halted acme
                refl refl refl refl refl work_shop-IsClean))
              "m9";
        counters = one_send;
        remote = 1;
      },
    )
unfolding response_id item first acquire acquire_body acquire_recipient bump sec_key recip_key
    str_eq pause post_template request with_retry retry_from call_once read_outcome is_transient
    read_response raise_for_status read_content parsed
send_recipient_accepted_example =
    send_recipient_accepted counters accepting none limiter settings shown 7 work waiting halted
      acme refl refl refl refl refl work_shop-IsClean acceptance "m9" one_send 1 refl refl
      (λ s. refl) refl

send_recipient_failed_example :
    send_recipient counters silent none limiter settings shown 7 unanswered
    ≡ (err timeout_exception, record { db = unanswered.db; counters = one_send; remote = 3 })
unfolding refusal acquire acquire_body acquire_recipient bump sec_key recip_key str_eq pause
    post_template request with_retry retry_from call_once read_outcome is_transient read_response
    raise_for_status read_content parsed
send_recipient_failed_example =
    send_recipient_failed counters silent none limiter settings shown 7 unanswered waiting halted
      acme refl refl refl refl refl work_shop-IsClean timeout_exception one_send 3 refl refl refl

send_recipient_once_example :
    (send_recipient counters accepting none limiter settings shown 7
      (send_recipient counters accepting none limiter settings shown 7 work).1).1
    ≡ (send_recipient counters accepting none limiter settings shown 7 work).1
send_recipient_once_example =
    send_recipient_once counters accepting none limiter settings shown 7 work "sent" first_answer

Deliveries-IsBalanced_example :
    IsBalanced ((send_recipient counters accepting none limiter settings shown 7 work).1).db
Deliveries-IsBalanced_example =
    Deliveries-IsBalanced counters accepting none limiter settings shown work
      (send_recipient counters accepting none limiter settings shown 7 work).1 work_shop-IsBalanced
      (Deliveries.delivered 7 work Deliveries.here)

dispatch_drains_example : reached.status ≢ CampaignRecipientStatus.queued
dispatch_drains_example =
    dispatch_drains counters accepting none limiter settings shown 5 live live_work.db live_work
      (send_recipient counters accepting none limiter settings shown 7 live_work).1 dispatch_answer
      (7 ∷ []) (7 ∷ []) refl refl live_dispatch live_works (refl, tt) 7 reached reached_row refl
