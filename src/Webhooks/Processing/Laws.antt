-- ===== src/Webhooks/Processing/Laws.antt =====
-- The outcome of the processing of a stored event.
use whatsapp_api.Base.{
  ℕ, ◌≡◌, refl, ap, ◌∙◌, Bool, true, false, ◌&&◌, String, Option, none, some, [], ◌++◌,
}
use whatsapp_api.Base.Exec.{Result, ok, err, IsOk}
use whatsapp_api.Errors.{Error}
use whatsapp_api.Models.{WebhookEvent}
use whatsapp_api.Store.{Db, find_by, get_event, put_event, all_storable, flush}
use whatsapp_api.Store.Laws.{find_by-replace_found}
use whatsapp_api.Webhooks.Processing.{
  handle_payload, concluded, process_new, process_found, process_event,
}
use whatsapp_api.Webhooks.Processing.Frame.{Untouched, handle_payload-untouched}

-- The rows of `messages` are such that the driver takes them.
abbrev IsStorable : Db → Type 0
IsStorable s = (all_storable s.messages && all_storable s.pending) ≡ true

abbrev flushed : Db → Db
flushed s = record s { messages = s.messages ++ s.pending; pending = [] }

flush-IsStorable : (s : Db) → IsStorable s → flush s ≡ (ok tt, flushed s)
unfolding flush
flush-IsStorable s h = rw h

-- An event that is processed is left alone, with the whole database.
process_event_done :
    (describe : Error → String) (event_id : ℕ) (s : Db) (event : WebhookEvent)
    → get_event event_id s ≡ some event
    → event.processed ≡ true
    → process_event describe event_id s ≡ (ok tt, s)
unfolding process_event process_found
process_event_done describe event_id s event found done = rw (found, done)

concluded_ok :
    (describe : Error → String) (r : Result (Unit {0})) (now : ℕ) (event : WebhookEvent)
    → IsOk r
    → (concluded describe r now event).processed ≡ true
unfolding concluded
concluded_ok describe (ok _) now event h = refl
concluded_ok describe (err e) now event h = absurd h

-- What the handlers come to, and the event that is written back.
abbrev pub outcome : WebhookEvent → Db → Result (Unit {0})
outcome event s = (handle_payload event s).0

abbrev pub succeeded : Result (Unit {0}) → Bool
succeeded (ok _) = true
succeeded (err e) = false

abbrev pub error_text : (Error → String) → Result (Unit {0}) → Option String
error_text describe (ok _) = none
error_text describe (err e) = some (describe e)

abbrev left : WebhookEvent → Db → Db
left event s = (handle_payload event s).1

abbrev pub result_event : (Error → String) → WebhookEvent → Db → WebhookEvent
result_event describe event s = concluded describe (outcome event s) (left event s).now event

module _ (describe : Error → String) (event_id : ℕ) (s : Db) where
  process_event-eq :
      (event : WebhookEvent)
      → get_event event_id s ≡ some event
      → event.processed ≡ false
      → process_event describe event_id s ≡ process_new describe event s
  unfolding process_event process_found
  process_event-eq event found fresh = rw (found, fresh)

  module _ (event : WebhookEvent) (found : get_event event_id s ≡ some event)
      (fresh : event.processed ≡ false) where
    concluded-id :
        (r : Result (Unit {0})) (now : ℕ) → (concluded describe r now event).id ≡ event.id
    unfolding concluded
    concluded-id (ok _) now = refl
    concluded-id (err e) now = refl

    concluded-processed :
        (r : Result (Unit {0})) (now : ℕ) → (concluded describe r now event).processed ≡ succeeded r
    unfolding concluded
    concluded-processed (ok _) now = refl
    concluded-processed (err e) now = fresh

    concluded-error :
        (r : Result (Unit {0})) (now : ℕ)
        → (concluded describe r now event).error ≡ error_text describe r
    unfolding concluded
    concluded-error (ok _) now = refl
    concluded-error (err e) now = refl

    process_new-eq :
        IsStorable (left event s)
        → process_new describe event s
          ≡ (ok tt, flushed (put_event (result_event describe event s) (left event s)))
    unfolding process_new
    process_new-eq h = flush-IsStorable (put_event (result_event describe event s) (left event s)) h

    stored :
        get_event event_id (flushed (put_event (result_event describe event s) (left event s)))
        ≡ some (result_event describe event s)
    stored =
        find_by-replace_found (λ (e : WebhookEvent). e.id) event_id (result_event describe event s)
          event (left event s).events
          (ap (λ (k : Untouched). find_by (λ (e : WebhookEvent). e.id) event_id k.0)
              (handle_payload-untouched event s)
            ∙ found)
          (concluded-id (outcome event s) (left event s).now)

    after-eq :
        IsStorable (left event s)
        → process_event describe event_id s
          ≡ (ok tt, flushed (put_event (result_event describe event s) (left event s)))
    after-eq h = process_event-eq event found fresh ∙ process_new-eq h

    -- Processing a new event returns, however its payload is malformed, if the rows left are ones
    -- that the driver takes. The event then says what happened: processed now if no handler
    -- raised, else still unprocessed with the error's text. Tenants and API keys are as before.
    pub process_event_lem :
        IsStorable (left event s)
        → let (r, u) = process_event describe event_id s in
          (r ≡ ok tt)
          × (get_event event_id u ≡ some (result_event describe event s))
          × ((result_event describe event s).processed ≡ succeeded (outcome event s))
          × ((result_event describe event s).error ≡ error_text describe (outcome event s))
          × (u.tenants ≡ s.tenants)
          × (u.api_keys ≡ s.api_keys)
    process_event_lem h = rw (after-eq h) (
      refl,
      stored,
      concluded-processed (outcome event s) (left event s).now,
      concluded-error (outcome event s) (left event s).now,
      ap (λ (k : Untouched). k.1) (handle_payload-untouched event s),
      ap (λ (k : Untouched). k.2) (handle_payload-untouched event s),
    )

    -- An event that is processed without an error, and leaves rows that the driver takes, is
    -- processed once: doing it again changes nothing.
    pub process_event_twice :
        IsStorable (left event s)
        → IsOk (outcome event s)
        → let u = (process_event describe event_id s).1 in
          process_event describe event_id u ≡ (ok tt, u)
    process_event_twice h fine = rw (after-eq h) (
        process_event_done describe event_id
          (flushed (put_event (result_event describe event s) (left event s)))
          (result_event describe event s) stored
          (concluded_ok describe (outcome event s) (left event s).now event fine))
