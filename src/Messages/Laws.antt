-- ===== src/Messages/Laws.antt =====
-- What a send leaves behind.
use whatsapp_api.Base.{
  ℕ, ◌+◌, ◌<◌, ◌≤◌, ◌≡◌, refl, true, false, Option, none, some, List, [], ◌∷◌, ◌++◌, arith, String,
  leb,
}
use whatsapp_api.Base.Exec.{ok, err, ◌>>◌, pure, modify}
use whatsapp_api.Webhooks.Events.{add_message}
use whatsapp_api.Errors.{Error, plain, tenant_quota_exceeded}
use whatsapp_api.Json.{Json, str}
use whatsapp_api.Models.{Tenant, Message, MessageStatus, Settings}
use whatsapp_api.Store.{Db, replace, storable, all_storable, put_message, get_tenant, flush}
use whatsapp_api.Store.Laws.{IsClean, flush_clean}
use whatsapp_api.Tenants.{Fernet, resolve, assert_quota, increment_usage, used}
use whatsapp_api.Client.{Http, send_text as post_text}
use whatsapp_api.RateLimiter.{Redis, RateLimiter, acquire}
use whatsapp_api.Messages.{
  World, SendTextRequest, client_for, limited, text_row, failed_with, store_queued, record_failure,
  record_sent, response_id, id_text, sent_as, send_text,
}

all_storable-snoc :
    (m : Message) (ms : List Message)
    → all_storable ms ≡ true
    → storable m ≡ true
    → all_storable (ms ++ (m ∷ [])) ≡ true
all_storable-snoc m [] h k = ground arith
all_storable-snoc m (x ∷ ms) h k = ground (arith, all_storable-snoc m ms)

pub all_storable-replace :
    (m : Message) (ms : List Message)
    → all_storable ms ≡ true
    → storable m ≡ true
    → all_storable (replace (λ (x : Message). x.id) m ms) ≡ true
all_storable-replace m [] h k = refl
all_storable-replace m (x ∷ ms) h k = ground (arith, all_storable-replace m ms)

pub used-IsClean : (o : Option Tenant) (n : ℕ) (s : Db) → IsClean s → IsClean (used o n s)
used-IsClean none n s clean = clean
used-IsClean (some t) n s clean = record {
  nothing_pending = clean.nothing_pending;
  storable = clean.storable;
}

-- The session after a row was stored.
abbrev pub with_row : Message → Db → Db
with_row m s = record s { messages = s.messages ++ (m ∷ []); next_id = s.next_id + 1; pending = [] }

store_row-eq :
    (m : Message) (s : Db)
    → IsClean s
    → storable m ≡ true
    → (modify (add_message m) >> (flush >> pure m)) s ≡ (ok m, with_row m s)
unfolding flush
store_row-eq m s clean fits = rw (clean.nothing_pending, clean.storable, fits) refl

pub store_queued-eq :
    (make : Db → Message) (s : Db)
    → IsClean s
    → storable (make s) ≡ true
    → store_queued make s ≡ (ok (make s), with_row (make s) s)
unfolding store_queued
store_queued-eq make s clean fits = store_row-eq (make s) s clean fits

pub with_row-IsClean :
    (m : Message) (s : Db) → IsClean s → storable m ≡ true → IsClean (with_row m s)
with_row-IsClean m s clean fits = record {
  nothing_pending = refl;
  storable = all_storable-snoc m s.messages clean.storable fits;
}

module _ (redis : Redis) (http : Http) (fernet : Option Fernet) (limiter : RateLimiter)
    (settings : Settings) (describe : Error → String) (p : SendTextRequest) (w : World redis http)
    (t : Tenant) (found : resolve settings p.tenant_id w.db ≡ (ok t, w.db)) where
  -- A text for a tenant that has used up its quota is refused: nothing is sent, stored or counted.
  send_text_over_quota :
      t.monthly_message_limit ≤ t.messages_sent_this_month
      → send_text redis http fernet limiter settings describe p w
        ≡ (err (plain tenant_quota_exceeded), w)
  unfolding send_text assert_quota
  send_text_over_quota over = rw (found, over_lem) refl
    where
      over_lem : leb t.monthly_message_limit t.messages_sent_this_month ≡ true
      over_lem = ground (arith, over)

  -- The row, and the session that a failed send leaves.
  abbrev queued : Message
  queued = text_row redis http fernet limiter settings describe t p w.db

  abbrev stored_db : Db
  stored_db = record w.db {
    messages = w.db.messages ++ (queued ∷ []);
    next_id = w.db.next_id + 1;
    pending = [];
  }

  abbrev after_failure : Error → Db
  after_failure e = put_message (failed_with (describe e) w.db.now queued) stored_db

  store-eq :
      IsClean w.db
      → store_queued (text_row redis http fernet limiter settings describe t p) w.db
        ≡ (ok queued, stored_db)
  store-eq clean =
      store_queued-eq (text_row redis http fernet limiter settings describe t p) w.db clean refl

  failure-eq :
      (e : Error)
      → IsClean w.db
      → record_failure describe e queued stored_db ≡ (err e, after_failure e)
  unfolding record_failure
  failure-eq e clean = rw (
      flush_clean (after_failure e) (record {
        nothing_pending = refl;
        storable =
            all_storable-replace (failed_with (describe e) w.db.now queued) stored_db.messages
              (all_storable-snoc queued w.db.messages clean.storable refl) refl;
      }))

  -- A text for a tenant within its quota, which the limiter grants and the client fails to send,
  -- with nothing to flush before: the client's error is raised again, and the message is stored
  -- as failed, with the error's text. The tenant's usage does not change. The row stays only if
  -- the caller commits.
  pub send_text_failed :
      (e : Error) (c : redis.State) (h : http.State)
      → t.messages_sent_this_month < t.monthly_message_limit
      → acquire redis limiter t.phone_number_id p.to w.counters ≡ (true, c)
      → post_text http
          (client_for redis http fernet limiter settings describe t)
          p.to
          p.text
          p.preview_url
          w.remote
        ≡ (err e, h)
      → IsClean w.db
      → send_text redis http fernet limiter settings describe p w
        ≡ (err e, record { db = after_failure e; counters = c; remote = h })
  unfolding send_text assert_quota limited
  send_text_failed e c h fits granted failing clean =
      rw (found, within_quota, granted, store-eq clean, failing, failure-eq e clean)
    where
      within_quota : leb t.monthly_message_limit t.messages_sent_this_month ≡ false
      within_quota = ground (arith, fits)

  abbrev pub sent_db : String → Db
  sent_db wa = put_message (sent_as (str wa) w.db.now queued) stored_db

  pub sent-IsClean : (wa : String) → IsClean w.db → IsClean (sent_db wa)
  sent-IsClean wa clean = record {
    nothing_pending = refl;
    storable =
        all_storable-replace (sent_as (str wa) w.db.now queued) stored_db.messages
          (all_storable-snoc queued w.db.messages clean.storable refl) refl;
  }

  sent-eq :
      (wa : String) (r : Json)
      → ((s : Db) → response_id r s ≡ (ok (str wa), s))
      → IsClean w.db
      → record_sent t p.to queued r stored_db ≡ (
        ok (record {
          message_id = queued.id;
          wa_message_id = wa;
          status = MessageStatus.sent;
          to = p.to;
        }),
        used (get_tenant t.id (sent_db wa)) 1 (sent_db wa),
      )
  unfolding record_sent increment_usage id_text
  sent-eq wa r named clean = rw (
    named stored_db,
    flush_clean (sent_db wa) (sent-IsClean wa clean),
    flush_clean (used (get_tenant t.id (sent_db wa)) 1 (sent_db wa))
        (used-IsClean (get_tenant t.id (sent_db wa)) 1 (sent_db wa) (sent-IsClean wa clean)),
  )

  -- A text for a tenant within its quota, which the limiter grants and Meta accepts with a message
  -- id, with nothing to flush before: the answer has that id, the message is stored as sent with
  -- it, and the tenant's usage goes up by one.
  pub send_text_accepted :
      (r : Json) (wa : String) (c : redis.State) (h : http.State)
      → t.messages_sent_this_month < t.monthly_message_limit
      → acquire redis limiter t.phone_number_id p.to w.counters ≡ (true, c)
      → post_text http
          (client_for redis http fernet limiter settings describe t)
          p.to
          p.text
          p.preview_url
          w.remote
        ≡ (ok r, h)
      → ((s : Db) → response_id r s ≡ (ok (str wa), s))
      → IsClean w.db
      → send_text redis http fernet limiter settings describe p w ≡ (
        ok (record {
          message_id = queued.id;
          wa_message_id = wa;
          status = MessageStatus.sent;
          to = p.to;
        }),
        record {
          db = used (get_tenant t.id (sent_db wa)) 1 (sent_db wa);
          counters = c;
          remote = h;
        },
      )
  unfolding send_text assert_quota limited
  send_text_accepted r wa c h fits granted accepted named clean =
      rw (found, within_quota, granted, store-eq clean, accepted, sent-eq wa r named clean)
    where
      within_quota : leb t.monthly_message_limit t.messages_sent_this_month ≡ false
      within_quota = ground (arith, fits)
