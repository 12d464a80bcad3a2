-- ===== src/Api/Sending/Laws.antt =====
-- The endpoints that send: who may, and what a request leaves in the database.
use whatsapp_api.Base.{
  ◌+◌, ◌<◌, ◌≡◌, refl, ap, ◌∙◌, inl, inr, true, false, String, Option, none, some, [], ◌∷◌, ◌++◌,
}
use whatsapp_api.Base.Exec.{ok, err}
use whatsapp_api.Errors.{Error, http_exception}
use whatsapp_api.Json.{Json, str, bool, obj, field, end}
use whatsapp_api.Models.{Tenant, Message, MessageStatus, MessageDirection, MessageType, Settings}
use whatsapp_api.Store.{Db, get_tenant, find_by, replace}
use whatsapp_api.Store.Counting.{replace-snoc}
use whatsapp_api.Store.Sessions.{get_session, commit}
use whatsapp_api.Store.Laws.{IsClean, flush_clean}
use whatsapp_api.Tenants.{Fernet, resolve, used}
use whatsapp_api.Utils.Validators.{ParsedUrl}
use whatsapp_api.Client.{Http, send_text as send_to_meta}
use whatsapp_api.RateLimiter.{Redis, RateLimiter, acquire}
use whatsapp_api.Auth.{AuthContext, has_scope, authenticate}
use whatsapp_api.Messages.{World, SendTextRequest, client_for, response_id}
use whatsapp_api.Messages.Components.{SendTemplateRequest}
use whatsapp_api.Messages.Laws.{
  sent_db, sent-IsClean, used-IsClean, send_text_failed, send_text_accepted,
}
use whatsapp_api.Api.{serve}
use whatsapp_api.Api.Sending.Allowed.{
  MaySendTemplate, refused-cases, no_template_scope_lem, not_in_allowlist_lem,
}
use whatsapp_api.Api.Sending.{no_text_scope, post_text, post_template}

-- The row of a text that Meta accepted, and the database with it.
abbrev pub accepted_row : SendTextRequest → Tenant → Db → String → Message
accepted_row p t d wa = record {
  id = d.next_id;
  created_at = d.now;
  tenant_id = t.id;
  direction = MessageDirection.outbound;
  wa_message_id = str wa;
  recipient_phone = str p.to;
  sender_phone = str t.phone_number_id;
  message_type = MessageType.text;
  content = obj (field "text" (str p.text) (field "preview_url" (bool p.preview_url) end));
  template_name = none;
  template_language = none;
  status = MessageStatus.sent;
  error_code = Json.null;
  error_message = Json.null;
  meta_pricing = Json.null;
  sent_at = some d.now;
  delivered_at = none;
  read_at = none;
  failed_at = none;
  campaign_recipient_id = none;
}

abbrev pub accepted_db : SendTextRequest → Tenant → Db → String → Db
accepted_db p t d wa = record d {
  messages = d.messages ++ (accepted_row p t d wa ∷ []);
  tenants =
      replace (λ (x : Tenant). x.id)
        (record t { messages_sent_this_month = t.messages_sent_this_month + 1 }) d.tenants;
  next_id = d.next_id + 1;
  pending = [];
}

module _ (redis : Redis) (http : Http) (fernet : Option Fernet) (limiter : RateLimiter)
    (settings : Settings) (describe : Error → String) (hash_key : String → String)
    (x_api_key : Option String) (w : World redis http) where
  -- A request whose key is refused changes nothing, and gets the error of the check.
  post_unauthenticated :
      (urlparse : String → ParsedUrl) (e : Error) (d : Db) (text : SendTextRequest)
      (template : SendTemplateRequest)
      → authenticate hash_key settings x_api_key w.db ≡ (err e, d)
      → (post_text redis http fernet limiter settings describe hash_key x_api_key text w
          ≡ (err e, w))
        × (post_template redis http fernet limiter settings describe hash_key x_api_key urlparse
              template w
            ≡ (err e, w))
  unfolding post_text post_template serve get_session
  post_unauthenticated urlparse e d text template refused = (rw refused, rw refused)

  module _ (ctx : AuthContext) (d : Db)
      (admitted : authenticate hash_key settings x_api_key w.db ≡ (ok ctx, d)) where
    -- A key without the scope "send_text" sends no text: the answer is 403, and neither the database,
    -- nor the rate limiter, nor Meta sees anything of the request.
    post_text_forbidden :
        (payload : SendTextRequest)
        → has_scope ctx "send_text" ≡ false
        → post_text redis http fernet limiter settings describe hash_key x_api_key payload w
          ≡ (err no_text_scope, w)
    unfolding post_text serve get_session
    post_text_forbidden payload lacking = rw (admitted, lacking)

    -- Whoever may not send the template of the request sends nothing: the answer is 403, and neither
    -- the database, nor the rate limiter, nor Meta sees anything of the request.
    pub post_template_forbidden :
        (urlparse : String → ParsedUrl) (payload : SendTemplateRequest)
        → ¬ MaySendTemplate ctx payload.template_name
        → (detail : String) × (post_template redis http fernet limiter settings describe hash_key
              x_api_key urlparse payload w
            ≡ (err (http_exception 403 detail), w))
    unfolding post_template serve get_session
    post_template_forbidden urlparse payload refused =
        elim (refused-cases ctx payload.template_name refused) [
          | inl lacking ↦
              let (detail, answer) = no_template_scope_lem in
              (detail, rw (admitted, lacking, answer) refl)
          | inr (scoped, unlisted) ↦
              let (detail, answer) = not_in_allowlist_lem ctx payload.template_name in
              (detail, rw (admitted, scoped, unlisted, answer) refl)
        ]

    module _ (p : SendTextRequest) (t : Tenant) (scoped : has_scope ctx "send_text" ≡ true)
        (found : resolve settings p.tenant_id d ≡ (ok t, d))
        (fits : t.messages_sent_this_month < t.monthly_message_limit) (c : redis.State)
        (granted : acquire redis limiter t.phone_number_id p.to w.counters ≡ (true, c))
        (clean : IsClean d) where
      abbrev inside : World redis http
      inside = record w { db = d }

      -- A text that the client fails to send: the error is raised again, and the database is as it
      -- was before the request. The row of the failed message is lost, with the use of the key; the
      -- rate limiter's count and what Meta saw stay.
      pub post_text_failed :
          (e : Error) (h : http.State)
          → send_to_meta http
              (client_for redis http fernet limiter settings describe t)
              p.to
              p.text
              p.preview_url
              w.remote
            ≡ (err e, h)
          → post_text redis http fernet limiter settings describe hash_key x_api_key p w
            ≡ (err e, record { db = w.db; counters = c; remote = h })
      unfolding post_text serve get_session
      post_text_failed e h failing = rw (
        admitted,
        scoped,
        send_text_failed redis http fernet limiter settings describe p inside t found e c h fits
            granted failing clean,
      )

      -- The session of an accepted text, as the service leaves it.
      abbrev left_db : String → Db
      left_db wa =
          used
            (get_tenant t.id
              (sent_db redis http fernet limiter settings describe p inside t found wa))
            1 (sent_db redis http fernet limiter settings describe p inside t found wa)

      accepted-eq :
          (r : Json) (wa : String) (h : http.State)
          → send_to_meta http
              (client_for redis http fernet limiter settings describe t)
              p.to
              p.text
              p.preview_url
              w.remote
            ≡ (ok r, h)
          → ((s : Db) → response_id r s ≡ (ok (str wa), s))
          → post_text redis http fernet limiter settings describe hash_key x_api_key p w ≡ (
            ok (record {
              message_id = d.next_id;
              wa_message_id = wa;
              status = MessageStatus.sent;
              to = p.to;
            }),
            record { db = left_db wa; counters = c; remote = h },
          )
      unfolding post_text serve get_session commit
      accepted-eq r wa h accepted named = rw (
        admitted,
        scoped,
        send_text_accepted redis http fernet limiter settings describe p inside t found r wa c h
            fits granted accepted named clean,
        flush_clean
            (used
              (get_tenant t.id
                (sent_db redis http fernet limiter settings describe p inside t found wa))
              1 (sent_db redis http fernet limiter settings describe p inside t found wa))
            (used-IsClean
              (get_tenant t.id
                (sent_db redis http fernet limiter settings describe p inside t found wa))
              1 (sent_db redis http fernet limiter settings describe p inside t found wa)
              (sent-IsClean redis http fernet limiter settings describe p inside t found wa clean)),
      )

      left-eq :
          (wa : String)
          → get_tenant t.id d ≡ some t
          → find_by (λ (m : Message). m.id) d.next_id d.messages ≡ none
          → left_db wa ≡ accepted_db p t d wa
      left-eq wa row fresh =
          rw
            (
              row,
              replace-snoc (λ (m : Message). m.id) (accepted_row p t d wa)
                  (record (accepted_row p t d wa) {
                    wa_message_id = Json.null;
                    status = MessageStatus.queued;
                    sent_at = none;
                  })
                  d.messages refl fresh,
            )
            refl

      -- A text that Meta accepts is answered with its id and committed: one new message, sent to
      -- the phone of the request with Meta's id, one more message in the usage of the tenant, and
      -- the use of the key, which is in `d`; nothing else changes. The tenant is the one of the
      -- request: the key's own plays no part. The tenant's row is the one of its id, and no
      -- message has the new id.
      pub post_text_accepted :
          (r : Json) (wa : String) (h : http.State)
          → send_to_meta http
              (client_for redis http fernet limiter settings describe t)
              p.to
              p.text
              p.preview_url
              w.remote
            ≡ (ok r, h)
          → ((s : Db) → response_id r s ≡ (ok (str wa), s))
          → get_tenant t.id d ≡ some t
          → find_by (λ (m : Message). m.id) d.next_id d.messages ≡ none
          → post_text redis http fernet limiter settings describe hash_key x_api_key p w ≡ (
            ok (record {
              message_id = d.next_id;
              wa_message_id = wa;
              status = MessageStatus.sent;
              to = p.to;
            }),
            record { db = accepted_db p t d wa; counters = c; remote = h },
          )
      post_text_accepted r wa h accepted named row fresh =
          accepted-eq r wa h accepted named
          ∙ ap
              (λ (v : Db). (
                ok (record {
                  message_id = d.next_id;
                  wa_message_id = wa;
                  status = MessageStatus.sent;
                  to = p.to;
                }),
                record { db = v; counters = c; remote = h },
              ))
              (left-eq wa row fresh)
