-- ===== src/Examples/Requests.antt =====
-- Examples on the endpoints: a client's key, the admin's key, and a key that is minted.
use whatsapp_api.Base.{
  ◌-◌, ◌*◌, ◌≡◌, ◌↔◌, refl, arith, Bool, true, false, ◌&&◌, inl, inr, String, ◌<>◌, none, some,
  List, [], ◌∷◌, str_eq, take, drop, length,
}
use whatsapp_api.Base.Exec.{ok, err}
use whatsapp_api.Base.Newest.{IsNewestFirst}
use whatsapp_api.Errors.{http_exception, timeout_exception}
use whatsapp_api.Json.{item, first}
use whatsapp_api.Models.{Message, MessageStatus, ApiKey, Settings}
use whatsapp_api.Store.{Db, put_api_key, flush}
use whatsapp_api.Store.Laws.{IsClean}
use whatsapp_api.Store.Counting.{count}
use whatsapp_api.Store.Sessions.{get_session, commit}
use whatsapp_api.Tenants.{TenantCreate, TenantUpdate, resolve, get as live_tenant}
use whatsapp_api.Utils.Validators.{ParsedUrl}
use whatsapp_api.Utils.Pagination.{Paginated}
use whatsapp_api.Utils.Retry.{with_retry, retry_from, pause}
use whatsapp_api.Client.{send_text as send_to_meta, request, call_once, is_transient}
use whatsapp_api.Client.Responses.{
  read_outcome, read_response, raise_for_status, read_content, parsed,
}
use whatsapp_api.RateLimiter.{acquire, acquire_body, acquire_recipient, bump, sec_key, recip_key}
use whatsapp_api.Webhooks.Signature.{compare_digest}
use whatsapp_api.Auth.{
  ApiKeyCreate, admin_context, key_context, authenticate, require_admin, with_key, find_key, admit,
  stamp_use, admin_matches, has_scope, revoke_api_key,
}
use whatsapp_api.Messages.{World, response_id}
use whatsapp_api.Messages.Components.{SendTemplateRequest}
use whatsapp_api.Campaigns.Idle.{NoneRunning}
use whatsapp_api.Api.Sending.{post_text, post_template}
use whatsapp_api.Api.Sending.Allowed.{MaySendTemplate}
use whatsapp_api.Api.Sending.Laws.{
  accepted_db, post_template_forbidden, post_text_failed, post_text_accepted,
}
use whatsapp_api.Api.Reading.{MessageFilter, list_messages}
use whatsapp_api.Api.Reading.Wanted.{Wants}
use whatsapp_api.Api.Reading.Laws.{list_messages_lem}
use whatsapp_api.Api.Bulk.Laws.{CampaignRequest, answer, Answered, endpoints_idle}
use whatsapp_api.Api.{write_with}
use whatsapp_api.Api.Manage.{post_revoke}
use whatsapp_api.Api.Manage.Laws.{revoke-authenticate}
use whatsapp_api.Examples.Lines.{
  shown, counters, limiter, no_sends, one_send, silent, accepting, acceptance, hello,
}
use whatsapp_api.Examples.{shop, quiet_shop, acme, client_key, settings}

abbrev hash : String → String
hash s = "#" <> s

-- The key may send texts, and no template.
abbrev text_key : ApiKey
text_key = record client_key { allowed_scopes = "send_text" ∷ "send_template" ∷ [] }

abbrev open_shop : Db
open_shop = record shop { api_keys = text_key ∷ [] }

abbrev stamped_shop : Db
stamped_shop = put_api_key (record text_key { last_used_at = some 1000 }) open_shop

stamped_shop-IsClean : IsClean stamped_shop
stamped_shop-IsClean = record { nothing_pending = refl; storable = refl }

admitted :
    authenticate hash settings (some "secret") open_shop ≡ (ok (key_context text_key), stamped_shop)
unfolding authenticate with_key find_key admit stamp_use admin_matches compare_digest str_eq flush
admitted = refl

abbrev closed_key : ApiKey
closed_key = record text_key { allowed_templates = none }

abbrev closed_line : World counters silent
closed_line = record {
  db = record shop { api_keys = closed_key ∷ [] };
  counters = no_sends;
  remote = 0;
}

abbrev closed_shop : Db
closed_shop = put_api_key (record closed_key { last_used_at = some 1000 }) closed_line.db

closed_admitted :
    authenticate hash settings (some "secret") closed_line.db
    ≡ (ok (key_context closed_key), closed_shop)
unfolding authenticate with_key find_key admit stamp_use admin_matches compare_digest str_eq flush
closed_admitted = refl

resolve-acme : resolve settings (some 1) stamped_shop ≡ (ok acme, stamped_shop)
unfolding resolve live_tenant
resolve-acme = refl

abbrev quiet : World counters silent
quiet = record { db = open_shop; counters = no_sends; remote = 0 }

abbrev open_line : World counters accepting
open_line = record { db = open_shop; counters = no_sends; remote = 0 }

abbrev offer : SendTemplateRequest
offer = record {
  tenant_id = some 1;
  to = "+14155552671";
  template_name = "offer";
  language_code = "en_US";
  variables = none;
  header_image_url = none;
  header_document_url = none;
  header_document_filename = none;
  button_url_param = none;
}

abbrev no_urls : String → ParsedUrl
no_urls s = record { scheme = ""; netloc = "" }

abbrev of_acme : MessageFilter
of_acme = record {
  tenant_id = some 1;
  recipient_phone = none;
  status = none;
  from_date = none;
  to_date = none;
}

abbrev new_client : ApiKeyCreate
new_client = record {
  tenant_id = some 1;
  label = "new";
  allowed_templates = some ("offer" ∷ []);
  allowed_scopes = "send_template" ∷ [];
  rate_limit_per_hour = 100;
  expires_in_days = some 30;
}

abbrev locked : Settings
locked = record settings { enable_multi_tenant = false }

abbrev new_shop : TenantCreate
new_shop = record {
  name = "New";
  slug = "new";
  waba_id = "w3";
  phone_number_id = "300";
  access_token = "secret";
  plan = "free";
  monthly_message_limit = 1000;
}

abbrev no_changes : TenantUpdate
no_changes = record {
  name = none;
  is_active = none;
  plan = none;
  monthly_message_limit = none;
  access_token = none;
}

-- The key has no allowlist.
offer_refused : ¬ MaySendTemplate (key_context closed_key) offer.template_name
offer_refused (inl admin) = cc
offer_refused (inr (scoped, (names, listed, found))) = cc

post_template_forbidden_example :
    (detail : String) × (post_template counters silent none limiter settings shown hash
        ((some "secret"))
        no_urls
        offer
        closed_line
      ≡ (err (http_exception 403 detail), closed_line))
post_template_forbidden_example =
    post_template_forbidden counters silent none limiter settings shown hash (some "secret")
      closed_line (key_context closed_key) closed_shop closed_admitted no_urls offer offer_refused

post_text_failed_example :
    post_text counters silent none limiter settings shown hash ((some "secret")) hello quiet
    ≡ (err timeout_exception, record { db = quiet.db; counters = one_send; remote = 3 })
unfolding has_scope resolve live_tenant acquire acquire_body acquire_recipient bump sec_key
    recip_key str_eq pause send_to_meta request with_retry retry_from call_once read_outcome
    is_transient read_response raise_for_status read_content parsed
post_text_failed_example =
    post_text_failed counters silent none limiter settings shown hash (some "secret") quiet
      (key_context text_key) stamped_shop admitted hello acme refl resolve-acme (omega arith)
      one_send refl stamped_shop-IsClean timeout_exception 3 refl

post_text_accepted_example :
    post_text counters accepting none limiter settings shown hash ((some "secret")) hello open_line
    ≡ (
      ok (record {
        message_id = stamped_shop.next_id;
        wa_message_id = "m9";
        status = MessageStatus.sent;
        to = hello.to;
      }),
      record { db = (accepted_db hello acme stamped_shop) "m9"; counters = one_send; remote = 1 },
    )
unfolding has_scope resolve live_tenant response_id item first acquire acquire_body
    acquire_recipient bump sec_key recip_key str_eq pause send_to_meta request with_retry retry_from
    call_once read_outcome is_transient read_response raise_for_status read_content parsed
post_text_accepted_example =
    post_text_accepted counters accepting none limiter settings shown hash (some "secret") open_line
      (key_context text_key) stamped_shop admitted hello acme refl resolve-acme (omega arith)
      one_send refl stamped_shop-IsClean acceptance "m9" 1 refl (λ s. refl) refl refl

list_messages_lem_example :
    (rows : List Message) × (keep : Message → Bool) × (answer : Paginated Message) × (list_messages
        of_acme 1 50 shop
      ≡ (ok answer, shop))
    × (answer.items ≡ take 50 (drop ((1 - 1) * 50) rows))
    × (answer.total ≡ length rows)
    × IsNewestFirst (λ (m : Message). m.created_at) rows
    × ((p : Message → Bool) → count p rows ≡ count (λ m. keep m && p m) shop.messages)
    × ((m : Message) → (keep m ≡ true) ↔ Wants of_acme m)
list_messages_lem_example =
    list_messages_lem of_acme 1 50 shop (omega arith) (omega arith) (omega arith)

endpoints_idle_example :
    NoneRunning ((answer hash settings (some "admin") (CampaignRequest.start_request 6) quiet_shop))
endpoints_idle_example =
    endpoints_idle hash settings quiet_shop
      (answer hash settings (some "admin") (CampaignRequest.start_request 6) quiet_shop) (refl, tt)
      (Answered.answered (some "admin") (CampaignRequest.start_request 6) quiet_shop
        Answered.at_first)

abbrev revoked_key : ApiKey
revoked_key = record text_key { is_active = false; revoked_at = some 1000 }

-- The database some time after the revocation.
abbrev later_shop : Db
later_shop = record (put_api_key revoked_key open_shop) { now = 5000; messages = [] }

revoke-authenticate_example :
    ((post_revoke hash settings ((some "admin")) text_key.id open_shop).1
      ≡ put_api_key
          (record text_key { is_active = false; revoked_at = some open_shop.now })
          open_shop)
    × (authenticate hash settings (some "secret") later_shop
        ≡ (err (http_exception 401 "API key revoked"), later_shop))
unfolding require_admin authenticate with_key find_key admit stamp_use admin_matches compare_digest
    str_eq flush post_revoke write_with get_session revoke_api_key commit
revoke-authenticate_example =
    revoke-authenticate hash settings (some "admin") (admin_context "admin") text_key "secret"
      open_shop later_shop refl refl (refl, tt) (record { nothing_pending = refl; storable = refl })
      refl refl refl refl refl
