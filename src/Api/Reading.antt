-- ===== src/Api/Reading.antt =====
-- The endpoints of api/v1/whatsapp.py that read. They check no key.
pub mod Laws
pub mod Wanted
use whatsapp_api.Base.{
  ℕ, Bool, true, ◌&&◌, String, Option, none, some, List, select, ◌==◌, leb, if◌then◌else◌,
}
use whatsapp_api.Base.Int.{pos}
use whatsapp_api.Base.Newest.{newest_first}
use whatsapp_api.Base.Text.{is_empty}
use whatsapp_api.Base.Exec.{Action, ◌>>=◌, ◌>>◌, gets, or_raise, pure}
use whatsapp_api.Errors.{coded, not_found}
use whatsapp_api.Json.{Json}
use whatsapp_api.Models.{Message, MessageStatus, message_eq}
use whatsapp_api.Store.{Db}
use whatsapp_api.Store.Sessions.{get_session, on_work}
use whatsapp_api.Utils.Pagination.{Paginated, paginate}
use whatsapp_api.Messages.{get, get_by_wa_id, id_is}
use whatsapp_api.Api.{db_view, db_put}

-- The query parameters of the listing.
pub record MessageFilter : Type 0 where
  pub tenant_id : Option ℕ
  pub recipient_phone : Option String
  pub status : Option MessageStatus
  pub from_date : Option ℕ
  pub to_date : Option ℕ

abbrev pub of_tenant : Option ℕ → Message → Bool
of_tenant none m = true
of_tenant (some k) m = m.tenant_id == k

abbrev pub to_phone : Option String → Message → Bool
to_phone none m = true
to_phone (some s) m = if is_empty s then true else id_is s m.recipient_phone

abbrev pub of_status : Option MessageStatus → Message → Bool
of_status none m = true
of_status (some status) m = message_eq m.status status

abbrev pub from_time : Option ℕ → Message → Bool
from_time none m = true
from_time (some t) m = leb t m.created_at

abbrev pub to_time : Option ℕ → Message → Bool
to_time none m = true
to_time (some t) m = leb m.created_at t

unfoldable pub passes : MessageFilter → Message → Bool
passes f m =
    of_tenant f.tenant_id m
    && (to_phone f.recipient_phone m
        && (of_status f.status m && (from_time f.from_date m && to_time f.to_date m)))

unfoldable pub filtered : MessageFilter → Db → List Message
filtered f s = newest_first (λ (m : Message). m.created_at) (select (passes f) s.messages)

-- FastAPI admits a page from 1 on, and a size from 1 to 500.
unfoldable pub list_messages : MessageFilter → ℕ → ℕ → Action Db (Paginated Message)
list_messages f page page_size =
    get_session db_view db_put (
      on_work db_view db_put
        (gets (λ (s : Db). paginate (filtered f s) (pos page) (pos page_size))))

unfoldable get_message : ℕ → Action Db Message
get_message message_id = get_session db_view db_put (on_work db_view db_put (get message_id))

-- schemas/message.py
pub record MessageStatusOut : Type 0 where
  pub id : ℕ
  pub wa_message_id : Json
  pub status : MessageStatus
  pub sent_at : Option ℕ
  pub delivered_at : Option ℕ
  pub read_at : Option ℕ
  pub failed_at : Option ℕ
  pub error_code : Json
  pub error_message : Json

abbrev status_out : Message → MessageStatusOut
status_out m = record {
  id = m.id;
  wa_message_id = m.wa_message_id;
  status = m.status;
  sent_at = m.sent_at;
  delivered_at = m.delivered_at;
  read_at = m.read_at;
  failed_at = m.failed_at;
  error_code = m.error_code;
  error_message = m.error_message;
}

unfoldable get_status_by_wa_id : String → Action Db MessageStatusOut
get_status_by_wa_id wa_message_id = get_session db_view db_put (
    on_work db_view db_put (do
      found ← get_by_wa_id wa_message_id
      m ← or_raise found (coded not_found "Message not found" "message_not_found")
      pure (status_out m)))
