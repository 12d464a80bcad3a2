-- ===== src/Examples/Runs.antt =====
-- An example of a run: a text is sent with the admin's key, and then a recipient's task is delivered.
use whatsapp_api.Base.{◌≡◌, refl, Bool, true, false, String, none, some, str_eq}
use whatsapp_api.Base.Text.{strip, is_space, isdigit}
use whatsapp_api.Utils.Phone.{normalize_phone}
use whatsapp_api.Utils.Validators.{ParsedUrl}
use whatsapp_api.Messages.{World, SendTextRequest}
use whatsapp_api.Api.Sending.{post_text}
use whatsapp_api.Tasks.Delivery.{send_recipient}
use whatsapp_api.Schemas.{valid, validate_text}
use whatsapp_api.System.Dialable.{Dialable}
use whatsapp_api.System.Phones.{Runs, Runs-Dialable}
use whatsapp_api.Examples.Lines.{shown, counters, limiter, no_sends, accepting}
use whatsapp_api.Examples.{shop, settings, two_phones, two_phones-IsLawful}

abbrev hash : String → String
hash s = s

abbrev unread : String → ParsedUrl
unread s = record { scheme = ""; netloc = "" }

abbrev in_order : String → String → Bool
in_order s t = true

abbrev written : SendTextRequest
written = record { tenant_id = some 1; to = " 14155552671 "; text = "hello"; preview_url = false }

abbrev to_send : SendTextRequest
to_send = record written { to = "+14155552671" }

abbrev open_shop : World counters accepting
open_shop = record { db = shop; counters = no_sends; remote = 0 }

open_shop-Dialable : Dialable open_shop.db
open_shop-Dialable = record {
  of_recipients = (refl, tt);
  of_messages = (refl, tt);
  of_pending = tt;
}

read_as : validate_text two_phones written ≡ valid to_send
unfolding validate_text normalize_phone str_eq strip is_space isdigit
read_as = refl

abbrev after_text : World counters accepting
after_text =
    (post_text counters accepting none limiter settings shown hash (some "admin") to_send
      open_shop).1

Runs-Dialable_example :
    Dialable (send_recipient counters accepting none limiter settings shown 7 after_text).1.db
Runs-Dialable_example =
    Runs-Dialable counters accepting none limiter settings shown hash hash unread in_order
      two_phones two_phones-IsLawful open_shop
      (send_recipient counters accepting none limiter settings shown 7 after_text).1
      open_shop-Dialable
      (Runs.recipient_processed 7 after_text
        (Runs.text_sent (some "admin") written to_send open_shop read_as Runs.at_first))
