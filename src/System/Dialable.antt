-- ===== src/System/Dialable.antt =====
-- The phones of the rows that the program sends to, and what keeps them.
use whatsapp_api.Base.{◌≡◌, Bool, true, false, String, All, if_elim, ◌&&◌}
use whatsapp_api.Base.Text.{codes}
use whatsapp_api.Base.Exec.{Result, modify}
use whatsapp_api.Base.Keeps.{Keeps}
use whatsapp_api.Json.{Json, str}
use whatsapp_api.Models.{CampaignRecipient, Message, MessageDirection}
use whatsapp_api.Store.{Db, put_message, put_recipient, all_storable, flush}
use whatsapp_api.Store.Rows.{All-append, All-snoc, All-replace}
use whatsapp_api.Utils.Phone.{plus_digits}
use whatsapp_api.Webhooks.Events.{add_message}

-- A plus and digits.
abbrev pub in_e164 : String → Bool
in_e164 s = plus_digits (codes s)

abbrev phone_fits : Json → Bool
phone_fits (str s) = in_e164 s
phone_fits _ = false

abbrev pub dials_as : MessageDirection → Json → Bool
dials_as MessageDirection.inbound phone = true
dials_as MessageDirection.outbound phone = phone_fits phone

-- A message that is sent goes to a phone in E.164.
abbrev dials : Message → Bool
dials m = dials_as m.direction m.recipient_phone

abbrev pub HasPhone : CampaignRecipient → Type 0
HasPhone r = in_e164 r.phone ≡ true

abbrev pub Dials : Message → Type 0
Dials m = dials m ≡ true

-- Every recipient and every message to send, flushed or not, has its phone in E.164.
pub record Dialable (s : Db) : Type 0 where
  pub of_recipients : All HasPhone s.recipients
  pub of_messages : All Dials s.messages
  pub of_pending : All Dials s.pending

-- A write to another table.
pub Dialable-same :
    {s u : Db}
    → u.recipients ≡ s.recipients
    → u.messages ≡ s.messages
    → u.pending ≡ s.pending
    → Dialable s
    → Dialable u
Dialable-same r m p h = record {
  of_recipients = rw r h.of_recipients;
  of_messages = rw m h.of_messages;
  of_pending = rw p h.of_pending;
}

pub Keeps-flush : Keeps Dialable flush
unfolding flush
Keeps-flush = record {
  at = λ s h.
      if_elim (λ (p : Result (Unit {0}) × Db). Dialable p.1)
        (all_storable s.messages && all_storable s.pending)
        (λ _. record {
          of_recipients = h.of_recipients;
          of_messages = All-append Dials s.messages s.pending h.of_messages h.of_pending;
          of_pending = tt;
        })
        (λ _. h);
}

pub Keeps-put_message : (m : Message) → Dials m → Keeps Dialable (modify (put_message m))
Keeps-put_message m d = record {
  at = λ s h. record {
    of_recipients = h.of_recipients;
    of_messages = All-replace Dials (λ (x : Message). x.id) m s.messages d h.of_messages;
    of_pending = h.of_pending;
  };
}

pub Keeps-put_recipient :
    (r : CampaignRecipient) → HasPhone r → Keeps Dialable (modify (put_recipient r))
Keeps-put_recipient r d = record {
  at = λ s h. record {
    of_recipients =
        All-replace HasPhone (λ (x : CampaignRecipient). x.id) r s.recipients d h.of_recipients;
    of_messages = h.of_messages;
    of_pending = h.of_pending;
  };
}

pub Keeps-add_message : (m : Message) → Dials m → Keeps Dialable (modify (add_message m))
Keeps-add_message m d = record {
  at = λ s h. record {
    of_recipients = h.of_recipients;
    of_messages = h.of_messages;
    of_pending = All-snoc Dials m s.pending d h.of_pending;
  };
}
