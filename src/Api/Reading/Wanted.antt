-- ===== src/Api/Reading/Wanted.antt =====
-- What the filters of the listing of messages ask for, apart from the code's tests.
use whatsapp_api.Base.{
  ℕ, ◌+◌, ◌≤◌, ◌≡◌, refl, sym, ap, ◌∙◌, ◌⊎◌, ◌↔◌, inl, inr, Bool, true, ◌&&◌, String, Option, none,
  some, List, [], ◌∷◌, select, ==_iff, str_eq_iff, Bool-cases, and_true, arith, zero, suc,
}
use whatsapp_api.Base.Text.{is_empty}
use whatsapp_api.Base.Newest.{newest_first, insert_newest}
use whatsapp_api.Json.{Json, str}
use whatsapp_api.Models.{Message, MessageStatus, message_eq, message_index}
use whatsapp_api.Messages.{id_is}
use whatsapp_api.Store.Counting.{bit, count}
use whatsapp_api.Api.Reading.{
  MessageFilter, of_tenant, to_phone, of_status, from_time, to_time, passes,
}

-- A parameter that is not given asks for nothing.
abbrev Asked : {A : Type 0} → Option A → (A → Type 0) → Type 0
Asked none P = Unit
Asked (some a) P = P a

-- The message is one that the request asks for.
abbrev pub Wants : MessageFilter → Message → Type 0
Wants f m =
    Asked f.tenant_id (λ k. m.tenant_id ≡ k)
    × (Asked f.recipient_phone (λ p. (is_empty p ≡ true) ⊎ (m.recipient_phone ≡ str p))
        × (Asked f.status (λ status. m.status ≡ status)
            × (Asked f.from_date (λ t. t ≤ m.created_at)
                × Asked f.to_date (λ t. m.created_at ≤ t))))

tenant_iff : (o : Option ℕ) (m : Message) → (of_tenant o m ≡ true) ↔ Asked o (λ k. m.tenant_id ≡ k)
tenant_iff none m = (λ _. tt, λ _. refl)
tenant_iff (some k) m = ==_iff m.tenant_id k

id_is_iff : (s : String) (j : Json) → (id_is s j ≡ true) ↔ (j ≡ str s)
id_is_iff s (str t) = (λ h. ap str ((str_eq_iff t s).0 h), λ h. ground (arith, str_eq_iff t s, h))
id_is_iff s _ = (λ h. cc, λ h. cc)

phone_iff :
    (o : Option String) (m : Message)
    → (to_phone o m ≡ true) ↔ Asked o (λ p. (is_empty p ≡ true) ⊎ (m.recipient_phone ≡ str p))
phone_iff none m = (λ _. tt, λ _. refl)
phone_iff (some s) m = elim (Bool-cases (is_empty s)) [
  | inl empty ↦ (λ _. inl empty, λ _. rw empty refl)
  | inr given ↦ (
    λ h. inr ((id_is_iff s m.recipient_phone).0 (rw given at h)),
    λ h. rw given (elim h [ inl empty ↦ cc | inr same ↦ (id_is_iff s m.recipient_phone).1 same ]),
  )
]

abbrev status_at : ℕ → MessageStatus
status_at zero = MessageStatus.queued
status_at (suc zero) = MessageStatus.sent
status_at (suc (suc zero)) = MessageStatus.delivered
status_at (suc (suc (suc zero))) = MessageStatus.read
status_at _ = MessageStatus.failed

status_at-message_index : (a : MessageStatus) → status_at (message_index a) ≡ a
status_at-message_index MessageStatus.queued = refl
status_at-message_index _ = refl

message_eq_iff : (a b : MessageStatus) → (message_eq a b ≡ true) ↔ (a ≡ b)
unfolding message_eq
message_eq_iff a b = (
  λ h.
      sym (status_at-message_index a)
      ∙ ap status_at ((==_iff (message_index a) (message_index b)).0 h)
      ∙ status_at-message_index b,
  λ h. (==_iff (message_index a) (message_index b)).1 (ap message_index h),
)

status_iff :
    (o : Option MessageStatus) (m : Message)
    → (of_status o m ≡ true) ↔ Asked o (λ status. m.status ≡ status)
status_iff none m = (λ _. tt, λ _. refl)
status_iff (some status) m = message_eq_iff m.status status

from_iff : (o : Option ℕ) (m : Message) → (from_time o m ≡ true) ↔ Asked o (λ t. t ≤ m.created_at)
from_iff none m = (λ _. tt, λ _. refl)
from_iff (some t) m = (λ h. ground (arith, h), λ h. ground (arith, h))

to_iff : (o : Option ℕ) (m : Message) → (to_time o m ≡ true) ↔ Asked o (λ t. m.created_at ≤ t)
to_iff none m = (λ _. tt, λ _. refl)
to_iff (some t) m = (λ h. ground (arith, h), λ h. ground (arith, h))

and_iff :
    {P Q : Type 0} (a b : Bool) → (a ≡ true) ↔ P → (b ≡ true) ↔ Q → ((a && b) ≡ true) ↔ (P × Q)
and_iff a b h k =
    (λ both. let (x, y) = and_true a b both in (h.0 x, k.0 y), λ both. rw (h.1 both.0) (k.1 both.1))

pub passes-Wants : (f : MessageFilter) (m : Message) → (passes f m ≡ true) ↔ Wants f m
unfolding passes
passes-Wants f m = and_iff _ _ (tenant_iff f.tenant_id m) (
    and_iff _ _ (phone_iff f.recipient_phone m) (
      and_iff _ _ (status_iff f.status m)
        (and_iff _ _ (from_iff f.from_date m) (to_iff f.to_date m))))

module _ {A : Type 0} (p : A → Bool) where
  count-select : (q : A → Bool) (xs : List A) → count p (select q xs) ≡ count (λ x. q x && p x) xs
  count-select q [] = refl
  count-select q (x ∷ xs) = ground (arith, count-select q xs)

  count-insert :
      (time : A → ℕ) (a : A) (xs : List A)
      → count p (insert_newest time a xs) ≡ bit (p a) + count p xs
  count-insert time a [] = refl
  count-insert time a (x ∷ xs) = ground (arith, count-insert time a xs)

  pub count-newest_first :
      (time : A → ℕ) (q : A → Bool) (xs : List A)
      → count p (newest_first time (select q xs)) ≡ count (λ x. q x && p x) xs
  count-newest_first time q xs = sorted (select q xs) ∙ count-select q xs
    where
      sorted : (ys : List A) → count p (newest_first time ys) ≡ count p ys
      sorted [] = refl
      sorted (y ∷ ys) =
          count-insert time y (newest_first time ys) ∙ ap (λ n. bit (p y) + n) (sorted ys)
