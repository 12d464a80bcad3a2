-- ===== src/Schemas/Laws.antt =====
-- What a validated request is, and what a refused one is answered with.
use whatsapp_api.Base.{
  ◌≡◌, refl, sym, ◌∙◌, ap, Bool, true, false, ◌&&◌, String, if_elim, inl, inr, ◌⊎◌,
}
use whatsapp_api.Base.Text.{codes}
use whatsapp_api.Base.Exec.{Result, ok, err}
use whatsapp_api.Errors.{Error}
use whatsapp_api.Utils.Phone.{PhoneLib, IsLawful, normalize_phone, plus_digits}
use whatsapp_api.Utils.Phone.Laws.{normalize_phone_idem, normalize_phone_error}
use whatsapp_api.Messages.{SendTextRequest}
use whatsapp_api.Messages.Components.{SendTemplateRequest}
use whatsapp_api.App.{failed}
use whatsapp_api.App.Responses.{expected_status}
use whatsapp_api.Schemas.{
  Validated, valid, refused, text_between, valid_if, with_phone, validate_text, validate_template,
}

module _ (lib : PhoneLib) {R : Type 0} (to : R → String) (put : String → R → R)
    (fits : R → Bool) where
  -- The validator that normalises the phone, and then tests the other fields.
  abbrev validate : R → Validated R
  validate r = with_phone (normalize_phone lib (to r)) (λ t. valid_if (fits r) (put t r))

  -- A valid request has a phone in E.164 and fields that fit, differs from what was sent in the
  -- phone only, and is valid as it stands. A refused one is answered with 422: its phone is no
  -- number, or a field does not fit.
  abbrev pub Sound : R → Validated R → Type 0
  Sound r (valid v) =
      (v ≡ put (to v) r)
      × (plus_digits (codes (to v)) ≡ true)
      × (fits v ≡ true)
      × (validate v ≡ valid v)
  Sound r (refused e) =
      (expected_status (failed e) ≡ 422)
      × (((x : Error) × (normalize_phone lib (to r) ≡ err x)) ⊎ (fits r ≡ false))

  module _ (laws : IsLawful lib) (to-put : (t : String) (r : R) → to (put t r) ≡ t)
      (put-put : (s t : String) (r : R) → put s (put t r) ≡ put s r)
      (fits-put : (t : String) (r : R) → fits (put t r) ≡ fits r) where
    put-Sound :
        (t : String) (r : R)
        → normalize_phone lib (to r) ≡ ok t
        → fits r ≡ true
        → Sound r (valid (put t r))
    put-Sound t r h fine =
        let (again, shape, _) = normalize_phone_idem lib (laws) (to r) t h in
        (
          ap (λ x. put x r) (sym (to-put t r)),
          rw (to-put t r) shape,
          fits-put t r ∙ fine,
          rw (to-put t r, again, fits-put t r, fine) (ap valid (put-put t t r)),
        )

    validate-Sound : (r : R) → Sound r (validate r)
    validate-Sound r = go (normalize_phone lib (to r)) refl
      where
        go :
            (o : Result String)
            → normalize_phone lib (to r) ≡ o
            → Sound r (with_phone o (λ t. valid_if (fits r) (put t r)))
        go (err e) h = ((normalize_phone_error lib (to r) e h).1, inl (e, h))
        go (ok t) h =
            if_elim (Sound r) (fits r) (λ fine. put-Sound t r h fine) (λ bad. (refl, inr bad))

abbrev pub text_fits : SendTextRequest → Bool
text_fits r = text_between 1 4096 r.text

abbrev pub put_to : String → SendTextRequest → SendTextRequest
put_to t r = record r { to = t }

-- Validating a request to send a text. A valid request has a phone in E.164 and a text of 1 to
-- 4096 characters, differs from what was sent in the phone only, and is valid as it stands. A
-- refused one is answered with 422: its phone is no number, or its text does not fit.
pub validate_text_lem :
    (lib : PhoneLib)
    → IsLawful lib
    → (r : SendTextRequest)
    → Sound lib (λ (q : SendTextRequest). q.to) put_to text_fits r (validate_text lib r)
unfolding validate_text
validate_text_lem lib laws r =
    validate-Sound lib (λ (q : SendTextRequest). q.to) put_to text_fits laws (λ _ _. refl)
      (λ _ _ _. refl) (λ _ _. refl) r

abbrev template_fits : SendTemplateRequest → Bool
template_fits r = text_between 1 150 r.template_name && text_between 2 20 r.language_code

abbrev put_recipient : String → SendTemplateRequest → SendTemplateRequest
put_recipient t r = record r { to = t }

-- The same of a request to send a template, with a name of 1 to 150 characters and a language code
-- of 2 to 20.
pub validate_template_lem :
    (lib : PhoneLib)
    → IsLawful lib
    → (r : SendTemplateRequest)
    → Sound lib
        (λ (q : SendTemplateRequest). q.to)
        put_recipient
        template_fits
        r
        (validate_template lib r)
unfolding validate_template
validate_template_lem lib laws r =
    validate-Sound lib (λ (q : SendTemplateRequest). q.to) put_recipient template_fits laws
      (λ _ _. refl) (λ _ _ _. refl) (λ _ _. refl) r
