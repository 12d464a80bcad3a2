-- ===== src/Utils/Phone/Laws.antt =====
-- Normal forms of phone numbers, and the errors.
use whatsapp_api.Base.{
  ◌≡◌, refl, subst, true, false, String, Option, none, some, ◌∷◌, arith, Bool-cases, inl, inr,
}
use whatsapp_api.Base.Text.{
  codes, is_empty, strip_of_no_space, is_space, no_space, all_digits-no_space,
  lstrip_plus_of_digits,
}
use whatsapp_api.Base.Exec.{Result, ok, err}
use whatsapp_api.Errors.{
  Error, prodaxis, coded, failure, class_status, response_status, validation_error,
}
use whatsapp_api.Utils.Phone.{
  PhoneLib, IsLawful, plus_digits, starts_with_plus, checked, normalize_phone, to_meta_format,
}

-- What E.164 means for the texts that the code looks at.
plus_digits_facts :
    (s : String)
    → plus_digits (codes s) ≡ true
    → (starts_with_plus s ≡ true) × (is_empty s ≡ false) × (no_space (codes s) ≡ true)
unfolding is_space
plus_digits_facts String.[] h = (cc, cc, refl)
plus_digits_facts (String.◌∷◌ c s) h =
    (ground arith, refl, ground (arith, all_digits-no_space (codes s)))

abbrev error_code : Error → Option String
error_code (prodaxis f) = some f.error_code
error_code _ = none

to_meta_format-plus :
    (s : String) → plus_digits (codes s) ≡ true → codes s ≡ b'+' ∷ codes (to_meta_format s)
unfolding to_meta_format
to_meta_format-plus String.[] h = cc
to_meta_format-plus (String.◌∷◌ c s) h = ground (arith, lstrip_plus_of_digits s)

module _ (lib : PhoneLib) (laws : IsLawful lib) where
  checked-format :
      (raw : String) (o : Option lib.Number) (e164 : String)
      → checked lib raw o ≡ ok e164
      → (n : lib.Number) × (lib.is_valid_number n ≡ true) × (lib.format_e164 n ≡ e164)
  unfolding checked
  checked-format raw none e164 h = cc
  checked-format raw (some n) e164 h = (n, ground arith, ground arith)

  normalize-format :
      (raw e164 : String)
      → normalize_phone lib raw ≡ ok e164
      → (n : lib.Number) × (lib.is_valid_number n ≡ true) × (lib.format_e164 n ≡ e164)
  unfolding normalize_phone
  normalize-format raw e164 h = elim (Bool-cases (is_empty raw)) [
    | inl e ↦ cc (rw e at h)
    | inr e ↦ checked-format raw _ e164 (rw e at h)
  ]

  normalize_phone_of_format :
      (n : lib.Number)
      → lib.is_valid_number n ≡ true
      → normalize_phone lib (lib.format_e164 n) ≡ ok (lib.format_e164 n)
  unfolding normalize_phone
  normalize_phone_of_format n valid =
      let (plus, nonempty, clean) = plus_digits_facts (lib.format_e164 n) (laws.format_shape n) in
      rw (nonempty, strip_of_no_space _ clean, plus, laws.parse-format n, valid)

  -- A number that was normalised is in E.164, is normal (normalising it again changes nothing and
  -- raises nothing), and is a plus followed by the wire format that Meta is sent.
  pub normalize_phone_idem :
      (raw e164 : String)
      → normalize_phone lib raw ≡ ok e164
      → (normalize_phone lib e164 ≡ ok e164)
        × (plus_digits (codes e164) ≡ true)
        × (codes e164 ≡ b'+' ∷ codes (to_meta_format e164))
  normalize_phone_idem raw e164 h =
      let (n, valid, shown) = normalize-format raw e164 h in
      let shape : plus_digits (codes e164) ≡ true = rw (← shown) (laws.format_shape n) in
      (rw (← shown) (normalize_phone_of_format n valid), shape, to_meta_format-plus e164 shape)

abbrev IsInvalidPhone : Error → Type 0
IsInvalidPhone e = (error_code e ≡ some "invalid_phone") × (response_status e ≡ 422)

invalid_phone : (message : String) → IsInvalidPhone (coded validation_error message "invalid_phone")
unfolding failure class_status response_status
invalid_phone message = (refl, refl)

IsInvalidPhone-of_err :
    (message : String) (e : Error)
    → ◌≡◌ {A = Result String} (err (coded validation_error message "invalid_phone")) (err e)
    → IsInvalidPhone e
IsInvalidPhone-of_err message e h = subst IsInvalidPhone (cc) (invalid_phone message)

err-injective : (a b : Error) → ◌≡◌ {A = Result String} (err a) (err b) → a ≡ b
err-injective a b h = cc

module _ (lib : PhoneLib) where
  checked_error :
      (raw : String) (o : Option lib.Number) (e : Error)
      → checked lib raw o ≡ err e
      → IsInvalidPhone e
  unfolding checked
  checked_error raw none e h = IsInvalidPhone-of_err _ e h
  checked_error raw (some n) e h = elim (Bool-cases (lib.is_valid_number n)) [
    | inl valid ↦ cc (rw valid at h)
    | inr invalid ↦ IsInvalidPhone-of_err _ e (rw invalid at h)
  ]

  -- Whatever is wrong with a number, the error is a validation error with the code
  -- `invalid_phone`, which the API answers with 422.
  pub normalize_phone_error :
      (raw : String) (e : Error)
      → normalize_phone lib raw ≡ err e
      → (error_code e ≡ some "invalid_phone") × (response_status e ≡ 422)
  unfolding normalize_phone
  normalize_phone_error raw e h = elim (Bool-cases (is_empty raw)) [
    | inl empty ↦ IsInvalidPhone-of_err _ e (rw empty at h)
    | inr nonempty ↦ checked_error raw _ e (rw nonempty at h)
  ]

  checked-coded :
      (raw : String) (o : Option lib.Number) (e : Error)
      → checked lib raw o ≡ err e
      → (message : String) × (coded validation_error message "invalid_phone" ≡ e)
  unfolding checked
  checked-coded raw none e h = (_, err-injective _ e h)
  checked-coded raw (some n) e h = elim (Bool-cases (lib.is_valid_number n)) [
    | inl valid ↦ cc (rw valid at h)
    | inr invalid ↦ (_, err-injective _ e (rw invalid at h))
  ]

  -- The error of `normalize_phone`, as it is raised.
  pub normalize_phone-coded :
      (raw : String) (e : Error)
      → normalize_phone lib raw ≡ err e
      → (message : String) × (coded validation_error message "invalid_phone" ≡ e)
  unfolding normalize_phone
  normalize_phone-coded raw e h = elim (Bool-cases (is_empty raw)) [
    | inl empty ↦ (_, err-injective _ e (rw empty at h))
    | inr nonempty ↦ checked-coded raw _ e (rw nonempty at h)
  ]
