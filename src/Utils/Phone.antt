-- ===== src/Utils/Phone.antt =====
-- utils/phone.py. The package `phonenumbers` is the parameter `lib`.
pub mod Laws
use whatsapp_api.Base.{
  ℕ, ◌≤◌, ◌≡◌, Bool, true, false, ◌&&◌, String, ◌<>◌, Option, none, some, List, [], ◌∷◌, leb, ◌==◌,
  length, if◌then◌else◌,
}
use whatsapp_api.Base.Text.{codes, is_empty, strip, isdigit, all_digits, lstrip_plus}
use whatsapp_api.Base.Exec.{Result, ok, err}
use whatsapp_api.Errors.{validation_error, coded}

-- `parse` has no value where it raises `NumberParseException`.
pub record PhoneLib : Type 1 where
  pub Number : Type 0
  pub parse : String → Option String → Option Number
  pub is_valid_number : Number → Bool
  pub format_e164 : Number → String

abbrev pub plus_digits : List ℕ → Bool
plus_digits [] = false
plus_digits (c ∷ cs) = (c == b'+') && all_digits cs

-- What the code relies on: E.164 is a plus and digits, and it is read back with no region.
pub record IsLawful (lib : PhoneLib) : Type 0 where
  pub format_shape : (n : lib.Number) → plus_digits (codes (lib.format_e164 n)) ≡ true
  pub parse-format : (n : lib.Number) → lib.parse (lib.format_e164 n) none ≡ some n

abbrev pub starts_with_plus : String → Bool
starts_with_plus String.[] = false
starts_with_plus s = elim (codes s) [ [] ↦ false | c ∷ cs ↦ c == b'+' ]

module _ (lib : PhoneLib) where
  -- The three ways to read a cleaned number.
  unfoldable parse_cleaned : String → String → Option lib.Number
  parse_cleaned cleaned default_region =
      if starts_with_plus cleaned
      then lib.parse cleaned none
      else if isdigit cleaned && leb 11 (length (codes cleaned))
      then lib.parse ("+" <> cleaned) none
      else lib.parse cleaned (some default_region)

  unfoldable pub checked : String → Option lib.Number → Result String
  checked raw none = err (coded validation_error ("Invalid phone number: " <> raw) "invalid_phone")
  checked raw (some parsed) =
      if lib.is_valid_number parsed
      then ok (lib.format_e164 parsed)
      else err (coded validation_error ("Phone number not valid: " <> raw) "invalid_phone")

  unfoldable pub normalize_phone : String → Result String
  unfolding parse_cleaned checked
  normalize_phone raw =
      if is_empty raw
      then err (coded validation_error "Phone number cannot be empty" "invalid_phone")
      else checked raw (parse_cleaned (strip raw) "IN")

-- `e164.lstrip("+")`
unfoldable pub to_meta_format : String → String
unfolding lstrip_plus
to_meta_format e164 = lstrip_plus e164
