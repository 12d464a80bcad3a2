-- ===== src/Utils/Validators.antt =====
-- utils/validators.py. `urlparse` is the standard library's: of a URL only the scheme and the
-- network location are read.
use whatsapp_api.Base.{
  ℕ, Bool, true, not, ◌&&◌, ◌||◌, String, ◌<>◌, List, [], ◌∷◌, leb, ◌==◌, length, str_eq,
  if◌then◌else◌,
}
use whatsapp_api.Base.Text.{codes, is_empty, is_digit}
use whatsapp_api.Base.Exec.{Result, ok, err}
use whatsapp_api.Errors.{validation_error, coded}

-- `ParseResult.scheme` and `ParseResult.netloc`
pub record ParsedUrl : Type 0 where
  pub scheme : String
  pub netloc : String

unfoldable pub validate_https_url : (String → ParsedUrl) → String → String → Result String
validate_https_url urlparse url field =
    if is_empty url
    then err (coded validation_error (field <> " is required") "invalid_url")
    else if not (str_eq (urlparse url).scheme "https") || is_empty (urlparse url).netloc
    then err (coded validation_error (field <> " must be a valid HTTPS URL") "invalid_url")
    else ok url

-- The class `[a-z0-9_]`.
abbrev name_char : ℕ → Bool
name_char c = (leb b'a' c && leb c b'z') || is_digit c || c == b'_'

abbrev all_name_chars : List ℕ → Bool
all_name_chars [] = true
all_name_chars (c ∷ cs) = name_char c && all_name_chars cs

-- `re.fullmatch(r"[a-z0-9_]{1,512}", name)`
unfoldable validate_template_name : String → Result String
validate_template_name name =
    if all_name_chars (codes name) && leb 1 (length (codes name)) && leb (length (codes name)) 512
    then ok name
    else err (
        coded validation_error "Template name must be lowercase letters, digits, and underscores"
          "invalid_template_name")
