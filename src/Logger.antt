-- ===== src/Logger.antt =====
-- logger.py: the masking of log records; the sinks are in Logger/Sinks. A text is the list of its
-- code points, and case is ignored for ASCII letters.
pub mod Tokens
pub mod Values
pub mod Sinks
use whatsapp_api.Base.{
  ℕ, Bool, true, false, not, ◌&&◌, ◌||◌, String, List, [], ◌∷◌, ◌++◌, map, leb, ◌==◌,
}
use whatsapp_api.Base.Text.{codes, lower, is_space}
use whatsapp_api.Base.Regex.{Piece, once, maybe, many, group_end, repeat, Pattern, sub}

abbrev pub letter : ℕ → Piece
letter c = once (λ d. lower d == lower c)

abbrev pub one_of : List ℕ → ℕ → Bool
one_of [] c = false
one_of (d ∷ ds) c = d == c || one_of ds c

abbrev pub quote : ℕ → Bool
quote = one_of (codes "\"'")

-- `[^"'&\s,}]`
abbrev pub plain_char : ℕ → Bool
plain_char c = not (one_of (codes "\"'&,}") c || is_space c)

-- `[A-Za-z0-9]`
abbrev pub alphanumeric : ℕ → Bool
alphanumeric c =
    (leb b'A' c && leb c b'Z') || (leb b'a' c && leb c b'z') || (leb b'0' c && leb c b'9')

-- `([^"'&\s,}]+)`, after the first group.
abbrev pub value_pieces : List Piece
value_pieces = group_end ∷ once plain_char ∷ many plain_char ∷ []

abbrev pub masked_text : List ℕ
masked_text = codes "***MASKED***"

-- `(name["']?\s*[:=]\s*["']?)([^"'&\s,}]+)`
abbrev pub field_pattern : List ℕ → Pattern
field_pattern name = record {
  pieces =
      map letter name
      ++ (maybe quote
          ∷ many is_space
          ∷ once (one_of (codes ":="))
          ∷ many is_space
          ∷ maybe quote
          ∷ value_pieces);
  keeps_group = true;
  text = masked_text;
}

abbrev bearer_pattern : Pattern
bearer_pattern = record {
  pieces =
      map letter (codes "authorization")
      ++ (maybe quote
          ∷ many is_space
          ∷ once (one_of (codes ":"))
          ∷ many is_space
          ∷ maybe quote
          ∷ [])
      ++ map letter (codes "bearer")
      ++ (once is_space ∷ many is_space ∷ value_pieces);
  keeps_group = true;
  text = masked_text;
}

-- `(EAA[A-Za-z0-9]{20,})`, where case counts.
abbrev pub token_pattern : Pattern
token_pattern = record {
  pieces =
      map (λ d. once (λ c. c == d)) (codes "EAA")
      ++ (repeat 20 (once alphanumeric) ++ (many alphanumeric ∷ group_end ∷ []));
  keeps_group = false;
  text = codes "EAA" ++ masked_text;
}

abbrev pub other_patterns : List Pattern
other_patterns =
    field_pattern (codes "api_key")
    ∷ bearer_pattern
    ∷ field_pattern (codes "password")
    ∷ field_pattern (codes "secret")
    ∷ token_pattern
    ∷ []

-- `_SENSITIVE_PATTERNS`
abbrev sensitive_patterns : List Pattern
sensitive_patterns = field_pattern (codes "access_token") ∷ other_patterns

abbrev pub mask_with : List Pattern → List ℕ → List ℕ
mask_with [] masked = masked
mask_with (p ∷ ps) masked = mask_with ps (sub p masked)

-- A value of a log record: a text, or anything else.
pub data LogValue {ℓ} (A : Type ℓ) : Type ℓ where
  text : List ℕ → LogValue A
  other : A → LogValue A

unfoldable pub mask : {A : Type 0} → LogValue A → LogValue A
mask (other v) = other v
mask (text s) = text (mask_with sensitive_patterns s)

-- The parts of a log record that the sinks write; `extra` is a dict.
pub record LogRecord (A : Type 0) : Type 0 where
  pub message : LogValue A
  pub extra : List (String × LogValue A)

unfoldable pub patcher : {A : Type 0} → LogRecord A → LogRecord A
patcher r = record { message = mask r.message; extra = map (λ (k, v). (k, mask v)) r.extra }
