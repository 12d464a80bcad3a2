-- ===== src/Webhooks/Signature.antt =====
-- `verify_signature` and the handshake of api/v1/webhooks.py. `digest` is the hexadecimal
-- HMAC-SHA256 of a body under the app secret; a body is a text.
pub mod Laws
use whatsapp_api.Base.{
  ℕ, Bool, true, false, ◌&&◌, String, Option, none, some, List, [], ◌∷◌, ltb, ◌==◌, str_eq,
  if◌then◌else◌,
}
use whatsapp_api.Base.Text.{codes, is_empty, starts_with, same_codes}
use whatsapp_api.Base.Exec.{Result, ok, err}
use whatsapp_api.Errors.{type_error, plain, webhook_signature}
use whatsapp_api.Models.{Settings}

-- What stands after the first `=`: `header.split("=", 1)[1]`.
abbrev pub after_equals : List ℕ → List ℕ
after_equals [] = []
after_equals (c ∷ cs) = if c == b'=' then cs else after_equals cs

abbrev pub is_ascii : List ℕ → Bool
is_ascii [] = true
is_ascii (c ∷ cs) = ltb c 128 && is_ascii cs

-- `hmac.compare_digest` on two texts, which must be ASCII.
unfoldable pub compare_digest : List ℕ → List ℕ → Result Bool
compare_digest a b = if is_ascii a && is_ascii b then ok (same_codes a b) else err type_error

-- The header's scheme is stripped and the rest compared.
unfoldable pub check_header : List ℕ → List ℕ → Result Bool
check_header header expected =
    if starts_with header (codes "sha256=")
    then compare_digest (after_equals header) expected
    else ok false

unfoldable pub verify_signature : (String → String) → String → Option String → Result Bool
verify_signature digest body none = ok false
verify_signature digest body (some header) =
    if is_empty header then ok false else check_header (codes header) (codes (digest body))

abbrev require_valid : Result Bool → Result (Unit {0})
require_valid (ok true) = ok tt
require_valid (ok false) = err (plain webhook_signature)
require_valid (err e) = err e

unfoldable pub assert_signature : (String → String) → String → Option String → Result (Unit {0})
assert_signature digest body header = require_valid (verify_signature digest body header)

abbrev text_is : Option String → String → Bool
text_is none t = false
text_is (some s) t = str_eq s t

abbrev text_or_empty : Option String → String
text_or_empty none = ""
text_or_empty (some s) = s

-- `verify_webhook`: the content and the status of the response.
unfoldable verify_webhook : Settings → Option String → Option String → Option String → String × ℕ
verify_webhook settings hub_mode hub_verify_token hub_challenge =
    if text_is hub_mode "subscribe" && text_is hub_verify_token settings.meta_webhook_verify_token
    then (text_or_empty hub_challenge, 200)
    else ("forbidden", 403)
