-- ===== src/Api/Sending/Allowed.antt =====
-- Who may send a template, and what the others are answered.
use whatsapp_api.Base.{
  ◌≡◌, refl, ◌⊎◌, inl, inr, true, false, String, Option, none, some, List, [], ◌∷◌, exists, str_eq,
  str_eq_iff, Bool-cases,
}
use whatsapp_api.Errors.{http_exception}
use whatsapp_api.Auth.{AuthContext, has_scope, template_allowed}
use whatsapp_api.Api.Sending.{no_template_scope, not_in_allowlist}

-- The text stands in the list.
abbrev pub Lists : List String → String → Type 0
Lists [] x = ⊥
Lists (y ∷ ys) x = (y ≡ x) ⊎ Lists ys x

-- Who may send a template: an admin, and a key that has the scope and whose allowlist has the name.
-- A key without an allowlist may send none.
abbrev pub MaySendTemplate : AuthContext → String → Type 0
MaySendTemplate ctx name =
    (ctx.is_admin ≡ true)
    ⊎ (Lists ctx.allowed_scopes "send_template"
        × ((names : List String) × (ctx.allowed_templates ≡ some names) × Lists names name))

Lists-exists : (x : String) (ys : List String) → exists (λ y. str_eq y x) ys ≡ true → Lists ys x
Lists-exists x [] h = cc
Lists-exists x (y ∷ ys) h = elim (Bool-cases (str_eq y x)) [
  | inl same ↦ inl ((str_eq_iff y x).0 same)
  | inr other ↦ inr (Lists-exists x ys (rw other at h))
]

scoped-Lists :
    (ctx : AuthContext) (scope : String)
    → ctx.is_admin ≡ false
    → has_scope ctx scope ≡ true
    → Lists ctx.allowed_scopes scope
unfolding has_scope
scoped-Lists ctx scope client h = Lists-exists scope ctx.allowed_scopes (rw client at h)

allowed-Lists :
    (o : Option (List String)) (ctx : AuthContext) (name : String)
    → ctx.is_admin ≡ false
    → ctx.allowed_templates ≡ o
    → template_allowed ctx name ≡ true
    → (names : List String) × (o ≡ some names) × Lists names name
unfolding template_allowed
allowed-Lists none ctx name client same h = cc (rw (client, same) at h)
allowed-Lists (some []) ctx name client same h = cc (rw (client, same) at h)
allowed-Lists (some (y ∷ ys)) ctx name client same h =
    (y ∷ ys, refl, Lists-exists name (y ∷ ys) (rw (client, same) at h))

-- Whoever may not send the template fails one of the two checks.
pub refused-cases :
    (ctx : AuthContext) (name : String)
    → ¬ MaySendTemplate ctx name
    → (has_scope ctx "send_template" ≡ false)
      ⊎ ((has_scope ctx "send_template" ≡ true) × (template_allowed ctx name ≡ false))
refused-cases ctx name refused = elim (Bool-cases ctx.is_admin) [
  | inl admin ↦ absurd (refused (inl admin))
  | inr client ↦ elim (Bool-cases (has_scope ctx "send_template")) [
    | inr lacking ↦ inl lacking
    | inl scoped ↦ elim (Bool-cases (template_allowed ctx name)) [
      | inr unlisted ↦ inr (scoped, unlisted)
      | inl listed ↦ absurd (
          refused (
            inr (
              scoped-Lists ctx "send_template" client scoped,
              allowed-Lists ctx.allowed_templates ctx name client refl listed,
            )))
    ]
  ]
]

pub no_template_scope_lem : (detail : String) × (no_template_scope ≡ http_exception 403 detail)
unfolding no_template_scope
no_template_scope_lem = (_, refl)

pub not_in_allowlist_lem :
    (ctx : AuthContext) (name : String)
    → (detail : String) × (not_in_allowlist ctx name ≡ http_exception 403 detail)
unfolding not_in_allowlist
not_in_allowlist_lem ctx name = (_, refl)
