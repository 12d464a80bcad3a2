-- ===== src/Auth/Access.antt =====
-- What a key may do.
use whatsapp_api.Base.{◌≡◌, refl, ◌⊎◌, inl, inr, true, false, String, none, some, List, [], ◌∷◌}
use whatsapp_api.Models.{ApiKey}
use whatsapp_api.Auth.{
  template_allowed, has_scope, key_template_allowed, key_has_scope, key_context,
}

-- The two checks of one key agree on scopes, and on templates while its list of templates has an
-- entry. Without one, `AuthContext` allows no template and `ApiKey` allows every one.
template_allowed-key_context :
    (k : ApiKey) (name : String)
    → (has_scope (key_context k) name ≡ key_has_scope k name)
      × ((t : String) (ts : List String)
          → k.allowed_templates ≡ some (t ∷ ts)
          → template_allowed (key_context k) name ≡ key_template_allowed k name)
      × ((k.allowed_templates ≡ none) ⊎ (k.allowed_templates ≡ some [])
          → (template_allowed (key_context k) name ≡ false) × (key_template_allowed k name ≡ true))
unfolding has_scope key_has_scope template_allowed key_template_allowed
template_allowed-key_context k name = (
  refl,
  λ t ts h. rw h,
  λ unset. elim unset [ inl h ↦ rw h (refl, refl) | inr h ↦ rw h (refl, refl) ],
)
