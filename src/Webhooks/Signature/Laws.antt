-- ===== src/Webhooks/Signature/Laws.antt =====
-- Exactly the signed bodies pass.
use whatsapp_api.Base.{
  ℕ, ◌≡◌, ◌↔◌, refl, ap, subst, ◌∙◌, true, false, String, none, some, List, [], ◌∷◌, ◌++◌, arith,
  Bool-cases, inl, inr,
}
use whatsapp_api.Base.Text.{codes, is_empty, starts_with, same_codes}
use whatsapp_api.Base.Exec.{ok, err}
use whatsapp_api.Errors.{type_error, response_status}
use whatsapp_api.Webhooks.Signature.{
  after_equals, is_ascii, check_header, compare_digest, verify_signature, assert_signature,
}

same_codes_iff : (a b : List ℕ) → (same_codes a b ≡ true) ↔ (a ≡ b)
same_codes_iff [] [] = (λ h. refl, λ h. refl)
same_codes_iff [] (b ∷ bs) = (λ h. cc, λ h. cc)
same_codes_iff (a ∷ as') [] = (λ h. cc, λ h. cc)
same_codes_iff (a ∷ as') (b ∷ bs) = ground (arith, same_codes_iff as' bs)

-- The rest behind a prefix.
starts_with_rest : (s t : List ℕ) → starts_with s t ≡ true → (rest : List ℕ) × (s ≡ t ++ rest)
starts_with_rest s [] h = (s, refl)
starts_with_rest [] (b ∷ t) h = cc
starts_with_rest (a ∷ s) (b ∷ t) h =
    let (rest, e) = starts_with_rest s t (ground arith) in (rest, ground arith)

starts_with-append : (t rest : List ℕ) → starts_with (t ++ rest) t ≡ true
starts_with-append [] rest = refl
starts_with-append (b ∷ t) rest = ground (arith, starts_with-append t rest)

compare_digest-true : (a b : List ℕ) → compare_digest a b ≡ ok true → same_codes a b ≡ true
unfolding compare_digest
compare_digest-true a b h = ground arith

check_header_sound :
    (header expected : List ℕ)
    → check_header header expected ≡ ok true
    → header ≡ codes "sha256=" ++ expected
unfolding check_header
check_header_sound header expected h = elim (Bool-cases (starts_with header (codes "sha256="))) [
  | inr other ↦ cc (rw other at h)
  | inl scheme ↦
      let (rest, e) = starts_with_rest header (codes "sha256=") scheme in
      let compared : compare_digest rest expected ≡ ok true =
        subst (λ (l : List ℕ). compare_digest (after_equals l) expected ≡ ok true) e
          (rw scheme at h) in
      let same = (same_codes_iff rest expected).0 (compare_digest-true rest expected compared) in
      e ∙ ap (λ (l : List ℕ). codes "sha256=" ++ l) same
]

check_header_complete :
    (expected : List ℕ)
    → is_ascii expected ≡ true
    → check_header (codes "sha256=" ++ expected) expected ≡ ok true
unfolding check_header compare_digest
check_header_complete expected ascii = rw (
  starts_with-append (codes "sha256=") expected,
  ascii,
  (same_codes_iff expected expected).1 refl,
)

module _ (digest : String → String) (body : String) where
  verify_sound :
      (header : String)
      → verify_signature digest body (some header) ≡ ok true
      → codes header ≡ codes "sha256=" ++ codes (digest body)
  unfolding verify_signature
  verify_sound header h = elim (Bool-cases (is_empty header)) [
    | inl empty ↦ cc (rw empty at h)
    | inr given ↦ check_header_sound _ _ (rw given at h)
  ]

  is_empty-codes :
      (header : String) (c : ℕ) (cs : List ℕ) → codes header ≡ c ∷ cs → is_empty header ≡ false
  is_empty-codes String.[] c cs h = cc
  is_empty-codes (String.◌∷◌ d s) c cs h = refl

  -- A body, whose digest is an ASCII text, is accepted with exactly one header: the scheme `sha256=`
  -- and that digest. With no header it is refused.
  pub verify_signature_lem :
      is_ascii (codes (digest body)) ≡ true
      → (verify_signature digest body none ≡ ok false)
        × ((header : String)
            → (verify_signature digest body (some header) ≡ ok true)
              ↔ (codes header ≡ codes "sha256=" ++ codes (digest body)))
  unfolding verify_signature
  verify_signature_lem ascii = (
    refl,
    λ header. (
      verify_sound header,
      λ h.
          rw (is_empty-codes header _ _ h)
            (rw h (check_header_complete (codes (digest body)) ascii)),
    ),
  )

  -- A header with the scheme and a character outside ASCII is not refused: the comparison raises a
  -- `TypeError`, which the API answers with 500.
  verify_signature_non_ascii :
      (header : String) (given : List ℕ)
      → codes header ≡ codes "sha256=" ++ given
      → is_ascii given ≡ false
      → (verify_signature digest body (some header) ≡ err type_error)
        × (assert_signature digest body (some header) ≡ err type_error)
        × (response_status type_error ≡ 500)
  unfolding verify_signature assert_signature check_header compare_digest response_status
  verify_signature_non_ascii header given h bad =
      let raised : verify_signature digest body (some header) ≡ err type_error =
        rw (is_empty-codes header _ _ h) (rw h (rw bad)) in
      (raised, rw raised, refl)
