-- ===== src/Logger/Values.antt =====
-- The values of masked fields: what is logged does not depend on them.
use whatsapp_api.Base.{
  ℕ, zero, suc, ◌+◌, ◌≡◌, refl, sym, ◌∙◌, ap, Bool, true, false, not, Option, some, List, [], ◌∷◌,
  ◌++◌, map, All, length, length-append, append_assoc, take, arith, ==_refl,
}
use whatsapp_api.Base.Text.{codes, is_space, lower}
use whatsapp_api.Base.Regex.{
  Piece, once, maybe, many, Match, longer, match, or_else, Pattern, sub_from, pred, sub_from-match,
}
use whatsapp_api.Logger.{
  letter, plain_char, quote, one_of, field_pattern, value_pieces, masked_text, mask, mask_with,
  other_patterns, text,
}

zero_add : (n : ℕ) → 0 + n ≡ n
zero_add n = omega arith

suc_add : (n m : ℕ) → suc n + m ≡ suc (n + m)
suc_add n m = omega arith

-- Nothing that a value goes on with stands in front.
abbrev ends : List ℕ → Bool
ends [] = true
ends (c ∷ s) = not (plain_char c)

abbrev IsValue : List ℕ → Type 0
IsValue [] = ⊥
IsValue (c ∷ v) = (plain_char c ≡ true) × All (λ d. plain_char d ≡ true) v

abbrev longer_by : ℕ → Option Match → Option Match
longer_by zero o = o
longer_by (suc n) o = longer (longer_by n o)

abbrev matched : ℕ → ℕ → Option Match
matched g w = some (record { group = g; whole = w })

longer_by-matched : (n g w : ℕ) → longer_by n (matched g w) ≡ matched (n + g) (n + w)
longer_by-matched zero g w = cc (zero_add g, zero_add w)
longer_by-matched (suc n) g w = ap longer (longer_by-matched n g w) ∙ cc (suc_add n g, suc_add n w)

match-name :
    (ps : List Piece) (n s : List ℕ)
    → match (map letter n ++ ps) (n ++ s) ≡ longer_by (length n) (match ps s)
unfolding match
match-name ps [] s = refl
match-name ps (c ∷ n) s = rw (==_refl (lower c), match-name ps n s) refl

module _ (p : ℕ → Bool) where
  abbrev stops : List ℕ → Bool
  stops [] = true
  stops (c ∷ s) = not (p c)

  match-run :
      (v rest : List ℕ)
      → All (λ d. p d ≡ true) v
      → stops rest ≡ true
      → match (many p ∷ []) (v ++ rest) ≡ matched (length v) (length v)
  unfolding match
  match-run [] [] h e = refl
  match-run [] (c ∷ s) h e = ground arith
  match-run (c ∷ v) rest h e =
      rw h.0 (ap (λ o. or_else (longer o) (matched 0 0)) (match-run v rest h.1 e))

-- What stands between a name and its value.
abbrev separator : List Piece
separator =
    maybe quote
    ∷ many is_space
    ∷ once (one_of (codes ":="))
    ∷ many is_space
    ∷ maybe quote
    ∷ value_pieces

plain_facts : (c : ℕ) → plain_char c ≡ true → (is_space c ≡ false) × (quote c ≡ false)
plain_facts c h = ground arith

match-separator :
    (c : ℕ) (v rest : List ℕ)
    → IsValue (c ∷ v)
    → ends rest ≡ true
    → match separator (b'=' ∷ c ∷ v ++ rest) ≡ matched 1 (suc (suc (length v)))
unfolding match is_space
match-separator c v rest h e =
    let (no_space, no_quote) = plain_facts c h.0 in
    rw (h.0, no_space, no_quote, match-run plain_char v rest h.1 e) refl

take-name : (n s : List ℕ) (c : ℕ) → take (length n + 1) (n ++ c ∷ s) ≡ n ++ c ∷ []
take-name [] s c = refl
take-name (d ∷ n) s c = rw (suc_add (length n) 1) (ap (λ t. d ∷ t) (take-name n s c))

sub_from-skip : (p : Pattern) (v s : List ℕ) → sub_from p (length v) (v ++ s) ≡ sub_from p zero s
unfolding sub_from
sub_from-skip p [] s = refl
sub_from-skip p (c ∷ v) s = sub_from-skip p v s

module _ (a : ℕ) (n : List ℕ) (c : ℕ) (v rest : List ℕ) (h : IsValue (c ∷ v))
    (e : ends rest ≡ true) where
  abbrev pattern_of_name : Pattern
  pattern_of_name = field_pattern (a ∷ n)

  match-field :
      match pattern_of_name.pieces (a ∷ (n ++ (b'=' ∷ c ∷ (v ++ rest))))
      ≡ matched (length (a ∷ n) + 1) (length (a ∷ n) + suc (suc (length v)))
  match-field =
      match-name separator (a ∷ n) (b'=' ∷ c ∷ (v ++ rest))
      ∙ ap (longer_by (length (a ∷ n))) (match-separator c v rest h e)
      ∙ longer_by-matched (length (a ∷ n)) 1 (suc (suc (length v)))

  skipped : pred (length (a ∷ n) + suc (suc (length v))) ≡ length (n ++ (b'=' ∷ c ∷ v))
  skipped =
      ap pred (suc_add (length n) (suc (suc (length v)))) ∙ sym (length-append n (b'=' ∷ c ∷ v))

  go_on :
      sub_from pattern_of_name (length (n ++ (b'=' ∷ c ∷ v))) (n ++ (b'=' ∷ c ∷ (v ++ rest)))
      ≡ sub_from pattern_of_name zero rest
  go_on =
      ap (sub_from pattern_of_name (length (n ++ (b'=' ∷ c ∷ v))))
        (sym (append_assoc n (b'=' ∷ c ∷ v) rest))
      ∙ sub_from-skip pattern_of_name (n ++ (b'=' ∷ c ∷ v)) rest

  -- A field with a value is written with the mask, and the masking goes on behind it.
  sub-field :
      sub_from pattern_of_name zero (a ∷ (n ++ (b'=' ∷ c ∷ (v ++ rest))))
      ≡ ((a ∷ n) ++ (b'=' ∷ [])) ++ masked_text ++ sub_from pattern_of_name zero rest
  sub-field =
      sub_from-match pattern_of_name a (n ++ (b'=' ∷ c ∷ (v ++ rest))) _ match-field
      ∙ rw (take-name (a ∷ n) (c ∷ (v ++ rest)) b'=', skipped, go_on) refl

-- What is logged of a text that begins with an access token as a field does not depend on the
-- token's value: two values give one masked text.
mask_hides :
    {A : Type 0} (c d : ℕ) (v w rest : List ℕ)
    → IsValue (c ∷ v)
    → IsValue (d ∷ w)
    → ends rest ≡ true
    → mask {A = A} (text (codes "access_token=" ++ (c ∷ (v ++ rest))))
      ≡ mask (text (codes "access_token=" ++ (d ∷ (w ++ rest))))
unfolding mask
mask_hides c d v w rest h k e =
    let one = sub-field b'a' (codes "ccess_token") c v rest h e in
    let two = sub-field b'a' (codes "ccess_token") d w rest k e in
    ap (λ s. text (mask_with other_patterns s)) (one ∙ sym two)
