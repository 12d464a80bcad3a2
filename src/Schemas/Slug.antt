-- ===== src/Schemas/Slug.antt =====
-- The pattern of a slug, and what it accepts.
use whatsapp_api.Base.{
  ℕ, ◌≤◌, ◌≡◌, refl, sym, ◌∙◌, ap, Bool, true, false, ◌&&◌, ◌||◌, String, Option, none, some, List,
  [], ◌∷◌, length, leb, arith, if◌then◌else◌, and_true,
}
use whatsapp_api.Base.Text.{codes}
use whatsapp_api.Base.Regex.{Match, once, many, at_end, match, longer, or_else}
use whatsapp_api.Schemas.{
  between, text_between, slug_char, slug_or_dash, slug_pattern, is_match, slug_fits,
}

-- The description without a pattern: two characters at least, letters, digits and dashes, with no
-- dash at either end.
abbrev tail_fits : List ℕ → Bool
tail_fits [] = false
tail_fits (c ∷ []) = slug_char c
tail_fits (c ∷ d ∷ s) = slug_or_dash c && tail_fits (d ∷ s)

abbrev pub described : List ℕ → Bool
described [] = false
described (c ∷ s) = slug_char c && tail_fits s

is_match-longer : (o : Option Match) → is_match (longer o) ≡ is_match o
is_match-longer none = refl
is_match-longer (some m) = refl

-- One round of the loop: the longer match is tried first, and then the one that ends here.
is_match-round :
    (b : Bool) (more k : Option Match)
    → is_match (if b then or_else (longer more) k else k) ≡ ((b && is_match more) || is_match k)
is_match-round true none k = refl
is_match-round true (some m) k = refl
is_match-round false more k = refl

one_left : (b q : Bool) (m : Match) → ((b && false) || is_match (if q then some m else none)) ≡ q
one_left b true m = ground arith
one_left b false m = ground arith

abbrev missed : Option Match
missed = none

more_left : (b q x : Bool) → ((b && x) || is_match (if q then missed else missed)) ≡ (b && x)
more_left b true x = ground arith
more_left b false x = ground arith

is_match-if :
    (b : Bool) (o : Option Match) → is_match (if b then longer o else none) ≡ (b && is_match o)
is_match-if true o = is_match-longer o
is_match-if false o = refl

module _ (p q : ℕ → Bool) where
  abbrev last_fits : List ℕ → Bool
  last_fits [] = false
  last_fits (c ∷ []) = q c
  last_fits (c ∷ d ∷ s) = p c && last_fits (d ∷ s)

  -- The loop with backtracking accepts what the description does.
  match-last : (s : List ℕ) → is_match (match (many p ∷ once q ∷ at_end ∷ []) s) ≡ last_fits s
  unfolding match
  match-last [] = refl
  match-last (c ∷ []) = is_match-round (p c) none _ ∙ one_left (p c) (q c) _
  match-last (c ∷ d ∷ s) =
      is_match-round (p c) (match (many p ∷ once q ∷ at_end ∷ []) (d ∷ s)) _
      ∙ more_left (p c) (q c) _
      ∙ ap (λ b. p c && b) (match-last (d ∷ s))

tail_fits-last : (s : List ℕ) → last_fits slug_or_dash slug_char s ≡ tail_fits s
tail_fits-last [] = refl
tail_fits-last (c ∷ []) = refl
tail_fits-last (c ∷ d ∷ s) = ap (λ b. slug_or_dash c && b) (tail_fits-last (d ∷ s))

is_match-described : (s : List ℕ) → is_match (match slug_pattern s) ≡ described s
unfolding match
is_match-described [] = refl
is_match-described (c ∷ s) =
    is_match-if (slug_char c) (match (many slug_or_dash ∷ once slug_char ∷ at_end ∷ []) s)
    ∙ ap (λ b. slug_char c && b) (match-last slug_or_dash slug_char s ∙ tail_fits-last s)

described-length : (s : List ℕ) → described s ≡ true → 2 ≤ length s
described-length [] h = cc
described-length (c ∷ []) h = absurd (ground arith)
described-length (c ∷ d ∷ s) h = omega arith

-- A slug is accepted exactly if it is described so and has 80 characters at most; it then has two
-- at least, where the schema asks for one.
pub slug_fits_lem :
    (slug : String)
    → (slug_fits slug ≡ (described (codes slug) && leb (length (codes slug)) 80))
      × (slug_fits slug ≡ true → 2 ≤ length (codes slug))
unfolding slug_fits
slug_fits_lem slug = (
  ap (λ b. text_between 1 80 slug && b) (is_match-described (codes slug)) ∙ whole,
  λ h. described-length (codes slug) (both h).0,
)
  where
    bounded : (b : Bool) (n : ℕ) → (b ≡ true → 2 ≤ n) → (between 1 80 n && b) ≡ (b && leb n 80)
    bounded true n h = let two = h refl in ground arith
    bounded false n h = ground arith

    whole :
        (text_between 1 80 slug && described (codes slug))
        ≡ (described (codes slug) && leb (length (codes slug)) 80)
    whole = bounded (described (codes slug)) (length (codes slug)) (described-length (codes slug))

    both :
        (text_between 1 80 slug && is_match (match slug_pattern (codes slug))) ≡ true
        → (described (codes slug) ≡ true) × (leb (length (codes slug)) 80 ≡ true)
    both h =
        and_true (described (codes slug)) (leb (length (codes slug)) 80) (
          sym (ap (λ b. text_between 1 80 slug && b) (is_match-described (codes slug)) ∙ whole) ∙ h)
