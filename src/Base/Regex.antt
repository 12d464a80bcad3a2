-- ===== src/Base/Regex.antt =====
-- The module `re`, for what the source uses of it: a pattern is a sequence of characters of a class,
-- each with a quantifier, and is matched greedily with backtracking. A text is the list of its code
-- points.
use whatsapp_api.Base.{
  ℕ, zero, suc, ◌≡◌, refl, Bool, Option, none, some, Option-cases, List, [], ◌∷◌, ◌++◌, take, ◌⊎◌,
  inl, inr, if◌then◌else◌,
}

-- One piece of a pattern. `group_end` closes the first group, and
-- `at_end` is the end of the text.
pub data Piece : Type 0 where
  once : (ℕ → Bool) → Piece
  maybe : (ℕ → Bool) → Piece
  many : (ℕ → Bool) → Piece
  group_end : Piece
  at_end : Piece

-- The lengths of the first group and of the whole match.
pub record Match : Type 0 where
  pub group : ℕ
  pub whole : ℕ

abbrev Matcher : Type 0
Matcher = List ℕ → Option Match

abbrev pub longer : Option Match → Option Match
longer none = none
longer (some m) = some (record { group = suc m.group; whole = suc m.whole })

abbrev close_group : Option Match → Option Match
close_group none = none
close_group (some m) = some (record { group = 0; whole = m.whole })

abbrev pub or_else : Option Match → Option Match → Option Match
or_else none o = o
or_else (some m) _ = some m

abbrev match_once : (ℕ → Bool) → Matcher → Matcher
match_once p k [] = none
match_once p k (c ∷ s) = if p c then longer (k s) else none

abbrev match_maybe : (ℕ → Bool) → Matcher → Matcher
match_maybe p k [] = k []
match_maybe p k (c ∷ s) = if p c then or_else (longer (k s)) (k (c ∷ s)) else k (c ∷ s)

abbrev pub match_many : (ℕ → Bool) → Matcher → Matcher
match_many p k [] = k []
match_many p k (c ∷ s) =
    let more = match_many p k s in if p c then or_else (longer more) (k (c ∷ s)) else k (c ∷ s)

-- `pattern.match(s)`
unfoldable pub match : List Piece → List ℕ → Option Match
match [] s = some (record { group = 0; whole = 0 })
match (once p ∷ ps) s = match_once p (match ps) s
match (maybe p ∷ ps) s = match_maybe p (match ps) s
match (many p ∷ ps) s = match_many p (match ps) s
match (group_end ∷ ps) s = close_group (match ps s)
match (at_end ∷ ps) s = elim s [ [] ↦ match ps [] | _ ∷ _ ↦ none ]

-- A pattern, and its replacement: `\1` if `keeps_group`, and then a text.
pub record Pattern : Type 0 where
  pub pieces : List Piece
  pub keeps_group : Bool
  pub text : List ℕ

abbrev replacement : Pattern → List ℕ → Match → List ℕ
replacement p s m = if p.keeps_group then take m.group s ++ p.text else p.text

abbrev pub pred : ℕ → ℕ
pred zero = zero
pred (suc n) = n

-- `pattern.sub(replacement, s)`, where the first characters are those of a match that was replaced.
unfoldable pub sub_from : Pattern → ℕ → List ℕ → List ℕ
sub_from p _ [] = []
sub_from p (suc k) (c ∷ s) = sub_from p k s
sub_from p zero (c ∷ s) = elim (match p.pieces (c ∷ s)) [
  | none ↦ c ∷ sub_from p zero s
  | some m ↦ replacement p (c ∷ s) m ++ sub_from p (pred m.whole) s
]

abbrev pub sub : Pattern → List ℕ → List ℕ
sub p s = sub_from p zero s

abbrev pub repeat : ℕ → Piece → List Piece
repeat zero p = []
repeat (suc n) p = p ∷ repeat n p

pub sub_from-match :
    (p : Pattern) (c : ℕ) (s : List ℕ) (m : Match)
    → match p.pieces (c ∷ s) ≡ some m
    → sub_from p zero (c ∷ s) ≡ replacement p (c ∷ s) m ++ sub_from p (pred m.whole) s
unfolding sub_from
sub_from-match p c s m hit = rw (hit, sub_from) refl

-- The two ways of the loop.
pub sub_from-cons :
    (p : Pattern) (c : ℕ) (s : List ℕ)
    → ((match p.pieces (c ∷ s) ≡ none) × (sub_from p zero (c ∷ s) ≡ c ∷ sub_from p zero s))
      ⊎ ((m : Match) × (match p.pieces (c ∷ s) ≡ some m)
          × (sub_from p zero (c ∷ s) ≡ replacement p (c ∷ s) m ++ sub_from p (pred m.whole) s))
unfolding sub_from
sub_from-cons p c s = elim (Option-cases (match p.pieces (c ∷ s))) [
  | inl missed ↦ inl (missed, rw (missed, sub_from) refl)
  | inr (m, hit) ↦ inr (m, hit, sub_from-match p c s m hit)
]
