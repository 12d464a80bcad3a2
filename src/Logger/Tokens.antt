-- ===== src/Logger/Tokens.antt =====
-- The access tokens of Meta in a log message: after the masking none is left.
use whatsapp_api.Base.{
  ℕ, zero, suc, ◌≤◌, ◌≡◌, refl, sym, ◌∙◌, ap, Bool, true, false, ◌&&◌, ◌||◌, Option, none, some,
  List, [], ◌∷◌, ◌++◌, leb, ◌==◌, arith, if◌then◌else◌, if_elim, inl, inr, ◌⊎◌, ◌≢◌, exists, String,
  map, All,
}
use whatsapp_api.Base.Text.{codes}
use whatsapp_api.Base.Regex.{
  Piece, once, many, group_end, Match, longer, match, match_many, or_else, repeat, sub_from,
  sub_from-cons, pred,
}
use whatsapp_api.Logger.{
  alphanumeric, token_pattern, text, mask, other, LogRecord, patcher, LogValue,
}

module _ (p : ℕ → Bool) where
  -- How many characters of a class stand in front.
  abbrev run : List ℕ → ℕ
  run [] = 0
  run (c ∷ s) = let more = run s in if p c then suc more else 0

-- Does a token stand in front: `EAA`, and 20 letters or digits at least?
abbrev is_token : List ℕ → Bool
is_token (a ∷ b ∷ c ∷ s) = a == b'E' && (b == b'A' && (c == b'A' && leb 20 (run alphanumeric s)))
is_token _ = false

-- Does one stand anywhere?
abbrev has_token : List ℕ → Bool
has_token [] = false
has_token (c ∷ s) = is_token (c ∷ s) || has_token s

true≢false : true ≢ false
true≢false h = cc

abbrev found : Option Match → Bool
found none = false
found (some _) = true

found-longer : (o : Option Match) → found (longer o) ≡ found o
found-longer none = refl
found-longer (some m) = refl

module _ (p : ℕ → Bool) where
  module _ (k : List ℕ → Option Match) (always : (s : List ℕ) → found (k s) ≡ true) where
    found-or_else : (o : Option Match) (s : List ℕ) → found (or_else o (k s)) ≡ true
    found-or_else none s = always s
    found-or_else (some m) s = refl

    found-match_many : (s : List ℕ) → found (match_many p k s) ≡ true
    found-match_many [] = always []
    found-match_many (c ∷ s) =
        if_elim (λ o. found o ≡ true) (p c) (λ _. found-or_else (longer (match_many p k s)) (c ∷ s))
          (λ _. always (c ∷ s))

  found-repeat :
      (rest : List Piece) (always : (s : List ℕ) → found (match rest s) ≡ true) (n : ℕ) (s : List ℕ)
      → found (match (repeat n (once p) ++ rest) s) ≡ leb n (run p s)
  unfolding match
  found-repeat rest always zero s = always s ∙ ground arith
  found-repeat rest always (suc n) [] = ground arith
  found-repeat rest always (suc n) (c ∷ s) =
      ground
        (arith, found-longer (match (repeat n (once p) ++ rest) s), found-repeat rest always n s)

found-if :
    (b : Bool) (o : Option Match) (x : Bool)
    → found o ≡ x
    → found (if b then longer o else none) ≡ (b && x)
found-if true o x h = found-longer o ∙ h
found-if false o x h = refl

-- The pattern matches in front of a text exactly where a token stands there.
found-match : (s : List ℕ) → found (match token_pattern.pieces s) ≡ is_token s
unfolding match
found-match (a ∷ b ∷ c ∷ s) = found-if (a == b'E') _ _ (
    found-if (b == b'A') _ _ (
      found-if (c == b'A') _ _ (
        found-repeat alphanumeric (many alphanumeric ∷ group_end ∷ [])
          (found-match_many alphanumeric (match (group_end ∷ [])) (λ _. refl)) 20 s)))
found-match _ = ground arith

abbrev kept : List ℕ → List ℕ
kept s = sub_from token_pattern zero s

-- Where a token stands in front it is replaced, and elsewhere the character is kept.
masked_cons :
    (c : ℕ) (s : List ℕ)
    → ((is_token (c ∷ s) ≡ true)
        × (k : ℕ) × (kept (c ∷ s) ≡ token_pattern.text ++ sub_from token_pattern k s))
      ⊎ ((is_token (c ∷ s) ≡ false) × (kept (c ∷ s) ≡ c ∷ kept s))
masked_cons c s = elim (sub_from-cons token_pattern c s) [
  | inl (missed, e) ↦ inr (sym (found-match (c ∷ s)) ∙ ap found missed, e)
  | inr (m, hit, e) ↦ inl (sym (found-match (c ∷ s)) ∙ ap found hit, pred m.whole, e)
]

token-run-le : (s : List ℕ) → is_token s ≡ true → 3 ≤ run alphanumeric s
token-run-le (a ∷ b ∷ c ∷ s) h = ground arith
token-run-le [] h = cc
token-run-le (a ∷ []) h = cc
token-run-le (a ∷ b ∷ []) h = cc

run-cons-le :
    (p : ℕ → Bool) (c : ℕ) (s t : List ℕ) → run p s ≤ run p t → run p (c ∷ s) ≤ run p (c ∷ t)
run-cons-le p c s t h = ground arith

-- The masking makes no run of letters and digits longer.
run-le : (s : List ℕ) → run alphanumeric (kept s) ≤ run alphanumeric s
unfolding sub_from
run-le [] = omega arith
run-le (c ∷ s) = elim (masked_cons c s) [
  | inl (token, k, e) ↦ rw e (token-run-le (c ∷ s) token)
  | inr (plain, e) ↦ rw e (run-cons-le alphanumeric c (kept s) s (run-le s))
]

-- What stands behind the first letter of a token.
abbrev token_tail : List ℕ → Bool
token_tail (b ∷ c ∷ s) = b == b'A' && (c == b'A' && leb 20 (run alphanumeric s))
token_tail _ = false

is_token-tail : (a : ℕ) (s : List ℕ) → is_token (a ∷ s) ≡ (a == b'E' && token_tail s)
is_token-tail a (b ∷ c ∷ s) = refl
is_token-tail a [] = ground arith
is_token-tail a (b ∷ []) = ground arith

token_tail-run :
    (b c : ℕ) (s t : List ℕ)
    → run alphanumeric s ≤ run alphanumeric t
    → token_tail (b ∷ c ∷ s) ≡ true
    → token_tail (b ∷ c ∷ t) ≡ true
token_tail-run b c s t le h = go (run alphanumeric s) (run alphanumeric t) le h
  where
    go :
        (m n : ℕ)
        → m ≤ n
        → (b == b'A' && (c == b'A' && leb 20 m)) ≡ true
        → (b == b'A' && (c == b'A' && leb 20 n)) ≡ true
    go m n k e = ground arith

replaced-tail :
    (c : ℕ) (k : ℕ) (s : List ℕ)
    → token_tail (c ∷ token_pattern.text ++ sub_from token_pattern k s) ≡ false
replaced-tail c k s = ground arith

-- Where the masked text goes on like a token, the text does.
token_tail-kept : (s : List ℕ) → token_tail (kept s) ≡ true → token_tail s ≡ true
unfolding sub_from
token_tail-kept [] h = cc
token_tail-kept (b ∷ []) h = elim (masked_cons b []) [
  | inl (token, k, e) ↦ absurd (true≢false (sym h ∙ ap token_tail e))
  | inr (plain, e) ↦ absurd (true≢false (sym h ∙ ap token_tail e))
]
token_tail-kept (b ∷ c ∷ s) h = elim (masked_cons b (c ∷ s)) [
  | inl (token, k, e) ↦ absurd (true≢false (sym h ∙ ap token_tail e))
  | inr (plain, e) ↦ elim (masked_cons c s) [
    | inl (token, k, e') ↦
        absurd (true≢false (sym h ∙ ap token_tail (e ∙ ap (λ t. b ∷ t) e') ∙ replaced-tail b k s))
    | inr (plain2, e') ↦
        token_tail-run b c (kept s) s (run-le s) (sym (ap token_tail (e ∙ ap (λ t. b ∷ t) e')) ∙ h)
  ]
]

-- No token begins in a text without `E`.
has_token-append :
    (ls s : List ℕ) → exists (λ c. c == b'E') ls ≡ false → has_token (ls ++ s) ≡ has_token s
has_token-append [] s h = refl
has_token-append (c ∷ ls) s h = ground (arith, is_token-tail c (ls ++ s), has_token-append ls s)

has_token-text : (s : List ℕ) → has_token (token_pattern.text ++ s) ≡ has_token s
has_token-text s =
    has_token-append (codes "AA***MASK") (codes "ED***" ++ s) refl
    ∙ has_token-append (codes "D***") s refl

has_token-sub_from : (k : ℕ) (s : List ℕ) → has_token (sub_from token_pattern k s) ≡ false
unfolding sub_from
has_token-sub_from k [] = refl
has_token-sub_from (suc k) (c ∷ s) = has_token-sub_from k s
has_token-sub_from zero (c ∷ s) = elim (masked_cons c s) [
  | inl (token, k, e) ↦
      ap has_token e ∙ has_token-text (sub_from token_pattern k s) ∙ has_token-sub_from k s
  | inr (plain, e) ↦ ap has_token e ∙ kept_cons c s plain (has_token-sub_from zero s)
]
  where
    kept_cons :
        (c : ℕ) (s : List ℕ)
        → is_token (c ∷ s) ≡ false
        → has_token (kept s) ≡ false
        → has_token (c ∷ kept s) ≡ false
    kept_cons c s plain h =
        ground (arith, is_token-tail c s, is_token-tail c (kept s), token_tail-kept s)

-- A value that is a text with a token in it is none of these.
abbrev pub IsClean {ℓ} : {A : Type ℓ} → LogValue A → Type 0
IsClean (text t) = has_token t ≡ false
IsClean (other v) = Unit

mask-IsClean : {A : Type 0} (v : LogValue A) → IsClean (mask v)
unfolding mask
mask-IsClean (text s) = has_token-sub_from zero _
mask-IsClean (other v) = tt

map-IsClean :
    {A : Type 0} (kvs : List (String × LogValue A))
    → All (λ (kv : String × LogValue A). IsClean kv.1) (map (λ (k, v). (k, mask v)) kvs)
map-IsClean [] = tt
map-IsClean ((k, v) ∷ kvs) = (mask-IsClean v, map-IsClean kvs)

-- Whatever a log record holds, the masked record has no access token of Meta in its message, nor
-- in a text of its `extra`.
pub patcher-IsClean :
    {A : Type 0} (r : LogRecord A)
    → IsClean (patcher r).message
      × All (λ (kv : String × LogValue A). IsClean kv.1) (patcher r).extra
unfolding patcher
patcher-IsClean r = (mask-IsClean r.message, map-IsClean r.extra)
