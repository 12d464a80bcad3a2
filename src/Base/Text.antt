-- ===== src/Base/Text.antt =====
-- The methods of Python's `str` that the source calls. Letters are mapped for ASCII only.
use Prim.Native.Char.{Char, code}
use Prim.Native.String.append
use whatsapp_api.Base.{
  ℕ, ◌+◌, ◌-◌, ◌*◌, ◌≡◌, refl, Bool, true, false, ◌&&◌, ◌||◌, String, ◌<>◌, List, [], ◌∷◌, map,
  arith, leb, ◌==◌, if◌then◌else◌,
}

-- The code points of a text.
abbrev pub codes : String → List ℕ
codes String.[] = []
codes (String.◌∷◌ c s) = code c ∷ codes s

-- `not s`
abbrev pub is_empty : String → Bool
is_empty String.[] = true
is_empty (String.◌∷◌ c s) = false

-- `c.isspace()`
unfoldable pub is_space : ℕ → Bool
is_space c =
    (leb 9 c && leb c 13)
    || (leb 28 c && leb c 32)
    || c == 133
    || c == 160
    || c == 5760
    || (leb 8192 c && leb c 8202)
    || c == 8232
    || c == 8233
    || c == 8239
    || c == 8287
    || c == 12288

lstrip_codes : (ℕ → Bool) → String → String
lstrip_codes p String.[] = String.[]
lstrip_codes p (String.◌∷◌ c s) =
    let rest = lstrip_codes p s in if p (code c) then rest else String.◌∷◌ c s

rstrip_codes : (ℕ → Bool) → String → String
rstrip_codes p String.[] = String.[]
rstrip_codes p (String.◌∷◌ c s) =
    let rest = rstrip_codes p s in
    if is_empty rest && p (code c) then String.[] else String.◌∷◌ c rest

-- `s.strip()`
unfoldable pub strip : String → String
unfolding lstrip_codes rstrip_codes is_space
strip s = rstrip_codes is_space (lstrip_codes is_space s)

-- `s.lstrip("+")`
unfoldable pub lstrip_plus : String → String
unfolding lstrip_codes
lstrip_plus s = lstrip_codes (λ c. c == b'+') s

-- `s.rstrip("/")`
unfoldable pub rstrip_slash : String → String
unfolding rstrip_codes
rstrip_slash s = rstrip_codes (λ c. c == b'/') s

-- The codes of `s.lower()`.
abbrev pub lower : ℕ → ℕ
lower c = if leb b'A' c && leb c b'Z' then c + 32 else c

unfoldable lowered : String → List ℕ
lowered s = map lower (codes s)

abbrev pub same_codes : List ℕ → List ℕ → Bool
same_codes [] [] = true
same_codes (a ∷ cs) (b ∷ ds) = (a == b) && same_codes cs ds
same_codes _ _ = false

-- `s.lower() == t`, for a lower-case `t`.
unfoldable pub lower_eq : String → String → Bool
unfolding lowered
lower_eq s t = same_codes (lowered s) (codes t)

-- `s.upper() == t`, for an upper-case `t`.
abbrev upper : ℕ → ℕ
upper c = if leb b'a' c && leb c b'z' then c - 32 else c

unfoldable pub upper_eq : String → String → Bool
upper_eq s t = same_codes (map upper (codes s)) (codes t)

-- `s.isdigit()`
abbrev pub is_digit : ℕ → Bool
is_digit c = leb b'0' c && leb c b'9'

abbrev pub all_digits : List ℕ → Bool
all_digits [] = true
all_digits (c ∷ cs) = is_digit c && all_digits cs

unfoldable pub isdigit : String → Bool
isdigit s = if is_empty s then false else all_digits (codes s)

-- `int(s)` of a text of digits.
abbrev pub number_from : ℕ → List ℕ → ℕ
number_from acc [] = acc
number_from acc (c ∷ cs) = number_from (acc * 10 + (c - b'0')) cs

-- `s.startswith(t)` on codes, and what follows the prefix.
abbrev pub starts_with : List ℕ → List ℕ → Bool
starts_with s [] = true
starts_with [] (_ ∷ _) = false
starts_with (a ∷ s) (b ∷ t) = (a == b) && starts_with s t

-- What stands after the last underscore: `s.split("_")[-1]`.
abbrev pub last_part : List ℕ → List ℕ → List ℕ
last_part acc [] = acc
last_part acc (c ∷ cs) = if c == b'_' then last_part cs cs else last_part acc cs

-- Stripping a leading plus leaves no leading plus.
lstrip_plus_idem : (s : String) → lstrip_plus (lstrip_plus s) ≡ lstrip_plus s
unfolding lstrip_plus
lstrip_plus_idem String.[] = refl
lstrip_plus_idem (String.◌∷◌ c s) = ground (arith, lstrip_plus_idem s)

abbrev pub no_space : List ℕ → Bool
no_space [] = true
no_space (c ∷ cs) = if is_space c then false else no_space cs

lstrip_of_no_space : (s : String) → no_space (codes s) ≡ true → lstrip_codes is_space s ≡ s
unfolding lstrip_codes
lstrip_of_no_space String.[] h = refl
lstrip_of_no_space (String.◌∷◌ c s) h = ground arith

rstrip_of_no_space : (s : String) → no_space (codes s) ≡ true → rstrip_codes is_space s ≡ s
unfolding rstrip_codes
rstrip_of_no_space String.[] h = refl
rstrip_of_no_space (String.◌∷◌ c s) h = ground (arith, rstrip_of_no_space s)

pub strip_of_no_space : (s : String) → no_space (codes s) ≡ true → strip s ≡ s
unfolding strip
strip_of_no_space s h = rw (lstrip_of_no_space s h) (rstrip_of_no_space s h)

pub all_digits-no_space : (cs : List ℕ) → all_digits cs ≡ true → no_space cs ≡ true
unfolding is_space
all_digits-no_space [] h = refl
all_digits-no_space (c ∷ cs) h = ground (arith, all_digits-no_space cs)

-- A text of digits has no plus to strip.
pub lstrip_plus_of_digits : (s : String) → all_digits (codes s) ≡ true → lstrip_plus s ≡ s
unfolding lstrip_plus
lstrip_plus_of_digits String.[] h = refl
lstrip_plus_of_digits (String.◌∷◌ c s) h = ground arith

pub is_empty-append : (c : Char) (s t : String) → is_empty (String.◌∷◌ c s <> t) ≡ false
is_empty-append c s t = rw (append.cons c s t) refl
