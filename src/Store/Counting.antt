-- ===== src/Store/Counting.antt =====
-- How many rows pass a test, after a row was written back.
use whatsapp_api.Base.{
  ℕ, ◌+◌, ◌≡◌, refl, Bool, true, false, none, some, List, [], ◌∷◌, ◌++◌, arith, subst, sym, ◌==◌,
  if◌then◌else◌,
}
use whatsapp_api.Store.{find_by, replace}

abbrev pub bit : Bool → ℕ
bit true = 1
bit false = 0

abbrev pub count : {A : Type 0} → (A → Bool) → List A → ℕ
count p [] = 0
count p (x ∷ xs) = bit (p x) + count p xs

module _ {A : Type 0} (id : A → ℕ) where
  -- No two rows have the same id.
  abbrev pub Unique : List A → Type 0
  Unique [] = Unit
  Unique (x ∷ xs) = (find_by id (id x) xs ≡ none) × Unique xs

  pub replace-absent : (r : A) (xs : List A) → find_by id (id r) xs ≡ none → replace id r xs ≡ xs
  replace-absent r [] h = refl
  replace-absent r (x ∷ xs) h = ground (arith, replace-absent r xs)

  pub find_by-replace-none :
      (k : ℕ) (r : A) (xs : List A) → find_by id k xs ≡ none → find_by id k (replace id r xs) ≡ none
  find_by-replace-none k r [] h = refl
  find_by-replace-none k r (x ∷ xs) h = ground (arith, find_by-replace-none k r xs)

  pub Unique-replace : (r : A) (xs : List A) → Unique xs → Unique (replace id r xs)
  Unique-replace r [] h = tt
  Unique-replace r (x ∷ xs) h = (
    subst (λ k. find_by id k (replace id r xs) ≡ none) (sym head_id)
        (find_by-replace-none (id x) r xs h.0),
    Unique-replace r xs h.1,
  )
    where
      head_id : id (if id x == id r then r else x) ≡ id x
      head_id = ground arith

  -- The count moves by the row alone.
  pub count-replace :
      (p : A → Bool) (k : ℕ) (r old : A) (xs : List A)
      → Unique xs
      → find_by id k xs ≡ some old
      → id r ≡ k
      → count p (replace id r xs) + bit (p old) ≡ count p xs + bit (p r)
  count-replace p k r old [] u h e = cc
  count-replace p k r old (x ∷ xs) u h e =
      ground (arith, count-replace p k r old xs, replace-absent r xs)

  -- A row that was added last, written back under its fresh id.
  pub replace-snoc :
      (r q : A) (xs : List A)
      → id q ≡ id r
      → find_by id (id r) xs ≡ none
      → replace id r (xs ++ (q ∷ [])) ≡ xs ++ (r ∷ [])
  replace-snoc r q [] same h = ground arith
  replace-snoc r q (x ∷ xs) same h = ground (arith, replace-snoc r q xs same)
