-- ===== src/Store/Rows.antt =====
-- What holds of every row of a table, of the rows that are written back and of those that are found.
use whatsapp_api.Base.{
  ℕ, ◌≡◌, Bool, Option, none, some, List, [], ◌∷◌, ◌++◌, All, find, select, if_elim, subst, ◌==◌,
}
use whatsapp_api.Base.Exec.{ok, ok-injective}
use whatsapp_api.Store.{replace, one_or_none}

module _ {A : Type 0} (P : A → Type 0) where
  pub All-append : (xs ys : List A) → All P xs → All P ys → All P (xs ++ ys)
  All-append [] ys h k = k
  All-append (x ∷ xs) ys h k = (h.0, All-append xs ys h.1 k)

  pub All-snoc : (x : A) (xs : List A) → P x → All P xs → All P (xs ++ (x ∷ []))
  All-snoc x xs h k = All-append xs (x ∷ []) k (h, tt)

  pub All-replace : (id : A → ℕ) (r : A) (xs : List A) → P r → All P xs → All P (replace id r xs)
  All-replace id r [] h k = tt
  All-replace id r (x ∷ xs) h k =
      (if_elim P (id x == id r) (λ _. h) (λ _. k.0), All-replace id r xs h k.1)

  -- What a query finds is in the table.
  abbrev pub Found : Option A → Type 0
  Found none = Unit
  Found (some a) = P a

  pub Found-find : (p : A → Bool) (xs : List A) → All P xs → Found (find p xs)
  Found-find p [] h = tt
  Found-find p (x ∷ xs) h = if_elim Found (p x) (λ _. h.0) (λ _. Found-find p xs h.1)

  All-where : (p : A → Bool) (xs : List A) → All P xs → All P (select p xs)
  All-where p [] h = tt
  All-where p (x ∷ xs) h =
      if_elim (All P) (p x) (λ _. (h.0, All-where p xs h.1)) (λ _. All-where p xs h.1)

  pub Found-one :
      (p : A → Bool) (xs : List A)
      → All P xs
      → (o : Option A) → one_or_none (select p xs) ≡ ok o
      → Found o
  Found-one p xs h o found = go (select p xs) (All-where p xs h) found
    where
      go : (ys : List A) → All P ys → one_or_none ys ≡ ok o → Found o
      go [] k e = subst Found (ok-injective none o e) tt
      go (y ∷ []) k e = subst Found (ok-injective (some y) o e) k.0
      go (y ∷ z ∷ ys) k e = cc
