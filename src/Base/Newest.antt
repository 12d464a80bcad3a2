-- ===== src/Base/Newest.antt =====
-- `order_by(created_at.desc())`: rows of the same time stay in the table's order.
use whatsapp_api.Base.{
  ℕ, ◌≤◌, List, [], ◌∷◌, leb, take, drop, zero, suc, arith, if◌then◌else◌, All, if_elim, All-take,
}

module _ {A : Type 0} (time : A → ℕ) where
  abbrev pub insert_newest : A → List A → List A
  insert_newest a [] = a ∷ []
  insert_newest a (x ∷ xs) =
      let rest = insert_newest a xs in if leb (time x) (time a) then a ∷ x ∷ xs else x ∷ rest

  abbrev pub newest_first : List A → List A
  newest_first [] = []
  newest_first (x ∷ xs) = insert_newest x (newest_first xs)

  All-insert : (P : A → Type 0) (a : A) (xs : List A) → P a → All P xs → All P (insert_newest a xs)
  All-insert P a [] h k = (h, tt)
  All-insert P a (x ∷ xs) h k =
      if_elim (All P) (leb (time x) (time a)) (λ _. (h, k)) (λ _. (k.0, All-insert P a xs h k.1))

  pub All-newest_first : (P : A → Type 0) (xs : List A) → All P xs → All P (newest_first xs)
  All-newest_first P [] h = tt
  All-newest_first P (x ∷ xs) h = All-insert P x (newest_first xs) h.0 (All-newest_first P xs h.1)

  -- No row stands before a newer one.
  abbrev pub IsNewestFirst : List A → Type 0
  IsNewestFirst [] = Unit
  IsNewestFirst (x ∷ xs) = All (λ y. time y ≤ time x) xs × IsNewestFirst xs

  All-le : (m n : ℕ) (xs : List A) → n ≤ m → All (λ y. time y ≤ n) xs → All (λ y. time y ≤ m) xs
  All-le m n [] h k = tt
  All-le m n (x ∷ xs) h k = (omega (arith, h, k.0), All-le m n xs h k.1)

  IsNewestFirst-insert :
      (a : A) (xs : List A) → IsNewestFirst xs → IsNewestFirst (insert_newest a xs)
  IsNewestFirst-insert a [] h = (tt, tt)
  IsNewestFirst-insert a (x ∷ xs) h =
      if_elim IsNewestFirst (leb (time x) (time a))
        (λ le. ((ground (arith, le), All-le (time a) (time x) xs (ground (arith, le)) h.0), h))
        (λ gt. (
          All-insert (λ y. time y ≤ time x) a xs (ground (arith, gt)) h.0,
          IsNewestFirst-insert a xs h.1,
        ))

  pub newest_first-IsNewestFirst : (xs : List A) → IsNewestFirst (newest_first xs)
  newest_first-IsNewestFirst [] = tt
  newest_first-IsNewestFirst (x ∷ xs) =
      IsNewestFirst-insert x (newest_first xs) (newest_first-IsNewestFirst xs)

  pub IsNewestFirst-take : (n : ℕ) (xs : List A) → IsNewestFirst xs → IsNewestFirst (take n xs)
  IsNewestFirst-take zero xs h = tt
  IsNewestFirst-take (suc n) [] h = tt
  IsNewestFirst-take (suc n) (x ∷ xs) h =
      (All-take (λ y. time y ≤ time x) n xs h.0, IsNewestFirst-take n xs h.1)

  pub IsNewestFirst-drop : (n : ℕ) (xs : List A) → IsNewestFirst xs → IsNewestFirst (drop n xs)
  IsNewestFirst-drop zero xs h = h
  IsNewestFirst-drop (suc n) [] h = tt
  IsNewestFirst-drop (suc n) (x ∷ xs) h = IsNewestFirst-drop n xs h.1
