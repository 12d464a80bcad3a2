-- ===== src/Tasks/Delivery/Order.antt =====
-- The order of the parameters of a template's body.
use whatsapp_api.Base.{
  ℕ, ◌≤◌, ◌≡◌, refl, List, [], ◌∷◌, String, select, ◌==◌, leb, arith, All, if_elim, if◌then◌else◌,
  ap, ◌∙◌,
}
use whatsapp_api.Json.{Json}
use whatsapp_api.Tasks.Delivery.{position, insert_variable, ordered}

abbrev Variable : Type 0
Variable = String × Json

abbrev IsSorted : List Variable → Type 0
IsSorted [] = Unit
IsSorted (v ∷ vs) = All (λ x. position v ≤ position x) vs × IsSorted vs

abbrev at_position : ℕ → List Variable → List Variable
at_position n = select (λ v. position v == n)

All-insert :
    (P : Variable → Type 0) (v : Variable) (vs : List Variable)
    → P v
    → All P vs
    → All P (insert_variable v vs)
All-insert P v [] h k = (h, tt)
All-insert P v (x ∷ xs) h k =
    if_elim (All P) (leb (position v) (position x)) (λ _. (h, k))
      (λ _. (k.0, All-insert P v xs h k.1))

All-le :
    (m n : ℕ) (vs : List Variable)
    → m ≤ n
    → All (λ x. n ≤ position x) vs
    → All (λ x. m ≤ position x) vs
All-le m n [] h k = tt
All-le m n (x ∷ xs) h k = (omega (arith, h, k.0), All-le m n xs h k.1)

IsSorted-insert :
    (v : Variable) (vs : List Variable) → IsSorted vs → IsSorted (insert_variable v vs)
IsSorted-insert v [] h = (tt, tt)
IsSorted-insert v (x ∷ xs) h =
    if_elim IsSorted (leb (position v) (position x))
      (λ le.
        ((ground (arith, le), All-le (position v) (position x) xs (ground (arith, le)) h.0), h))
      (λ gt. (
        All-insert (λ y. position x ≤ position y) v xs (ground (arith, gt)) h.0,
        IsSorted-insert v xs h.1,
      ))

at_position-insert :
    (n : ℕ) (v : Variable) (vs : List Variable)
    → at_position n (insert_variable v vs) ≡ at_position n (v ∷ vs)
at_position-insert n v [] = refl
at_position-insert n v (x ∷ xs) = ground (arith, at_position-insert n v xs)

IsSorted-ordered : (vs : List Variable) → IsSorted (ordered vs)
IsSorted-ordered [] = tt
IsSorted-ordered (v ∷ vs) = IsSorted-insert v (ordered vs) (IsSorted-ordered vs)

at_position-ordered : (n : ℕ) (vs : List Variable) → at_position n (ordered vs) ≡ at_position n vs
at_position-ordered n [] = refl
at_position-ordered n (v ∷ vs) =
    at_position-insert n v (ordered vs)
    ∙ ap (λ rest. if position v == n then v ∷ rest else rest) (at_position-ordered n vs)

-- The variables of a body stand in the order of the numbers that their names end in, those without
-- one as if it were 999. None is lost or added: at each number stand the same variables as
-- before, in the same order.
ordered_lem :
    (vs : List Variable)
    → IsSorted (ordered vs) × ((n : ℕ) → at_position n (ordered vs) ≡ at_position n vs)
ordered_lem vs = (IsSorted-ordered vs, λ n. at_position-ordered n vs)
