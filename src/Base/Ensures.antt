-- ===== src/Base/Ensures.antt =====
-- What holds after an action that returned. An action that raised says nothing.
use whatsapp_api.Base.Exec.{Result, ok, err, Action, ◌>>=◌, after}
use whatsapp_api.Errors.{Error}

abbrev pub Ensures : {S A : Type 0} → (A → S → Type 0) → Result A × S → Type 0
Ensures Q (ok a, u) = Q a u
Ensures Q (err _, _) = Unit

-- The steps of a proof in their order: what the first action ensures, then what follows it.
pub Ensures-bind :
    {S A B : Type 0} (Q : A → S → Type 0) (R : B → S → Type 0) (m : Action S A) (f : A → Action S B)
    (s : S)
    → Ensures Q (m s)
    → ((a : A) (u : S) → Q a u → Ensures R (f a u))
    → Ensures R ((m >>= f) s)
Ensures-bind {S} {A} {B} Q R m f s h k = go (m s) h
  where
    go : (p : Result A × S) → Ensures Q p → Ensures R (after p.0 f p.1)
    go (ok a, u) h = k a u h
    go (err e, u) h = tt

pub Ensures-map :
    {S A : Type 0} (Q R : A → S → Type 0) (p : Result A × S)
    → Ensures Q p
    → ((a : A) (u : S) → Q a u → R a u)
    → Ensures R p
Ensures-map Q R (ok a, u) h k = k a u h
Ensures-map Q R (err e, u) h k = tt

-- What holds after an action in either case: `Q` where it returned, `E` where it raised.
abbrev pub Outcome :
    {S A : Type 0} → (A → S → Type 0) → (Error → S → Type 0) → Result A × S → Type 0
Outcome Q E (ok a, u) = Q a u
Outcome Q E (err e, u) = E e u

pub outcome_bind :
    {S A B : Type 0} (Q : A → S → Type 0) (R : B → S → Type 0) (E : Error → S → Type 0)
    (m : Action S A) (f : A → Action S B) (s : S)
    → Outcome Q E (m s)
    → ((a : A) (u : S) → Q a u → Outcome R E (f a u))
    → Outcome R E ((m >>= f) s)
outcome_bind {S} {A} {B} Q R E m f s h k = go (m s) h
  where
    go : (p : Result A × S) → Outcome Q E p → Outcome R E (after p.0 f p.1)
    go (ok a, u) h = k a u h
    go (err e, u) h = h
