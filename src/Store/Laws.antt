-- ===== src/Store/Laws.antt =====
-- Rows that are found by id, after a row was written back.
use whatsapp_api.Base.{
  ◌++◌, ◌&&◌, Bool, false, if◌then◌else◌, ℕ, ◌≡◌, refl, ◌≢◌, some, List, [], ◌∷◌, arith, true,
  length, suc, ap,
}
use whatsapp_api.Base.{append-nil}
use whatsapp_api.Base.Exec.{ok, err}
use whatsapp_api.Base.Ensures.{Ensures}
use whatsapp_api.Errors.{type_error}
use whatsapp_api.Models.{Message}
use whatsapp_api.Store.{Db, find_by, replace, all_storable, flush}

module _ {A : Type 0} (id : A → ℕ) where
  -- A row that was written back is found under its id.
  pub find_by-replace_self :
      (r old : A) (xs : List A)
      → find_by id (id r) xs ≡ some old
      → find_by id (id r) (replace id r xs) ≡ some r
  find_by-replace_self r old [] h = cc
  find_by-replace_self r old (x ∷ xs) h = ground (arith, find_by-replace_self r old xs)

  -- Another row is found as it was.
  pub find_by-replace_ne :
      (k : ℕ) (r : A) (xs : List A) → id r ≢ k → find_by id k (replace id r xs) ≡ find_by id k xs
  find_by-replace_ne k r [] h = refl
  find_by-replace_ne k r (x ∷ xs) h = ground (arith, find_by-replace_ne k r xs h)

  -- The row that a lookup finds has the id that was asked for.
  pub find_by-id : (k : ℕ) (r : A) (xs : List A) → find_by id k xs ≡ some r → id r ≡ k
  find_by-id k r [] h = cc
  find_by-id k r (x ∷ xs) h = ground (arith, find_by-id k r xs)

  -- The same, for a row whose id did not change.
  pub find_by-replace_found :
      (k : ℕ) (r old : A) (xs : List A)
      → find_by id k xs ≡ some old
      → id r ≡ id old
      → find_by id k (replace id r xs) ≡ some r
  find_by-replace_found k r old [] found same = cc
  find_by-replace_found k r old (x ∷ xs) found same =
      ground (arith, find_by-replace_found k r old xs)

  -- Writing a row back twice is writing it once.
  replace-replace : (r : A) (xs : List A) → replace id r (replace id r xs) ≡ replace id r xs
  replace-replace r [] = refl
  replace-replace r (x ∷ xs) = ground (arith, replace-replace r xs)

  -- The last of two rows that are written back under one id stays.
  pub replace-replace_last :
      (r q : A) (xs : List A) → id r ≡ id q → replace id r (replace id q xs) ≡ replace id r xs
  replace-replace_last r q [] same = refl
  replace-replace_last r q (x ∷ xs) same = ground (arith, replace-replace_last r q xs same)

  length-replace : (r : A) (xs : List A) → length (replace id r xs) ≡ length xs
  length-replace r [] = refl
  length-replace r (x ∷ xs) = ap suc (length-replace r xs)

-- A session with nothing to flush that the driver would refuse.
pub record IsClean (s : Db) : Type 0 where
  pub nothing_pending : s.pending ≡ []
  pub storable : all_storable s.messages ≡ true

pub flush_clean : (s : Db) → IsClean s → flush s ≡ (ok tt, s)
unfolding flush
flush_clean s c = rw (c.storable, c.nothing_pending, append-nil)

all_storable-append :
    (ms ps : List Message)
    → (all_storable ms && all_storable ps) ≡ true
    → all_storable (ms ++ ps) ≡ true
all_storable-append [] ps h = h
all_storable-append (m ∷ ms) ps h = ground (arith, all_storable-append ms ps)

-- The two tables that a campaign's sends write, in `u` as in `s`.
pub record SameWork (s u : Db) : Type 0 where
  pub recipients_eq : u.recipients ≡ s.recipients
  pub campaigns_eq : u.campaigns ≡ s.campaigns

-- A flush that raises nothing leaves nothing to flush.
pub flush-Ensures : (s : Db) → Ensures (λ _ u. IsClean u × SameWork s u) (flush s)
unfolding flush
flush-Ensures s = go (all_storable s.messages && all_storable s.pending) refl
  where
    go :
        (b : Bool)
        → (all_storable s.messages && all_storable s.pending) ≡ b
        → Ensures {S = Db} {A = Unit {0}}
            (λ _ u. IsClean u × SameWork s u)
            (if b
              then (ok tt, record s { messages = s.messages ++ s.pending; pending = [] })
              else (err type_error, s))
    go true h = (
      record { nothing_pending = refl; storable = all_storable-append s.messages s.pending h },
      record { recipients_eq = refl; campaigns_eq = refl },
    )
    go false h = tt
