-- ===== src/Base/Keeps.antt =====
-- Invariants of actions: one rule for each way to build an action.
use whatsapp_api.Base.{◌≡◌, refl, Bool, true, false, Option, none, some, if◌then◌else◌}
use whatsapp_api.Base.Exec.{
  Result, ok, err, Action, pure, raise, gets, lift, or_raise, modify, raise_if, ◌>>=◌, ◌>>◌,
}
use whatsapp_api.Base.Ensures.{Outcome}
use whatsapp_api.Errors.{Error}

-- `m` keeps `P`, whether it returns or raises.
pub record Keeps {S A : Type 0} (P : S → Type 0) (m : Action S A) : Type 0 where
  pub at : (s : S) → P s → P (m s).1

module _ {S A : Type 0} {P : S → Type 0} where
  pub Keeps-pure : (a : A) → Keeps P (pure a)
  Keeps-pure a = record { at = λ s h. h }

  pub Keeps-raise : (e : Error) → Keeps P (raise {A = A} e)
  Keeps-raise e = record { at = λ s h. h }

  pub Keeps-lift : (r : Result A) → Keeps P (lift r)
  Keeps-lift r = record { at = λ s h. h }

  pub Keeps-gets : (f : S → A) → Keeps P (gets f)
  Keeps-gets f = record { at = λ s h. h }

  pub Keeps-or_raise : (o : Option A) (e : Error) → Keeps P (or_raise o e)
  Keeps-or_raise none e = record { at = λ s h. h }
  Keeps-or_raise (some a) e = record { at = λ s h. h }

  pub Keeps-if :
      (b : Bool) (m n : Action S A) → Keeps P m → Keeps P n → Keeps P (if b then m else n)
  Keeps-if true m n km kn = km
  Keeps-if false m n km kn = kn

  -- What follows a guard may use that the guard passed.
  pub Keeps-raise_if :
      (b : Bool) (e : Error) (k : Action S A)
      → (b ≡ false → Keeps P k)
      → Keeps P (raise_if b e >> k)
  Keeps-raise_if true e k h = record { at = λ s g. g }
  Keeps-raise_if false e k h = h refl

pub Keeps-guard :
    {S : Type 0} {P : S → Type 0} (b : Bool) (e : Error) → Keeps P (raise_if {S = S} b e)
Keeps-guard true e = record { at = λ s h. h }
Keeps-guard false e = record { at = λ s h. h }

pub Keeps-modify :
    {S : Type 0} {P : S → Type 0} (f : S → S) → ((s : S) → P s → P (f s)) → Keeps P (modify f)
Keeps-modify f h = record { at = h }

module _ {S A B : Type 0} {P : S → Type 0} where
  Keeps-after :
      (r : Result A) (f : A → Action S B) → ((a : A) → Keeps P (f a)) → Keeps P (lift r >>= f)
  Keeps-after (ok a) f kf = kf a
  Keeps-after (err e) f kf = Keeps-raise e

  pub Keeps-bind :
      (m : Action S A) (f : A → Action S B)
      → Keeps P m
      → ((a : A) → Keeps P (f a))
      → Keeps P (m >>= f)
  Keeps-bind m f km kf = record {
    at = λ s h. let (r, u) = m s in (Keeps-after r f kf).at u (km.at s h);
  }

-- `m` keeps `P`, and what it returns is in `Q`.
pub record Yields {S A : Type 0} (P : S → Type 0) (Q : A → Type 0) (m : Action S A) : Type 0 where
  pub yields : (s : S) → P s → Outcome (λ a u. Q a × P u) (λ _ u. P u) (m s)

module _ {S A : Type 0} {P : S → Type 0} {Q : A → Type 0} where
  pub Yields-pure : (a : A) → Q a → Yields P Q (pure a)
  Yields-pure a q = record { yields = λ s h. (q, h) }

  pub Yields-raise : (e : Error) → Yields P Q (raise e)
  Yields-raise e = record { yields = λ s h. h }

  pub Yields-if :
      (b : Bool) (m n : Action S A) → Yields P Q m → Yields P Q n → Yields P Q (if b then m else n)
  Yields-if true m n ym yn = ym
  Yields-if false m n ym yn = yn

  -- A value that is read in a state in which it is in `Q`.
  pub Yields-query :
      (r : S → Result A) → ((s : S) → P s → (a : A) → r s ≡ ok a → Q a) → Yields P Q (λ s. (r s, s))
  Yields-query r known = record { yields = λ s h. go s (r s) (known s h) h }
    where
      go :
          (s : S) (o : Result A)
          → ((a : A) → o ≡ ok a → Q a)
          → P s
          → Outcome (λ a u. Q a × P u) (λ _ u. P u) (o, s)
      go s (ok a) k h = (k a refl, h)
      go s (err e) k h = h

module _ {S A B : Type 0} {P : S → Type 0} {Q : B → Type 0} where
  Yields-after :
      (r : Result A) (f : A → Action S B) → ((a : A) → Yields P Q (f a)) → Yields P Q (lift r >>= f)
  Yields-after (ok a) f yf = yf a
  Yields-after (err e) f yf = Yields-raise e

  pub Yields-bind :
      (m : Action S A) (f : A → Action S B)
      → Keeps P m
      → ((a : A) → Yields P Q (f a))
      → Yields P Q (m >>= f)
  Yields-bind m f km yf = record {
    yields = λ s h. let (r, u) = m s in (Yields-after r f yf).yields u (km.at s h);
  }

module _ {S A B : Type 0} {P : S → Type 0} where
  -- What follows may use what holds of the value that was returned.
  pub Keeps-from :
      (Q : A → Type 0) (m : Action S A) (f : A → Action S B)
      → Yields P Q m
      → ((a : A) → Q a → Keeps P (f a))
      → Keeps P (m >>= f)
  Keeps-from Q m f ym kf = record { at = λ s h. go (m s) (ym.yields s h) }
    where
      go :
          (p : Result A × S)
          → Outcome (λ a u. Q a × P u) (λ _ u. P u) p
          → P ((lift p.0 >>= f) p.1).1
      go (ok a, u) k = (kf a k.0).at u k.1
      go (err e, u) k = k

pub ruleset keeps_rules = (
  Keeps-pure, Keeps-raise, Keeps-lift, Keeps-gets, Keeps-or_raise, Keeps-if, Keeps-raise_if,
  Keeps-guard, Keeps-bind,
)

pub ruleset yields_rules = (Yields-pure, Yields-raise, Yields-if, Yields-bind)
