-- ===== src/Utils/Retry/Laws.antt =====
-- How often a retried call runs, and what it returns.
use whatsapp_api.Base.{
  ℕ, zero, suc, ◌^◌, ◌+◌, ◌-◌, ◌*◌, ◌≤◌, ◌<◌, ◌≡◌, refl, sym, ap, subst, ◌∙◌, true, false, ◌==◌,
  if◌then◌else◌, arith, min,
}
use native.Mathlib.Nat.{pow-suc, mul_assoc}
use whatsapp_api.Base.Exec.{Result, ok, err, Action}
use whatsapp_api.Utils.Retry.{Policy, backoff, pause, retry_from, with_retry}

suc-sub-one : (n : ℕ) → suc n - 1 ≡ n
suc-sub-one n = omega arith

-- No delay before jitter is longer than `max_delay`, and each is twice the one before until then.
backoff_doubles :
    (p : Policy) (k : ℕ)
    → (backoff p (suc k) ≤ p.max_delay)
      × (backoff p (suc (suc k)) ≡ min p.max_delay (2 * backoff p (suc k)))
unfolding backoff
backoff_doubles p k =
    simp (suc-sub-one, pow-suc) (omega arith, omega (arith, mul_assoc p.base_delay (2 ^ k) 2))

suc-ne-zero : (n : ℕ) → (suc n == 0) ≡ false
suc-ne-zero n = ground arith

-- A result after which no attempt follows.
abbrev pub IsFinal : {A : Type 0} → Policy → Result A → Type 0
IsFinal p (ok _) = Unit
IsFinal p (err e) = p.retry_on e ≡ false

-- An error that is retried.
abbrev pub IsTransient : {A : Type 0} → Policy → Result A → Type 0
IsTransient p (ok _) = ⊥
IsTransient p (err e) = p.retry_on e ≡ true

module _ {S A : Type 0} (p : Policy) (uniform : ℕ → S → ℕ × S) (sleep : ℕ → S → S)
    (fn : Action S A) where
  abbrev finish : ℕ → Result A × S → Result A × S
  finish left (ok a, s') = (ok a, s')
  finish left (err e, s') =
      let again =
        retry_from p uniform sleep fn left (pause p uniform sleep fn (p.attempts - left) s') in
      if p.retry_on e then (if left == 0 then (err e, s') else again) else (err e, s')

  retry_from_step :
      (left : ℕ) (s : S) → retry_from p uniform sleep fn (suc left) s ≡ finish left (fn s)
  unfolding retry_from
  retry_from_step left s = ground arith

  finish_final : (left : ℕ) (r : Result A) (s' : S) → IsFinal p r → finish left (r, s') ≡ (r, s')
  finish_final left (ok a) s' h = refl
  finish_final left (err e) s' h = rw h

  -- A success, or an error that is not to be retried, ends the call after one run of the function.
  pub with_retry_once :
      (s : S) → 1 ≤ p.attempts → IsFinal p (fn s).0 → with_retry p uniform sleep fn s ≡ fn s
  unfolding with_retry
  with_retry_once s h final =
      let e : p.attempts ≡ suc (p.attempts - 1) = omega arith in
      subst (λ n. retry_from p uniform sleep fn n s ≡ fn s) (sym e)
        (retry_from_step (p.attempts - 1) s ∙ finish_final (p.attempts - 1) (fn s).0 (fn s).1 final)

-- A way to count the runs of the function: each run counts one, and a pause counts none.
pub record Counts {S A : Type 0} (uniform : ℕ → S → ℕ × S) (sleep : ℕ → S → S) (fn : Action S A)
    : Type 0 where
  pub count : S → ℕ
  pub fn_counts : (s : S) → count (fn s).1 ≡ count s + 1
  pub sleep_keeps : (d : ℕ) (s : S) → count (sleep d s) ≡ count s
  pub uniform_keeps : (d : ℕ) (s : S) → count (uniform d s).1 ≡ count s

module _ {S A : Type 0} (p : Policy) (uniform : ℕ → S → ℕ × S) (sleep : ℕ → S → S) (fn : Action S A)
    (c : Counts uniform sleep fn) where
  open c use {count, fn_counts, sleep_keeps, uniform_keeps}

  count-pause : (n : ℕ) (s : S) → count (pause p uniform sleep fn n s) ≡ count s
  unfolding pause
  count-pause n s = sleep_keeps _ _ ∙ uniform_keeps _ _

  count-finish :
      (left : ℕ) (r : Result A) (s' : S)
      → ((s : S) → count (retry_from p uniform sleep fn left s).1 ≤ count s + left)
      → count (finish p uniform sleep fn left (r, s')).1 ≤ count s' + left
  count-finish left (ok a) s' ih = omega arith
  count-finish left (err e) s' ih =
      let again = ih (pause p uniform sleep fn (p.attempts - left) s') in
      let same = count-pause (p.attempts - left) s' in ground (arith, again, same)

  count-retry_from :
      (left : ℕ) (s : S) → count (retry_from p uniform sleep fn left s).1 ≤ count s + left
  count-retry_from zero s = unfold retry_from in omega arith
  count-retry_from (suc left) s =
      rw (retry_from_step p uniform sleep fn left s)
        (omega (arith, count-finish left (fn s).0 (fn s).1 (count-retry_from left), fn_counts s))

  -- The function runs `attempts` times at most, by any count of its runs that pauses leave alone.
  pub with_retry_count : (s : S) → count (with_retry p uniform sleep fn s).1 ≤ count s + p.attempts
  unfolding with_retry
  with_retry_count s = count-retry_from p.attempts s

  module _ (failing : (s : S) → IsTransient p (fn s).0) where
    finish_failing :
        (left : ℕ) (r : Result A) (s' : S)
        → IsTransient p r
        → ((s : S)
            → 0 < left
            → IsTransient p (retry_from p uniform sleep fn left s).0
              × (count (retry_from p uniform sleep fn left s).1 ≡ count s + left))
        → IsTransient p (finish p uniform sleep fn left (r, s')).0
          × (count (finish p uniform sleep fn left (r, s')).1 ≡ count s' + left)
    finish_failing left (ok a) s' t ih = absurd t
    finish_failing zero (err e) s' t ih = rw t (t, omega arith)
    finish_failing (suc left) (err e) s' t ih =
        let (still, counted) =
          ih (pause p uniform sleep fn (p.attempts - suc left) s') (omega arith) in
        rw (t, suc-ne-zero left) (still, counted ∙ ap (λ n. n + suc left) (count-pause _ s'))

    retry_from_failing :
        (left : ℕ) (s : S)
        → 0 < left
        → IsTransient p (retry_from p uniform sleep fn left s).0
          × (count (retry_from p uniform sleep fn left s).1 ≡ count s + left)
    retry_from_failing zero s h = absurd (omega arith)
    retry_from_failing (suc left) s h = rw (retry_from_step p uniform sleep fn left s) (
        let (still, counted) =
          finish_failing left (fn s).0 (fn s).1 (failing s) (retry_from_failing left) in
        (still, omega (arith, counted, fn_counts s)))

    -- A function that always fails with an error to be retried runs `attempts` times exactly, one
    -- or more, and the call raises an error of that sort.
    pub with_retry_exhausted :
        (s : S)
        → 1 ≤ p.attempts
        → IsTransient p (with_retry p uniform sleep fn s).0
          × (count (with_retry p uniform sleep fn s).1 ≡ count s + p.attempts)
    unfolding with_retry
    with_retry_exhausted s h = retry_from_failing p.attempts s h
