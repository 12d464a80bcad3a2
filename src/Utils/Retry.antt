-- ===== src/Utils/Retry.antt =====
-- utils/retry.py. The loop runs over the attempts that are left, so it needs no fuel. A delay is in
-- milliseconds; `uniform` is `random.uniform(0, _)` and `sleep` is `asyncio.sleep`.
pub mod Laws
use whatsapp_api.Base.{ℕ, zero, suc, ◌+◌, ◌-◌, ◌*◌, ◌/◌, ◌^◌, Bool, min, ◌==◌, if◌then◌else◌}
use whatsapp_api.Base.Exec.{ok, err, Action}
use whatsapp_api.Errors.{Error, runtime_error}

-- The arguments of `with_retry` but the function and the label.
pub record Policy : Type 0 where
  pub attempts : ℕ
  pub base_delay : ℕ
  pub max_delay : ℕ
  pub retry_on : Error → Bool

-- `min(max_delay, base_delay * (2 ** (attempt - 1)))`
unfoldable pub backoff : Policy → ℕ → ℕ
backoff p attempt = min p.max_delay (p.base_delay * 2 ^ (attempt - 1))

module _ {S A : Type 0} (p : Policy) (uniform : ℕ → S → ℕ × S) (sleep : ℕ → S → S)
    (fn : Action S A) where
  -- The sleep after a failed attempt, with its jitter.
  unfoldable pub pause : ℕ → S → S
  unfolding backoff
  pause attempt s =
      let delay = backoff p attempt in
      let (jitter, s') = uniform (delay / 4) s in sleep (delay + jitter) s'

  -- The attempts from the one after which `left` more may follow.
  unfoldable pub retry_from : ℕ → Action S A
  retry_from zero s = (err runtime_error, s)
  retry_from (suc left) s =
      let (r, s') = fn s in
      elim r [
        | ok a ↦ (ok a, s')
        | err e ↦
            let again = retry_from left (pause (p.attempts - left) s') in
            if p.retry_on e then (if left == 0 then (err e, s') else again) else (err e, s')
      ]

  unfoldable pub with_retry : Action S A
  unfolding retry_from
  with_retry = retry_from p.attempts
