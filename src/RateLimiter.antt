-- ===== src/RateLimiter.antt =====
-- services/rate_limiter.py. Redis is the parameter `redis`: each command returns its reply, or
-- raises, over an unknown state.
pub mod Laws
use whatsapp_api.Base.{
  ℕ, ◌<◌, Bool, true, false, String, ◌<>◌, Option, none, some, ltb, ◌==◌, if◌then◌else◌,
}
use whatsapp_api.Base.Exec.{Result, ok, err, Action, ◌>>=◌, ◌>>◌, pure}
use whatsapp_api.Models.{Settings}

pub record Redis : Type 1 where
  pub State : Type 0
  pub incr : String → Action State ℕ
  pub expire : String → ℕ → Action State (Unit {0})
  pub delete : String → Action State (Unit {0})

pub record RateLimiter : Type 0 where
  pub max_per_second : ℕ
  pub max_burst_per_recipient : ℕ
  pub recipient_window : ℕ

-- `given or default` on an optional number.
abbrev number_or : Option ℕ → ℕ → ℕ
number_or none d = d
number_or (some n) d = if n == 0 then d else n

-- `RateLimiter.__init__`
unfoldable make_limiter : Settings → Option ℕ → Option ℕ → ℕ → RateLimiter
make_limiter settings max_per_second max_burst window = record {
  max_per_second = number_or max_per_second settings.meta_max_messages_per_second;
  max_burst_per_recipient = number_or max_burst settings.meta_max_burst_per_recipient;
  recipient_window = window;
}

unfoldable pub sec_key : String → String
sec_key phone_number_id = "prodaxis:rl:phone:" <> (phone_number_id <> ":sec")

unfoldable pub recip_key : String → String → String
recip_key phone_number_id recipient =
    "prodaxis:rl:recip:" <> (phone_number_id <> (":" <> recipient))

module _ (redis : Redis) where
  -- INCR, with EXPIRE when the counter is new.
  unfoldable pub bump : String → ℕ → Action redis.State ℕ
  bump key ttl = do
    count ← redis.incr key
    if count == 1 then (redis.expire key ttl >> pure count) else pure count

  -- The second bucket: the sends to one recipient.
  unfoldable pub acquire_recipient : RateLimiter → String → String → Action redis.State Bool
  acquire_recipient l phone_number_id recipient = do
    recip_count ← bump (recip_key phone_number_id recipient) l.recipient_window
    pure (if ltb l.max_burst_per_recipient recip_count then false else true)

  -- The `try` block of `acquire`.
  unfoldable pub acquire_body : RateLimiter → String → String → Action redis.State Bool
  acquire_body l phone_number_id recipient = do
    sec_count ← bump (sec_key phone_number_id) 1
    let allowed = acquire_recipient l phone_number_id recipient
    if ltb l.max_per_second sec_count then pure false else allowed

  -- Fails open: whatever the block raised, the send is allowed.
  abbrev open_on_error : Result Bool → Bool
  open_on_error (ok b) = b
  open_on_error (err _) = true

  unfoldable pub acquire : RateLimiter → String → String → redis.State → Bool × redis.State
  acquire l phone_number_id recipient s =
      let (r, s') = acquire_body l phone_number_id recipient s in (open_on_error r, s')

  reset_recipient : String → String → Action redis.State (Unit {0})
  reset_recipient phone_number_id recipient = redis.delete (recip_key phone_number_id recipient)
