-- ===== src/RateLimiter/Laws.antt =====
-- What the limiter grants within one window, in which no counter expires.
use whatsapp_api.Base.{
  ℕ, zero, suc, ◌+◌, ◌-◌, ◌≤◌, ◌≡◌, refl, sym, ap, ◌∙◌, ◌≢◌, true, false, ◌&&◌, String, List, [],
  ◌∷◌, arith, leb, ltb, ◌==◌, if◌then◌else◌, str_eq, str_eq_iff, str_eq_refl, str_eq-false,
  Bool-cases, inl, inr,
}
use text.Mathlib.TextLemmas.{append_inj}
use whatsapp_api.Base.Exec.{ok, Action, ◌>>◌, pure}
use whatsapp_api.RateLimiter.{
  Redis, RateLimiter, sec_key, recip_key, bump, acquire_body, acquire_recipient, acquire,
}

-- Redis inside a window: INCR adds one to its key's counter, absent keys counting as 0, and replies
-- with the new value; EXPIRE changes no counter.
pub record IsCounter (redis : Redis) : Type 0 where
  pub value : redis.State → String → ℕ
  pub incr_reply : (k : String) (s : redis.State) → (redis.incr k s).0 ≡ ok (value s k + 1)
  pub value-incr :
      (k j : String) (s : redis.State)
      → value (redis.incr k s).1 j ≡ (if str_eq k j then value s j + 1 else value s j)
  pub expire_reply : (k : String) (t : ℕ) (s : redis.State) → (redis.expire k t s).0 ≡ ok tt
  pub value-expire :
      (k j : String) (t : ℕ) (s : redis.State) → value (redis.expire k t s).1 j ≡ value s j

-- The two counters of a send are never one key.
sec_key-ne-recip_key : (p q r : String) → sec_key p ≢ recip_key q r
unfolding sec_key recip_key str_eq
sec_key-ne-recip_key p q r e = cc (
    (str_eq_iff "prodaxis:rl:phone:" "prodaxis:rl:recip:").1
      (append_inj {s₁ = "prodaxis:rl:phone:"} {s₂ = "prodaxis:rl:recip:"} e refl).0)

module _ (redis : Redis) (c : IsCounter redis) where
  open c use {value, incr_reply, value-incr, expire_reply, value-expire}

  abbrev count_and_expire : String → ℕ → ℕ → Action redis.State ℕ
  count_and_expire k t n = if n == 1 then (redis.expire k t >> pure n) else pure n

  count_and_expire_lem :
      (k : String) (t n : ℕ) (s : redis.State)
      → ((count_and_expire k t n s).0 ≡ ok n)
        × ((j : String) → value (count_and_expire k t n s).1 j ≡ value s j)
  count_and_expire_lem k t n s = elim (Bool-cases (n == 1)) [
    | inl e ↦ rw e (rw (expire_reply k t s) (refl, λ j. value-expire k j t s))
    | inr e ↦ rw e (refl, λ j. refl)
  ]

  bump-eq :
      (k : String) (t : ℕ) (s : redis.State)
      → bump redis k t s ≡ count_and_expire k t (value s k + 1) (redis.incr k s).1
  unfolding bump
  bump-eq k t s = rw (incr_reply k s)

  bump_reply : (k : String) (t : ℕ) (s : redis.State) → (bump redis k t s).0 ≡ ok (value s k + 1)
  bump_reply k t s = rw (bump-eq k t s) (count_and_expire_lem k t _ _).0

  value-bump :
      (k j : String) (t : ℕ) (s : redis.State)
      → value (bump redis k t s).1 j ≡ (if str_eq k j then value s j + 1 else value s j)
  value-bump k j t s = rw (bump-eq k t s) ((count_and_expire_lem k t _ _).1 j ∙ value-incr k j s)

  value-bump_self :
      (k : String) (t : ℕ) (s : redis.State) → value (bump redis k t s).1 k ≡ value s k + 1
  value-bump_self k t s = value-bump k k t s ∙ rw (str_eq_refl k)

  value-bump_ne :
      (k j : String) (t : ℕ) (s : redis.State) → k ≢ j → value (bump redis k t s).1 j ≡ value s j
  value-bump_ne k j t s h = value-bump k j t s ∙ rw (str_eq-false k j h)

  module _ (l : RateLimiter) (p : String) where
    -- The counts of the window: all sends of the phone number, and those to one recipient.
    abbrev pub sends : redis.State → ℕ
    sends s = value s (sec_key p)

    abbrev pub sends_to : String → redis.State → ℕ
    sends_to r s = value s (recip_key p r)

    abbrev after_sec : redis.State → redis.State
    after_sec s = (bump redis (sec_key p) 1 s).1

    acquire-over :
        (r : String) (s : redis.State)
        → ltb l.max_per_second (sends s + 1) ≡ true
        → acquire redis l p r s ≡ (false, after_sec s)
    unfolding acquire acquire_body
    acquire-over r s h = rw (bump_reply (sec_key p) 1 s, h)

    abbrev after_recip : String → redis.State → redis.State
    after_recip r s = (bump redis (recip_key p r) l.recipient_window (after_sec s)).1

    acquire-within :
        (r : String) (s : redis.State)
        → ltb l.max_per_second (sends s + 1) ≡ false
        → acquire redis l p r s ≡ (
          if ltb l.max_burst_per_recipient (sends_to r s + 1) then false else true,
          after_recip r s,
        )
    unfolding acquire acquire_body acquire_recipient
    acquire-within r s h = rw (
      bump_reply (sec_key p) 1 s,
      h,
      bump_reply (recip_key p r) l.recipient_window (after_sec s),
      value-bump_ne (sec_key p) (recip_key p r) 1 s (sec_key-ne-recip_key p p r),
    )

    -- A send is granted exactly if both counts, this send included, stay within their limits. It
    -- is counted for the phone number in any case, and for the recipient if the first limit let
    -- it through. No counter expires meanwhile.
    pub acquire_lem :
        (r : String) (s : redis.State)
        → let (granted, s') = acquire redis l p r s in
          (granted ≡ (
            leb (sends s + 1) l.max_per_second && leb (sends_to r s + 1) l.max_burst_per_recipient))
          × (sends s' ≡ sends s + 1)
          × (sends_to r s'
              ≡ (if leb (sends s + 1) l.max_per_second then sends_to r s + 1 else sends_to r s))
    acquire_lem r s = elim (Bool-cases (ltb l.max_per_second (sends s + 1))) [
      | inl over ↦ rw (acquire-over r s over) (
        ground arith,
        value-bump_self (sec_key p) 1 s,
        value-bump_ne (sec_key p) (recip_key p r) 1 s (sec_key-ne-recip_key p p r) ∙ ground arith,
      )
      | inr fits ↦ rw (acquire-within r s fits) (
        ground arith,
        value-bump_ne (recip_key p r) (sec_key p) l.recipient_window (after_sec s)
              (λ e. sec_key-ne-recip_key p p r (sym e))
            ∙ value-bump_self (sec_key p) 1 s,
        value-bump_self (recip_key p r) l.recipient_window (after_sec s)
            ∙ ap (λ n. n + 1)
                (value-bump_ne (sec_key p) (recip_key p r) 1 s (sec_key-ne-recip_key p p r))
            ∙ ground arith,
      )
    ]

    -- How many of a sequence of sends are granted.
    pub granted : List String → redis.State → ℕ
    granted [] s = 0
    granted (r ∷ rs) s = let (b, s') = acquire redis l p r s in (if b then 1 else 0) + granted rs s'

    -- In one window, whoever the recipients are, no more sends of a phone number are granted than
    -- the limit leaves.
    granted-le-max_per_second :
        (rs : List String) (s : redis.State) → granted rs s ≤ l.max_per_second - sends s
    unfolding granted
    granted-le-max_per_second [] s = omega arith
    granted-le-max_per_second (r ∷ rs) s =
        ground (arith, acquire_lem r s, granted-le-max_per_second rs (acquire redis l p r s).1)

    abbrev pub repeat : ℕ → String → List String
    repeat zero r = []
    repeat (suc n) r = r ∷ repeat n r

    -- A burst to one recipient within one window that fits both limits is granted in full, with no
    -- wait between its sends.
    pub granted_burst :
        (n : ℕ) (r : String) (s : redis.State)
        → sends s + n ≤ l.max_per_second
        → sends_to r s + n ≤ l.max_burst_per_recipient
        → granted (repeat n r) s ≡ n
    unfolding granted
    granted_burst zero r s h k = refl
    granted_burst (suc n) r s h k =
        ground (arith, acquire_lem r s, granted_burst n r (acquire redis l p r s).1)
