-- ===== src/Tenants/Quota.antt =====
-- The monthly quota.
use whatsapp_api.Base.{
  ℕ, ◌+◌, ◌≤◌, ◌<◌, ◌≡◌, ◌↔◌, refl, sym, subst, ◌∙◌, ◌≢◌, some, arith, leb, Bool-cases, inl, inr,
}
use whatsapp_api.Base.Exec.{ok, err}
use whatsapp_api.Errors.{plain, tenant_quota_exceeded}
use whatsapp_api.Models.{Tenant}
use whatsapp_api.Store.{Db, get_tenant, put_tenant}
use whatsapp_api.Store.Laws.{
  IsClean, flush_clean, find_by-replace_self, find_by-id, find_by-replace_ne,
}
use whatsapp_api.Tenants.{assert_quota, increment_usage}

-- The check passes exactly while the tenant has sent less than its limit, and changes nothing.
assert_quota_lem :
    (t : Tenant) (s : Db)
    → let (r, u) = assert_quota t s in
      ((r ≡ ok tt) ↔ (t.messages_sent_this_month < t.monthly_message_limit))
      × ((r ≡ err (plain tenant_quota_exceeded))
          ↔ (t.monthly_message_limit ≤ t.messages_sent_this_month))
      × (u ≡ s)
unfolding assert_quota
assert_quota_lem t s = elim (Bool-cases (leb t.monthly_message_limit t.messages_sent_this_month)) [
  | inl over ↦ rw over ((λ h. cc, λ h. ground arith), (λ h. ground arith, λ h. refl), refl)
  | inr fits ↦ rw fits ((λ h. ground arith, λ h. refl), (λ h. cc, λ h. ground arith), refl)
]

abbrev charged : ℕ → Tenant → Tenant
charged n t = record t { messages_sent_this_month = t.messages_sent_this_month + n }

-- For a tenant that is there, with nothing to flush before, the count goes up by `n`; every other
-- tenant's row and the messages are as they were.
increment_usage_lem :
    (k n : ℕ) (s : Db) (t : Tenant)
    → IsClean s
    → get_tenant k s ≡ some t
    → let (r, u) = increment_usage k n s in
      (r ≡ ok tt)
      × (get_tenant k u ≡ some (charged n t))
      × ((j : ℕ) → k ≢ j → get_tenant j u ≡ get_tenant j s)
      × (u.messages ≡ s.messages)
unfolding increment_usage
increment_usage_lem k n s t clean found =
    let same = find_by-id (λ (r : Tenant). r.id) k t s.tenants found in
    rw
      (
        found,
        flush_clean (put_tenant (charged n t) s)
            (record { nothing_pending = clean.nothing_pending; storable = clean.storable }),
      )
      (
        refl,
        subst (λ j. get_tenant j (put_tenant (charged n t) s) ≡ some (charged n t)) same
            (find_by-replace_self (λ (r : Tenant). r.id) (charged n t) t s.tenants
              (subst (λ j. get_tenant j s ≡ some t) (sym same) found)),
        λ j ne.
            find_by-replace_ne (λ (r : Tenant). r.id) j (charged n t) s.tenants
              (λ e. ne (sym same ∙ e)),
        refl,
      )
