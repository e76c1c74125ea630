-- ===== src/Quota/Admission.antt =====
-- What `check_quota` decides, and what it leaves in the store.
use aidata_pipeline.Prelude.{
  String, ◌≡◌, ◌⊎◌, Bool, true, false, if◌then◌else◌, Option, none, some, arith,
}
use aidata_pipeline.Prelude.Int.{ℤ, pos, ◌+ℤ◌, ◌≤ℤ◌, ◌<ℤ◌, ltb_ℤ, add-sub_cancel}
use aidata_pipeline.Prelude.Action.{Returned, ok, err}
use aidata_pipeline.External.Redis.{Redis, RedisLaws}
use aidata_pipeline.Quota.{
  QuotaStatus, CheckResult, QuotaState, Metrics, quota_key, ttl, check_and_increment, check_only,
  check_quota, skip, emit,
}

-- A decision on `amount` more, for a counter that went from `before` to `after`: admitted within
-- the limit and counted, or refused over the limit and not counted; the report is the counter.
abbrev pub Accounts : ℤ → ℤ → ℤ → ℤ → CheckResult → Type 0
Accounts limit amount before after result =
    ((result.status ≡ QuotaStatus.allowed)
      × (after ≡ before +ℤ amount)
      × (after ≤ℤ limit)
      × (result.current_usage ≡ after))
    ⊎ ((result.status ≡ QuotaStatus.denied)
        × (after ≡ before)
        × (limit <ℤ before +ℤ amount)
        × (result.current_usage ≡ after))

module _ (r : Redis) (laws : RedisLaws r) (get_limit : String → String → Option ℤ)
    (m : Metrics) where
  -- When Redis answers, the increment of a check is kept exactly if the request is admitted: the
  -- counter is then raised and within the limit, and otherwise it is what it was.
  pub check_and_increment-Accounts :
      (tenant_id metric : String) (amount limit : ℤ) (s : QuotaState r)
      → Returned
          (λ result s'.
            Accounts limit amount
              (r.counter s.store (quota_key tenant_id metric))
              (r.counter s'.store (quota_key tenant_id metric))
              result)
          (check_and_increment r get_limit m tenant_id metric amount limit s)
  unfolding check_and_increment
  check_and_increment-Accounts tenant_id metric amount limit s =
      let k = quota_key tenant_id metric in
      let up = r.incrby_expire k amount (ttl metric) s.store in
      ground (
        arith,
        laws.incrby_expire_ok k amount (ttl metric) s.store,
        laws.decrby_ok k amount up.1,
        add-sub_cancel (r.counter s.store k) amount,
      )

  -- A request is refused only if its tenant has a limit, Redis answered, and the usage with the
  -- request would pass the limit; the counter is then what it was before.
  pub check_quota_denied :
      (tenant_id metric : String) (amount : ℤ) (increment_on_allow : Bool) (s : QuotaState r)
      → let (result, s') = check_quota r get_limit m tenant_id metric amount increment_on_allow s in
        result.status ≡ QuotaStatus.denied
        → (get_limit tenant_id metric ≡ some result.limit)
          × (result.limit <ℤ r.counter s.store (quota_key tenant_id metric) +ℤ amount)
          × (r.counter s'.store (quota_key tenant_id metric)
              ≡ r.counter s.store (quota_key tenant_id metric))
  unfolding check_quota check_and_increment check_only
  check_quota_denied tenant_id metric amount increment_on_allow s =
      let k = quota_key tenant_id metric in
      let up = r.incrby_expire k amount (ttl metric) s.store in
      ground (
        arith,
        laws.incrby_expire_ok k amount (ttl metric) s.store,
        laws.decrby_ok k amount up.1,
        laws.get_ok k s.store,
        add-sub_cancel (r.counter s.store k) amount,
      )

  -- The INCRBY returns, and the DECRBY too if the request is over the limit.
  abbrev pub redis_answers : ℤ → String → String → ℤ → QuotaState r → Bool
  redis_answers limit tenant_id metric amount s =
      let k = quota_key tenant_id metric in
      let up = r.incrby_expire k amount (ttl metric) s.store in
      elim up.0 [
        | err e ↦ false
        | ok current ↦
            if ltb_ℤ limit current
            then elim (r.decrby k amount up.1).0 [ err e ↦ false | ok back ↦ true ]
            else true
      ]

  -- A check that counts, with `increment_on_allow`, ends in one of three ways: the tenant has no
  -- limit and the store is untouched; or the INCRBY returned, and so did the DECRBY of a request
  -- over the limit, and the decision is accounted for; or the INCRBY raised, or the DECRBY of a
  -- request over the limit did, the request is let through with a reported usage of 0, and the skip
  -- counter, if there is one, is incremented.
  pub check_quota_outcome :
      (tenant_id metric : String) (amount : ℤ) (s : QuotaState r)
      → let (result, s') = check_quota r get_limit m tenant_id metric amount true s in
        ((get_limit tenant_id metric ≡ none)
          × (result.status ≡ QuotaStatus.unlimited)
          × (s'.store ≡ s.store))
        ⊎ ((get_limit tenant_id metric ≡ some result.limit)
            × (redis_answers result.limit tenant_id metric amount s ≡ true)
            × Accounts result.limit amount
                (r.counter s.store (quota_key tenant_id metric))
                (r.counter s'.store (quota_key tenant_id metric))
                result)
        ⊎ ((get_limit tenant_id metric ≡ some result.limit)
            × (redis_answers result.limit tenant_id metric amount s ≡ false)
            × (result.status ≡ QuotaStatus.allowed)
            × (result.current_usage ≡ pos 0)
            × (s'.samples ≡ emit m.skip_counter skip s.samples))
  unfolding check_quota check_and_increment
  check_quota_outcome tenant_id metric amount s =
      let k = quota_key tenant_id metric in
      let up = r.incrby_expire k amount (ttl metric) s.store in
      ground (
        arith,
        laws.incrby_expire_ok k amount (ttl metric) s.store,
        laws.decrby_ok k amount up.1,
        add-sub_cancel (r.counter s.store k) amount,
      )
