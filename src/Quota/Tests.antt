-- ===== src/Quota/Tests.antt =====
-- The quota service on an in-memory Redis.
use aidata_pipeline.Quota.Limits.{LimitTables, get_limit_fn, get_effective_limit, metric_to_column}
use aidata_pipeline.Quota.Server.{
  RecordUsageRequest, record_usage_rpc, get_usage_rpc, record_usage_rpc-get_usage_rpc,
}
use aidata_pipeline.Prelude.{String, ◌≡◌, refl, ◌⊎◌, true, false, Option, none, some, []}
use aidata_pipeline.Prelude.Int.{ℤ, pos, ◌+ℤ◌, ◌-ℤ◌}
use aidata_pipeline.Prelude.Action.{Returned, ok}
use aidata_pipeline.Quota.{
  QuotaStatus, QuotaState, Metrics, quota_key, dedup_key, check_and_increment, check_quota,
  record_usage, skip, emit,
}
use aidata_pipeline.Quota.Admission.{
  redis_answers, Accounts, check_and_increment-Accounts, check_quota_outcome,
}
use aidata_pipeline.Quota.Usage.{record_usage_twice}
use aidata_pipeline.External.Memory.{memory, memory_laws, fresh, put}

abbrev limits : String → String → Option ℤ
limits tenant_id metric = some (pos 10)

abbrev metrics : Metrics
metrics = record {
  skip_counter = true;
  checks_counter = true;
  exceeded_counter = true;
  usage_ratio_gauge = true;
}

abbrev used_8 : QuotaState memory
used_8 = record {
  store = record fresh { value = put (quota_key "acme" "BYTES_PER_MONTH") (pos 8) fresh.value };
  samples = [];
}

check_and_increment-Accounts_example :
    Returned
      (λ result s'.
        Accounts
          (pos 10)
          (pos 3)
          (memory.counter used_8.store (quota_key "acme" "BYTES_PER_MONTH"))
          (memory.counter s'.store (quota_key "acme" "BYTES_PER_MONTH"))
          result)
      (check_and_increment memory limits metrics "acme" "BYTES_PER_MONTH" (pos 3) (pos 10) used_8)
check_and_increment-Accounts_example =
    check_and_increment-Accounts memory memory_laws limits metrics "acme" "BYTES_PER_MONTH" (pos 3)
      (pos 10) used_8

check_quota_outcome_example :
    let (result, s') =
      check_quota memory limits metrics "acme" "BYTES_PER_MONTH" (pos 3) true used_8 in
    ((limits "acme" "BYTES_PER_MONTH" ≡ none)
      × (result.status ≡ QuotaStatus.unlimited)
      × (s'.store ≡ used_8.store))
    ⊎ ((limits "acme" "BYTES_PER_MONTH" ≡ some result.limit)
        × (redis_answers memory memory_laws limits metrics result.limit "acme" "BYTES_PER_MONTH"
              (pos 3)
              used_8
            ≡ true)
        × Accounts result.limit
            (pos 3)
            (memory.counter used_8.store (quota_key "acme" "BYTES_PER_MONTH"))
            (memory.counter s'.store (quota_key "acme" "BYTES_PER_MONTH"))
            result)
    ⊎ ((limits "acme" "BYTES_PER_MONTH" ≡ some result.limit)
        × (redis_answers memory memory_laws limits metrics result.limit "acme" "BYTES_PER_MONTH"
              (pos 3)
              used_8
            ≡ false)
        × (result.status ≡ QuotaStatus.allowed)
        × (result.current_usage ≡ pos 0)
        × (s'.samples ≡ emit metrics.skip_counter skip used_8.samples))
check_quota_outcome_example =
    check_quota_outcome memory memory_laws limits metrics "acme" "BYTES_PER_MONTH" (pos 3) used_8

record_usage_twice_example :
    Returned
      (λ _ s'.
        Returned
          (λ second s''. (second.deduped ≡ true) × (s'' ≡ s'))
          (record_usage memory "acme" "BYTES_PER_MONTH" (pos 6) "e1" s'))
      (record_usage memory "acme" "BYTES_PER_MONTH" (pos 5) "e1" used_8.store)
record_usage_twice_example =
    record_usage_twice memory memory_laws "acme" "BYTES_PER_MONTH" (pos 5) (pos 6) "e1" used_8.store

abbrev recorded : RecordUsageRequest
recorded = record {
  tenant_id = "acme";
  metric = "BYTES_PER_MONTH";
  amount = pos 5;
  event_id = "e1";
}

e1_is_new : memory.has_key used_8.store (dedup_key "e1") ≡ false
unfolding dedup_key quota_key
e1_is_new = refl

record_usage_rpc-get_usage_rpc_example :
    Returned
      (λ reply s'.
        Returned
          (λ usage _.
            (usage.current ≡ reply.new_total)
            × (usage.current
                ≡ memory.counter used_8.store (quota_key "acme" "BYTES_PER_MONTH") +ℤ pos 5))
          (get_usage_rpc memory limits "acme" "BYTES_PER_MONTH" s'))
      (record_usage_rpc memory limits recorded used_8.store)
record_usage_rpc-get_usage_rpc_example =
    record_usage_rpc-get_usage_rpc memory limits memory_laws recorded used_8.store e1_is_new

check_quota_denies_3 :
    (check_quota memory limits metrics "acme" "BYTES_PER_MONTH" (pos 3) true used_8).0.status
    ≡ QuotaStatus.denied
unfolding check_quota check_and_increment quota_key ◌+ℤ◌ ◌-ℤ◌
check_quota_denies_3 = refl

abbrev tables : LimitTables Unit
tables = record { override_row = λ _ _. ok none; tier_row = λ _ _. ok (some (some (pos 7))) }

tier_limit_used : get_limit_fn tables [] "acme" "USERS_PER_TENANT" ≡ some (pos 7)
unfolding get_limit_fn get_effective_limit metric_to_column
tier_limit_used = refl
