-- ===== src/Quota/Server.antt =====
-- services/quota-service/src/server.py: the gRPC adapter and the HTTP handler over `QuotaService`.
use text.Mathlib.Text.{◌==◌}
use aidata_pipeline.Prelude.{
  String, ◌≡◌, ◌⊎◌, Bool, true, false, Option, none, some, arith, if◌then◌else◌,
}
use aidata_pipeline.Prelude.Int.{ℤ, pos, ◌+ℤ◌, ◌≤ℤ◌, ltb_ℤ, +ℤ_parts}
use aidata_pipeline.External.Redis.{Redis, RedisLaws}
use aidata_pipeline.Prelude.Action.{Action, Returned, pure, ◌>>=◌}
use aidata_pipeline.Quota.Usage.{record_usage_counts}
use aidata_pipeline.Quota.{
  RecordResult, record_usage, get_usage, dedup_key, QuotaStatus, CheckResult, QuotaState, Metrics,
  quota_key, check_quota,
}
use aidata_pipeline.Quota.Admission.{check_quota_outcome}

-- The fields of `CheckQuotaRequest`; an absent flag is `none`.
pub record CheckQuotaRequest : Type 0 where
  pub tenant_id : String
  pub metric : String
  pub amount : ℤ
  pub increment_on_allow : Option Bool

-- `request.amount if request.amount > 0 else 1`
unfoldable pub clamped_amount : ℤ → ℤ
clamped_amount amount = if ltb_ℤ (pos 0) amount then amount else pos 1

abbrev or_true : Option Bool → Bool
or_true none = true
or_true (some b) = b

-- What the Kong plugin posts, as the JSON parser reads it: a body that is no object, or that has
-- no tenant, or whose amount `int` refuses, raises.
pub data HttpBody : Type 0 where
  malformed : HttpBody
  parsed : String → Option String → Option ℤ → HttpBody

pub data HttpReply : Type 0 where
  ok_200 : CheckResult → HttpReply
  error_500 : HttpReply
  not_found_404 : HttpReply

abbrev or_default {ℓ} : {A : Type ℓ} → A → Option A → A
or_default d none = d
or_default d (some a) = a

module _ (r : Redis) (get_limit : String → String → Option ℤ) (m : Metrics) where
  -- `QuotaServicer.CheckQuota`; its status map is the identity on the three statuses in use.
  pub check_quota_rpc : CheckQuotaRequest → QuotaState r → CheckResult × QuotaState r
  unfolding clamped_amount
  check_quota_rpc request =
      check_quota r get_limit m request.tenant_id request.metric (clamped_amount request.amount)
        (or_true request.increment_on_allow)

  post_body : HttpBody → QuotaState r → HttpReply × QuotaState r
  post_body malformed s = (error_500, s)
  post_body (parsed tenant_id metric amount) s =
      let (result, s') =
        check_quota r get_limit m tenant_id (or_default "API_CALLS_PER_DAY" metric)
          (or_default (pos 1) amount) true s in
      (ok_200 result, s')

  -- `do_POST`
  pub do_post : String → HttpBody → QuotaState r → HttpReply × QuotaState r
  unfolding post_body
  do_post path body s = if path == "/v1/check-quota" then post_body body s else (not_found_404, s)

  -- A limit of 0 blocks: over gRPC, whatever the amount asked for, a tenant whose counter is not
  -- negative is denied, unless Redis failed and the check was skipped with a usage of 0.
  pub zero_limit_blocks :
      (laws : RedisLaws r) (request : CheckQuotaRequest) (s : QuotaState r)
      → get_limit request.tenant_id request.metric ≡ some (pos 0)
      → pos 0 ≤ℤ r.counter s.store (quota_key request.tenant_id request.metric)
      → request.increment_on_allow ≡ none
      → let (result, s') = check_quota_rpc request s in
        (result.status ≡ QuotaStatus.denied)
        ⊎ ((result.status ≡ QuotaStatus.allowed) × (result.current_usage ≡ pos 0))
  unfolding check_quota_rpc
  zero_limit_blocks laws request s h nonneg flag =
      let amount = clamped_amount request.amount in
      let k = quota_key request.tenant_id request.metric in
      ground (
        arith,
        check_quota_outcome r laws get_limit m request.tenant_id request.metric amount s,
        +ℤ_parts (r.counter s.store k) amount,
      )

pub record RecordUsageRequest : Type 0 where
  pub tenant_id : String
  pub metric : String
  pub amount : ℤ
  pub event_id : String

-- The ratio is given by what is divided, with none for the 0.0 of a limit that is not positive.
pub record GetUsageResponse : Type 0 where
  pub tenant_id : String
  pub metric : String
  pub current : ℤ
  pub limit : ℤ
  pub usage_ratio : Option (ℤ × ℤ)

abbrev ratio : ℤ → ℤ → Option (ℤ × ℤ)
ratio current limit = if ltb_ℤ (pos 0) limit then some (current, limit) else none

module _ (r : Redis) (get_limit : String → String → Option ℤ) where
  -- `QuotaServicer.RecordUsage`
  pub record_usage_rpc : RecordUsageRequest → Action r.Store r.Exn RecordResult
  record_usage_rpc request =
      record_usage r request.tenant_id request.metric request.amount request.event_id

  -- `QuotaServicer.GetUsage`
  pub get_usage_rpc : String → String → Action r.Store r.Exn GetUsageResponse
  get_usage_rpc tenant_id metric = get_usage r get_limit tenant_id metric >>= λ report.
      pure (record {
        tenant_id = report.tenant_id;
        metric = metric;
        current = report.current;
        limit = report.limit;
        usage_ratio = ratio report.current report.limit;
      })

  -- What is recorded is what is then reported: after a new event is recorded, the usage of its tenant
  -- and metric is the total that was answered, which is the amount above what it was.
  pub record_usage_rpc-get_usage_rpc :
      (laws : RedisLaws r) (request : RecordUsageRequest) (s : r.Store)
      → r.has_key s (dedup_key request.event_id) ≡ false
      → Returned
          (λ recorded s'.
            Returned
              (λ usage _.
                (usage.current ≡ recorded.new_total)
                × (usage.current
                    ≡ r.counter s (quota_key request.tenant_id request.metric) +ℤ request.amount))
              (get_usage_rpc request.tenant_id request.metric s'))
          (record_usage_rpc request s)
  unfolding record_usage_rpc get_usage_rpc get_usage
  record_usage_rpc-get_usage_rpc laws request s fresh =
      let k = quota_key request.tenant_id request.metric in
      let recorded =
        record_usage r request.tenant_id request.metric request.amount request.event_id s in
      ground (
        arith,
        fresh,
        record_usage_counts r laws request.tenant_id request.metric request.amount request.event_id
            s,
        laws.get_ok k recorded.1,
      )
