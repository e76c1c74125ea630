-- ===== src/Quota.antt =====
-- services/quota-service/src/quota_service.py: check, record and query usage, with the Redis
-- client, the limit resolver and the Prometheus metrics injected. Tracing spans and log lines are
-- left out; a sample is one update of a metric.
pub mod Admission
pub mod Usage
pub mod Limits
pub mod Server
mod Tests
use text.Mathlib.Text.{◌==◌}
use Prim.Native.String.{◌++◌}
use aidata_pipeline.Prelude.{
  ℕ, ◌*◌, String, Bool, true, false, ◌&&◌, Option, none, some, List, ◌∷◌, if◌then◌else◌,
}
use aidata_pipeline.Prelude.Int.{ℤ, pos, ◌+ℤ◌, ◌-ℤ◌, ltb_ℤ}
use aidata_pipeline.Prelude.Action.{Action, Result, ok, err, pure, ◌>>=◌, ◌>>◌}
use aidata_pipeline.External.Redis.{Redis, or_zero}

pub data QuotaStatus : Type 0 where
  unspecified allowed denied unlimited : QuotaStatus

pub record CheckResult : Type 0 where
  pub status : QuotaStatus
  pub current_usage : ℤ
  pub limit : ℤ
  pub deny_reason : String

pub record RecordResult : Type 0 where
  pub new_total : ℤ
  pub deduped : Bool

pub record UsageReport : Type 0 where
  pub tenant_id : String
  pub metric : String
  pub current : ℤ
  pub limit : ℤ
  pub unlimited : Bool

-- `_METRIC_TTL.get(metric, _DEFAULT_TTL)`, in seconds.
unfoldable pub ttl : String → ℕ
ttl metric =
    if metric == "API_CALLS_PER_DAY"
    then 86400
    else if metric == "API_CALLS_PER_MINUTE"
    then 60
    else if metric == "BYTES_PER_MONTH"
    then 86400 * 31
    else if metric == "GPU_SECONDS_PER_MONTH"
    then 86400 * 31
    else if metric == "VECTORS_STORED"
    then 86400 * 365
    else 86400

unfoldable pub quota_key : String → String → String
quota_key tenant_id metric = "quota:" ++ (tenant_id ++ (":" ++ metric))

unfoldable pub dedup_key : String → String
dedup_key event_id = "dedup:" ++ event_id

-- One update of a Prometheus metric; `ratio` is the gauge set to current / limit.
pub data Sample : Type 0 where
  check : String → String → QuotaStatus → Sample
  exceeded : String → String → Sample
  ratio : String → String → ℤ → ℤ → Sample
  skip : Sample

-- Which of the optional metrics the service was given.
pub record Metrics : Type 0 where
  pub skip_counter : Bool
  pub checks_counter : Bool
  pub exceeded_counter : Bool
  pub usage_ratio_gauge : Bool

abbrev pub emit : Bool → Sample → List Sample → List Sample
emit present x xs = if present then x ∷ xs else xs

abbrev pub is_denied : QuotaStatus → Bool
is_denied QuotaStatus.denied = true
is_denied _ = false

-- `_record_check_metrics`, on the samples so far, the latest first.
unfoldable pub record_check_metrics :
    Metrics → String → String → CheckResult → List Sample → List Sample
record_check_metrics m tenant_id metric result xs =
    emit (m.usage_ratio_gauge && ltb_ℤ (pos 0) result.limit)
      (ratio tenant_id metric result.current_usage result.limit)
      (emit (m.exceeded_counter && is_denied result.status) (exceeded tenant_id metric)
        (emit m.checks_counter (check tenant_id metric result.status) xs))

module _ (r : Redis) where
  -- The two things that the service changes.
  pub record QuotaState : Type 0 where
    pub store : r.Store
    pub samples : List Sample

module _ (r : Redis) (get_limit : String → String → Option ℤ) (m : Metrics) where
  abbrev on_redis : {A : Type 0} → Action r.Store r.Exn A → Action (QuotaState r) r.Exn A
  on_redis f s = let (x, store') = f s.store in (x, record s { store = store' })

  -- The end of each branch of the `try`: update the metrics and return the result.
  finish : String → String → CheckResult → Action (QuotaState r) r.Exn CheckResult
  unfolding record_check_metrics
  finish tenant_id metric result s =
      (ok result, record s { samples = record_check_metrics m tenant_id metric result s.samples })

  -- The `try` body with `increment_on_allow`.
  pub check_and_increment : String → String → ℤ → ℤ → Action (QuotaState r) r.Exn CheckResult
  unfolding finish
  check_and_increment tenant_id metric amount limit = do
    current ← on_redis (r.incrby_expire (quota_key tenant_id metric) amount (ttl metric))
    if ltb_ℤ limit current
        then (do
          on_redis (r.decrby (quota_key tenant_id metric) amount)
          finish tenant_id metric (record {
            status = QuotaStatus.denied;
            current_usage = current -ℤ amount;
            limit = limit;
            deny_reason = "Quota exceeded for metric " ++ metric;
          }))
        else finish tenant_id metric (record {
          status = QuotaStatus.allowed;
          current_usage = current;
          limit = limit;
          deny_reason = "";
        })

  -- The `try` body without it.
  pub check_only : String → String → ℤ → ℤ → Action (QuotaState r) r.Exn CheckResult
  unfolding finish
  check_only tenant_id metric amount limit = do
    reply ← on_redis (r.get (quota_key tenant_id metric))
    finish tenant_id metric (record {
      status =
          if ltb_ℤ limit (or_zero reply +ℤ amount) then QuotaStatus.denied else QuotaStatus.allowed;
      current_usage = or_zero reply;
      limit = limit;
      deny_reason = "";
    })

  -- `except Exception`: fail open.
  abbrev fail_open : ℤ → Result r.Exn CheckResult × QuotaState r → CheckResult × QuotaState r
  fail_open limit (ok result, s) = (result, s)
  fail_open limit (err e, s) = (
    record { status = QuotaStatus.allowed; current_usage = pos 0; limit = limit; deny_reason = "" },
    record s { samples = emit m.skip_counter skip s.samples },
  )

  check_limited : String → String → ℤ → Bool → ℤ → QuotaState r → CheckResult × QuotaState r
  check_limited tenant_id metric amount increment_on_allow limit s = fail_open limit (
      (if increment_on_allow
          then check_and_increment tenant_id metric amount limit
          else check_only tenant_id metric amount limit)
        s)

  pub check_quota : String → String → ℤ → Bool → QuotaState r → CheckResult × QuotaState r
  unfolding check_limited
  check_quota tenant_id metric amount increment_on_allow s = elim (get_limit tenant_id metric) [
    | none ↦ (
      record {
        status = QuotaStatus.unlimited;
        current_usage = pos 0;
        limit = pos 0;
        deny_reason = "";
      },
      record s {
        samples = emit m.checks_counter (check tenant_id metric QuotaStatus.unlimited) s.samples;
      },
    )
    | some limit ↦ check_limited tenant_id metric amount increment_on_allow limit s
  ]

module _ (r : Redis) where
  -- Record usage once for an event id.
  pub record_usage : String → String → ℤ → String → Action r.Store r.Exn RecordResult
  record_usage tenant_id metric amount event_id = do
    seen ← r.exists (dedup_key event_id)
    if seen then pure (record { new_total = pos 0; deduped = true }) else do
      r.setex (dedup_key event_id) 86400 1
      new_total ← r.incrby (quota_key tenant_id metric) amount
      pure (record { new_total = new_total; deduped = false })

module _ (r : Redis) (get_limit : String → String → Option ℤ) where
  pub get_usage : String → String → Action r.Store r.Exn UsageReport
  get_usage tenant_id metric = do
    reply ← r.get (quota_key tenant_id metric)
    let limit = get_limit tenant_id metric
    pure (record {
      tenant_id = tenant_id;
      metric = metric;
      current = or_zero reply;
      limit = or_zero limit;
      unlimited = elim limit [ none ↦ true | some _ ↦ false ];
    })
