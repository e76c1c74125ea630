-- ===== src/Quota/Limits.antt =====
-- services/quota-service/src/db_queries.py, and `get_limit_fn` of server.py: where a limit comes
-- from. The rows that PostgreSQL returns are parameters; a query may raise.
use text.Mathlib.Text.{◌==◌}
use aidata_pipeline.Prelude.{String, Option, none, some, List, [], ◌∷◌, if◌then◌else◌}
use aidata_pipeline.Prelude.Int.{ℤ}
use aidata_pipeline.Prelude.Action.{Result, ok, err}

-- The columns of `license_tiers` that hold a limit.
pub data Column : Type 0 where
  bytes_per_month vectors_max queries_per_day queries_per_min workers_max users_max : Column

-- `_METRIC_TO_COLUMN.get(metric)`.
unfoldable pub metric_to_column : String → Option Column
metric_to_column metric =
    if metric == "BYTES_PER_MONTH"
    then some bytes_per_month
    else if metric == "VECTORS_STORED"
    then some vectors_max
    else if metric == "API_CALLS_PER_DAY"
    then some queries_per_day
    else if metric == "API_CALLS_PER_MINUTE"
    then some queries_per_min
    else if metric == "CONCURRENT_WORKERS"
    then some workers_max
    else if metric == "USERS_PER_TENANT"
    then some users_max
    else none

-- The database as the queries see it: a row or none, and a nullable number in a row.
pub record LimitTables (Exn : Type 0) : Type 0 where
  pub override_row : String → String → Result Exn (Option (Option ℤ))
  pub tier_row : String → Column → Result Exn (Option (Option ℤ))

-- No row, or NULL in the row, is no limit.
abbrev pub row_value : Option (Option ℤ) → Option ℤ
row_value none = none
row_value (some v) = v

-- `static_limits[metric]`, where the dict is in the order of the environment.
pub static_limit : List (String × ℤ) → String → Option ℤ
static_limit [] metric = none
static_limit ((name, v) ∷ rest) metric = if name == metric then some v else static_limit rest metric

module _ {Exn : Type 0} (db : LimitTables Exn) where
  abbrev tier_limit : String → Option Column → Result Exn (Option ℤ)
  tier_limit tenant_id none = ok none
  tier_limit tenant_id (some col) = elim (db.tier_row tenant_id col) [
    | ok row ↦ ok (row_value row)
    | err e ↦ err e
  ]

  unfoldable pub get_effective_limit : String → String → Result Exn (Option ℤ)
  get_effective_limit tenant_id metric = elim (db.override_row tenant_id metric) [
    | ok none ↦ tier_limit tenant_id (metric_to_column metric)
    | ok (some v) ↦ ok v
    | err e ↦ err e
  ]

  abbrev or_unlimited : Result Exn (Option ℤ) → Option ℤ
  or_unlimited (ok limit) = limit
  or_unlimited (err e) = none

  -- The resolver that the server injects: environment, then database, then no limit.
  unfoldable pub get_limit_fn : List (String × ℤ) → String → String → Option ℤ
  unfolding get_effective_limit static_limit
  get_limit_fn static_limits tenant_id metric = elim (static_limit static_limits metric) [
    | some v ↦ some v
    | none ↦ or_unlimited (get_effective_limit tenant_id metric)
  ]
