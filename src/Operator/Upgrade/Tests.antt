-- ===== src/Operator/Upgrade/Tests.antt =====
-- An upgrade of a cluster with two connector jobs, whose clock advances as it sleeps.
use aidata_pipeline.Prelude.{
  ℕ, ◌+◌, ◌-◌, ◌≡◌, ◌≢◌, refl, ◌⊎◌, String, true, false, none, some, List, [], ◌∷◌, ◌++◌, map,
  arith,
}
use aidata_pipeline.Prelude.Action.{ok}
use aidata_pipeline.External.Calls.{Outside}
use aidata_pipeline.Operator.Upgrade.{
  Change, sleep_ms, suspend_cronjob, resume_cronjob, upgrade_in_progress, ready, Cluster, Handler,
  services_upgrade_order, drain_kafka_lag, run_coordinated_upgrade,
}
use aidata_pipeline.Operator.Upgrade.Order.{
  effects, rolls, run_coordinated_upgrade_lem, ClockLaws, drain_kafka_lag-ends,
}

abbrev slept : Change → ℕ
slept (sleep_ms n) = n
slept _ = 0

abbrev outside : Outside Change
outside = record { World = ℕ; Exn = Unit; answer = λ c w. (ok tt, w + slept c) }

-- The lag is gone 7 seconds after the start.
abbrev cluster : Cluster outside
cluster = record {
  list_cronjobs = λ w. (ok ("connector-a" ∷ "connector-b" ∷ []), w);
  get_kafka_consumer_lag = λ w. (ok (7000 - w), w);
  http_get_health = λ w. (ok 200, w);
  clock_ms = λ w. w;
  drain_timeout_ms = 600000;
}

abbrev start : Handler outside
start = record {
  trace = record { world = 0; log = [] };
  status = record { in_progress = none; state = none };
}

abbrev crons : List String
crons = "connector-a" ∷ "connector-b" ∷ []

run_coordinated_upgrade_lem_example :
    let (r, s') = run_coordinated_upgrade outside cluster 121 services_upgrade_order start in
    ((r ≡ ok (some tt))
      × (s'.status ≡ record { in_progress = some false; state = some ready })
      × (effects s'.trace.log
          ≡ []
            ++ (map suspend_cronjob crons
                ++ (rolls services_upgrade_order ++ map resume_cronjob crons))))
    ⊎ ((r ≢ ok (some tt))
        × (s'.status ≡ record { in_progress = some true; state = some upgrade_in_progress }))
run_coordinated_upgrade_lem_example =
    run_coordinated_upgrade_lem outside cluster 121 services_upgrade_order crons start refl

laws : ClockLaws outside cluster
laws = record { lag_takes = λ w. omega arith; sleep_takes = λ n w. omega arith }

drain_kafka_lag-ends_example : (drain_kafka_lag outside cluster 121 start).0 ≢ ok none
drain_kafka_lag-ends_example = drain_kafka_lag-ends laws 120 start (omega arith)
