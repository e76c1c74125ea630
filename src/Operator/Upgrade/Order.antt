-- ===== src/Operator/Upgrade/Order.antt =====
-- In which order an upgrade changes the cluster, and that its waiting ends.
use mathlib.Core.List.{append-nil, append_assoc}
use aidata_pipeline.Prelude.{
  ℕ, zero, suc, ◌+◌, ◌*◌, ◌≤◌, ◌<◌, ◌≡◌, ◌≢◌, ◌⊎◌, inl, inr, String, Bool, true, false, none, some,
  List, [], ◌∷◌, ◌++◌, map, arith,
}
use aidata_pipeline.Prelude.Action.{ok, Result-cases}
use aidata_pipeline.External.Calls.{Outside, Entry}
use aidata_pipeline.Operator.Upgrade.{
  Change, suspend_cronjob, resume_cronjob, rollout_restart, wait_deployment_ready, sleep_ms,
  pause_ms, upgrade_in_progress, ready, Cluster, Handler, ask, change, poll_lag, set_status,
  suspend_all, resume_all, roll_all, drain_loop, drain_kafka_lag, run_coordinated_upgrade,
}

abbrev effect : Change → Bool → List Change
effect (sleep_ms _) b = []
effect c true = c ∷ []
effect c false = []

-- The changes of a log that were made, pauses aside, the earliest first.
abbrev pub effects : List (Entry Change) → List Change
effects [] = []
effects (x ∷ log) = effects log ++ effect x.made x.returned

-- Restarting each service and waiting for it before the next.
abbrev pub rolls : List String → List Change
rolls [] = []
rolls (svc ∷ services) = rollout_restart svc ∷ wait_deployment_ready svc ∷ rolls services

module _ (o : Outside Change) (cluster : Cluster o) where
  suspend_all_lem :
      (crons : List String) (s : Handler o)
      → let (r, s') = suspend_all o cluster crons s in
        (s'.status ≡ s.status)
        × (r ≡ ok tt → effects s'.trace.log ≡ effects s.trace.log ++ map suspend_cronjob crons)
  unfolding suspend_all
  suspend_all_lem [] s = ground (arith, append-nil (effects s.trace.log))
  suspend_all_lem (cron ∷ crons) s = ground (
    arith,
    suspend_all_lem crons (change o cluster (suspend_cronjob cron) s).1,
    append_assoc (effects s.trace.log) (suspend_cronjob cron ∷ []) (map suspend_cronjob crons),
  )

  resume_all_lem :
      (crons : List String) (s : Handler o)
      → let (r, s') = resume_all o cluster crons s in
        (s'.status ≡ s.status)
        × (r ≡ ok tt → effects s'.trace.log ≡ effects s.trace.log ++ map resume_cronjob crons)
  unfolding resume_all
  resume_all_lem [] s = ground (arith, append-nil (effects s.trace.log))
  resume_all_lem (cron ∷ crons) s = ground (
    arith,
    resume_all_lem crons (change o cluster (resume_cronjob cron) s).1,
    append_assoc (effects s.trace.log) (resume_cronjob cron ∷ []) (map resume_cronjob crons),
  )

  roll_all_lem :
      (services : List String) (s : Handler o)
      → let (r, s') = roll_all o cluster services s in
        (s'.status ≡ s.status)
        × (r ≡ ok tt → effects s'.trace.log ≡ effects s.trace.log ++ rolls services)
  unfolding roll_all
  roll_all_lem [] s = ground (arith, append-nil (effects s.trace.log))
  roll_all_lem (svc ∷ services) s =
      let s1 = (change o cluster (rollout_restart svc) s).1 in
      let s2 = (change o cluster (wait_deployment_ready svc) s1).1 in
      ground (
        arith,
        roll_all_lem services s2,
        append_assoc (effects s.trace.log) (rollout_restart svc ∷ [])
            (wait_deployment_ready svc ∷ []),
        append_assoc (effects s.trace.log) (rollout_restart svc ∷ wait_deployment_ready svc ∷ [])
            (rolls services),
      )

  poll_lag_lem :
      (deadline : ℕ) (s : Handler o)
      → let (r, s') = poll_lag o cluster deadline s in
        (s'.status ≡ s.status) × (effects s'.trace.log ≡ effects s.trace.log)
  unfolding poll_lag
  poll_lag_lem deadline s = ground (arith, append-nil (effects s.trace.log))

  drain_loop_lem :
      (fuel deadline : ℕ) (s : Handler o)
      → let (r, s') = drain_loop o cluster fuel deadline s in
        (s'.status ≡ s.status) × (effects s'.trace.log ≡ effects s.trace.log)
  unfolding drain_loop
  drain_loop_lem zero deadline s = ground arith
  drain_loop_lem (suc fuel) deadline s =
      let polled = poll_lag o cluster deadline s in
      let same = poll_lag_lem deadline s in
      elim (Result-cases polled.0) [
        | inl (true, e) ↦ ground (arith, same)
        | inl (false, e) ↦ ground (arith, same, drain_loop_lem fuel deadline polled.1)
        | inr (x, e) ↦ ground (arith, same)
      ]

  -- An upgrade that comes to its end has suspended all the connectors' jobs, restarted each service in
  -- the order given, waiting for it before the next, and then resumed all the jobs, with nothing else
  -- between; the status is ready. One that fails leaves the status at in progress.
  pub run_coordinated_upgrade_lem :
      (fuel : ℕ) (services crons : List String) (s : Handler o)
      → (cluster.list_cronjobs s.trace.world).0 ≡ ok crons
      → let (r, s') = run_coordinated_upgrade o cluster fuel services s in
        ((r ≡ ok (some tt))
          × (s'.status ≡ record { in_progress = some false; state = some ready })
          × (effects s'.trace.log
              ≡ effects s.trace.log
                ++ (map suspend_cronjob crons ++ (rolls services ++ map resume_cronjob crons))))
        ⊎ ((r ≢ ok (some tt))
            × (s'.status ≡ record { in_progress = some true; state = some upgrade_in_progress }))
  unfolding run_coordinated_upgrade drain_kafka_lag
  run_coordinated_upgrade_lem fuel services crons s h =
      let s1 =
        (ask o cluster cluster.list_cronjobs
          (set_status o cluster true upgrade_in_progress s).1).1 in
      let s2 = (suspend_all o cluster crons s1).1 in
      let deadline = cluster.clock_ms s2.trace.world + cluster.drain_timeout_ms in
      let s3 = (drain_loop o cluster fuel deadline s2).1 in
      let s4 = (roll_all o cluster services s3).1 in
      let s5 = (ask o cluster cluster.http_get_health s4).1 in
      let e = effects s.trace.log in
      ground (
        arith,
        suspend_all_lem crons s1,
        drain_loop_lem fuel deadline s2,
        roll_all_lem services s3,
        resume_all_lem crons s5,
        append_assoc e (map suspend_cronjob crons) (rolls services ++ map resume_cronjob crons),
        append_assoc (e ++ map suspend_cronjob crons) (rolls services) (map resume_cronjob crons),
      )

pause_ms_lem :
    (deadline now : ℕ) → (deadline ≤ now + pause_ms deadline now) ⊎ (5000 ≤ pause_ms deadline now)
unfolding pause_ms
pause_ms_lem deadline now = omega arith

-- The clock does not go back while Kafka is asked, and a sleep lasts as long as it says.
pub record ClockLaws (o : Outside Change) (cluster : Cluster o) : Type 0 where
  pub lag_takes :
      (w : o.World) → cluster.clock_ms w ≤ cluster.clock_ms (cluster.get_kafka_consumer_lag w).1
  pub sleep_takes :
      (n : ℕ) (w : o.World) → cluster.clock_ms w + n ≤ cluster.clock_ms (o.answer (sleep_ms n) w).1

module _ {o : Outside Change} {cluster : Cluster o} (laws : ClockLaws o cluster) where
  poll_lag-advances :
      (deadline : ℕ) (s : Handler o)
      → let (r, s') = poll_lag o cluster deadline s in
        r ≡ ok false
        → (cluster.clock_ms s.trace.world < deadline)
          × ((deadline ≤ cluster.clock_ms s'.trace.world)
              ⊎ (cluster.clock_ms s.trace.world + 5000 ≤ cluster.clock_ms s'.trace.world))
  unfolding poll_lag
  poll_lag-advances deadline s h =
      let w = (cluster.get_kafka_consumer_lag s.trace.world).1 in
      let now = cluster.clock_ms w in
      ground (
        arith,
        laws.lag_takes s.trace.world,
        laws.sleep_takes (pause_ms deadline now) w,
        pause_ms_lem deadline now,
      )

  drain_loop-ends :
      (k deadline : ℕ) (s : Handler o)
      → deadline ≤ cluster.clock_ms s.trace.world + 5000 * k
      → (drain_loop o cluster (suc k) deadline s).0 ≢ ok none
  unfolding drain_loop
  drain_loop-ends zero deadline s h = elim (Result-cases (poll_lag o cluster deadline s).0) [
    | inl (true, e) ↦ ground arith
    | inl (false, e) ↦ ground (arith, poll_lag-advances deadline s e)
    | inr (x, e) ↦ ground arith
  ]
  drain_loop-ends (suc k) deadline s h =
      let polled = poll_lag o cluster deadline s in
      elim (Result-cases polled.0) [
        | inl (true, e) ↦ ground arith
        | inl (false, e) ↦
            let near : deadline ≤ cluster.clock_ms polled.1.trace.world + 5000 * k =
              omega (arith, poll_lag-advances deadline s e) in
            ground (arith, drain_loop-ends k deadline polled.1 near)
        | inr (x, e) ↦ ground arith
      ]

  -- Where the clock advances as sleeps say, waiting for Kafka to drain ends: one round for every five
  -- seconds of the timeout, and one more, are enough fuel.
  pub drain_kafka_lag-ends :
      (k : ℕ) (s : Handler o)
      → cluster.drain_timeout_ms ≤ 5000 * k
      → (drain_kafka_lag o cluster (suc k) s).0 ≢ ok none
  unfolding drain_kafka_lag
  drain_kafka_lag-ends k s h =
      drain_loop-ends k (cluster.clock_ms s.trace.world + cluster.drain_timeout_ms) s
        (omega (arith, h))
