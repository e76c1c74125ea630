-- ===== src/Operator/Client/Upgrading.antt =====
-- The coordinated upgrade over the client that the operator runs with, whose answers about the cluster
-- are those of the class that it inherits from.
use aidata_pipeline.Prelude.{
  ℕ, suc, ◌+◌, ◌≡◌, ◌≢◌, inl, inr, String, true, some, List, [], ◌∷◌, arith,
}
use aidata_pipeline.Prelude.Action.{Action, Result, ok, err, pure, ◌>>◌, Result-cases}
use aidata_pipeline.External.Kubernetes.{Kubernetes}
use aidata_pipeline.External.Calls.{Outside, Entry}
use aidata_pipeline.Operator.Manifests.{Ref, Body}
use aidata_pipeline.Operator.Upgrade.{
  Change, suspend_cronjob, resume_cronjob, rollout_restart, wait_deployment_ready, sleep_ms,
  Cluster, Handler, Failure, temporary_error, raised, change, suspend_all, resume_all, roll_all,
  poll_lag, drain_loop, drain_kafka_lag, run_coordinated_upgrade, upgrade_in_progress,
}
use aidata_pipeline.Operator.Client.{
  restart_deployment, list_cronjobs, get_kafka_consumer_lag, http_get,
}
use aidata_pipeline.Operator.Client

module _ (k : Kubernetes Ref Body) (namespace now : String) (clock_ms : k.Server → ℕ)
    (drain_timeout_ms : ℕ) where
  unfoldable pub upgrade_answer : Change → Action k.Server k.Exn Unit
  upgrade_answer (suspend_cronjob n) = Client.suspend_cronjob k n
  upgrade_answer (resume_cronjob n) = Client.resume_cronjob k n
  upgrade_answer (rollout_restart n) = restart_deployment k now n namespace
  upgrade_answer (wait_deployment_ready n) = Client.wait_deployment_ready k n
  upgrade_answer (sleep_ms n) = pure tt

  -- The client as the upgrade calls it; a sleep asks nothing of the cluster.
  abbrev pub upgrade_client : Outside Change
  upgrade_client = record { World = k.Server; Exn = k.Exn; answer = upgrade_answer }

  abbrev pub upgrade_cluster : Cluster upgrade_client
  upgrade_cluster = record {
    list_cronjobs = list_cronjobs k;
    get_kafka_consumer_lag = get_kafka_consumer_lag k;
    http_get_health = http_get k;
    clock_ms = clock_ms;
    drain_timeout_ms = drain_timeout_ms;
  }

  abbrev suspensions_by : Change → ℕ
  suspensions_by (suspend_cronjob n) = 1
  suspensions_by _ = 0

  -- How often a log asks that a cron job be suspended.
  abbrev pub suspensions : List (Entry Change) → ℕ
  suspensions [] = 0
  suspensions (x ∷ log) = suspensions_by x.made + suspensions log

  roll_all-Through :
      (services : List String) (s : Handler upgrade_client) (n : ℕ)
      → ((roll_all upgrade_client upgrade_cluster services s).0 ≢ err (temporary_error n))
        × (suspensions (roll_all upgrade_client upgrade_cluster services s).1.trace.log
            ≡ suspensions s.trace.log)
  unfolding roll_all
  roll_all-Through [] s n = ground arith
  roll_all-Through (svc ∷ services) s n =
      let first =
        change upgrade_client upgrade_cluster (rollout_restart svc)
        >> change upgrade_client upgrade_cluster (wait_deployment_ready svc) in
      elim (Result-cases (first s).0) [
        | inl (a, e) ↦ ground (arith, e, roll_all-Through services (first s).1 n)
        | inr (x, e) ↦ ground (arith, e)
      ]

  -- The restarts of the deployments, one after another until one raises.
  abbrev pub restart_all : List String → Action k.Server k.Exn Unit
  restart_all [] = pure tt
  restart_all (svc ∷ services) = restart_deployment k now svc namespace >> restart_all services

  -- What an exception of the cluster becomes in the handler.
  abbrev pub handled : {A : Type 0} → A → Result k.Exn Unit → Result (Failure k.Exn) A
  handled a (ok _) = ok a
  handled a (err e) = err (raised e)

  roll_all-restart_all :
      (services : List String) (s : Handler upgrade_client)
      → let (r, s') = roll_all upgrade_client upgrade_cluster services s in
        let (x, w) = restart_all services s.trace.world in (r ≡ handled tt x) × (s'.trace.world ≡ w)
  unfolding roll_all upgrade_answer Client.wait_deployment_ready
  roll_all-restart_all [] s = ground arith
  roll_all-restart_all (svc ∷ services) s =
      let first =
        change upgrade_client upgrade_cluster (rollout_restart svc)
        >> change upgrade_client upgrade_cluster (wait_deployment_ready svc) in
      elim (Result-cases (restart_deployment k now svc namespace s.trace.world).0) [
        | inl (a, e) ↦ ground (arith, e, roll_all-restart_all services (first s).1)
        | inr (x, e) ↦ ground (arith, e)
      ]

  -- On the client that it runs with, the upgrade is the restarts of the services and nothing else: it
  -- leaves the cluster as they do, returns if they all return, and otherwise fails as they do. So it
  -- never asks to be run again, and it calls for no suspension of a cron job.
  pub run_coordinated_upgrade-Through :
      (fuel : ℕ) (services : List String) (s : Handler upgrade_client)
      → let (r, s') =
          run_coordinated_upgrade upgrade_client upgrade_cluster (suc fuel) services s in
        let (x, w) = restart_all services s.trace.world in
        (r ≡ handled (some tt) x)
        × (s'.trace.world ≡ w)
        × (suspensions s'.trace.log ≡ suspensions s.trace.log)
  unfolding run_coordinated_upgrade suspend_all resume_all drain_kafka_lag drain_loop poll_lag
      list_cronjobs get_kafka_consumer_lag http_get
  run_coordinated_upgrade-Through fuel services s =
      let s1 : Handler upgrade_client = record s {
        status = record { in_progress = some true; state = some upgrade_in_progress };
      } in
      let rolled = roll_all-Through services s1 0 in
      let restarted = roll_all-restart_all services s1 in
      elim (Result-cases (restart_all services s.trace.world).0) [
        | inl (a, e) ↦ ground (arith, e, rolled, restarted)
        | inr (x, e) ↦ ground (arith, e, rolled, restarted)
      ]
