-- ===== src/Operator/Upgrade.antt =====
-- services/pipeline-operator/operator/handlers.py: the coordinated upgrade of a PipelineCluster. What
-- Kubernetes, Kafka and the RAG API answer is a parameter; the log keeps the changes asked for.
pub mod Order
mod Tests
use text.Mathlib.Text.{◌==◌}
use aidata_pipeline.Prelude.{
  ℕ, zero, suc, ◌+◌, ◌-◌, min, String, Bool, true, false, Option, none, some, List, [], ◌∷◌, not,
  ltb, leb, if◌then◌else◌,
}
use aidata_pipeline.Prelude.Action.{
  Action, Result, ok, err, pure, raise, raise_if, modify, ◌>>=◌, ◌>>◌,
}
use aidata_pipeline.Operator.{is_ok_status}
use aidata_pipeline.External.Calls.{Outside, Trace, call}

pub data Change : Type 0 where
  suspend_cronjob resume_cronjob : String → Change
  rollout_restart : String → Change
  wait_deployment_ready : String → Change
  sleep_ms : ℕ → Change

pub data ClusterState : Type 0 where
  upgrade_in_progress ready : ClusterState

-- `patch.status`
pub record Status : Type 0 where
  pub in_progress : Option Bool
  pub state : Option ClusterState

-- How the handler fails: by a `TemporaryError` with the delay before it is run again, or by what a
-- call raised.
pub data Failure (Exn : Type 0) : Type 0 where
  temporary_error : ℕ → Failure Exn
  raised : Exn → Failure Exn

pub record Cluster (o : Outside Change) : Type 0 where
  pub list_cronjobs : Action o.World o.Exn (List String)
  pub get_kafka_consumer_lag : Action o.World o.Exn ℕ
  pub http_get_health : Action o.World o.Exn ℕ
  pub clock_ms : o.World → ℕ
  pub drain_timeout_ms : ℕ

pub record Handler (o : Outside Change) : Type 0 where
  pub trace : Trace o
  pub status : Status

-- `_SERVICES_UPGRADE_ORDER`
abbrev pub services_upgrade_order : List String
services_upgrade_order = "doc-processor" ∷ "embedding-worker" ∷ "rag-api" ∷ []

abbrev pub reverse_onto {ℓ} : {A : Type ℓ} → List A → List A → List A
reverse_onto [] ys = ys
reverse_onto (x ∷ xs) ys = reverse_onto xs (x ∷ ys)

-- `_version_lt` on the parts of two versions: tuples are compared like words, a prefix first. A
-- version that does not parse counts as the one part 0.
unfoldable pub parts_lt : List ℕ → List ℕ → Bool
parts_lt [] [] = false
parts_lt [] (y ∷ ys) = true
parts_lt (x ∷ xs) [] = false
parts_lt (x ∷ xs) (y ∷ ys) =
    let rest = parts_lt xs ys in if ltb x y then true else if ltb y x then false else rest

abbrev pub parts_or_zero : Option (List ℕ) → List ℕ
parts_or_zero none = 0 ∷ []
parts_or_zero (some parts) = parts

-- `min(5.0, remaining)`
unfoldable pub pause_ms : ℕ → ℕ → ℕ
pause_ms deadline now = min 5000 (deadline - now)

module _ (o : Outside Change) (cluster : Cluster o) where
  abbrev pub Run : Type 0 → Type 0
  Run A = Action (Handler o) (Failure o.Exn) A

  abbrev pub ask : {A : Type 0} → Action o.World o.Exn A → Run A
  ask m s =
      let (r, w) = m s.trace.world in
      (
        elim r [ ok a ↦ ok a | err e ↦ err (raised e) ],
        record s { trace = record { world = w; log = s.trace.log } },
      )

  abbrev pub change : Change → Run Unit
  change c s =
      let (r, t) = call o c s.trace in
      (elim r [ ok a ↦ ok a | err e ↦ err (raised e) ], record s { trace = t })

  abbrev pub set_status : Bool → ClusterState → Run Unit
  set_status in_progress state =
      modify
        (λ s. record s { status = record { in_progress = some in_progress; state = some state } })

  unfoldable pub suspend_all : List String → Run Unit
  suspend_all [] = pure tt
  suspend_all (cron ∷ crons) = change (suspend_cronjob cron) >> suspend_all crons

  unfoldable pub resume_all : List String → Run Unit
  resume_all [] = pure tt
  resume_all (cron ∷ crons) = change (resume_cronjob cron) >> resume_all crons

  unfoldable pub roll_all : List String → Run Unit
  roll_all [] = pure tt
  roll_all (svc ∷ services) =
      change (rollout_restart svc) >> change (wait_deployment_ready svc) >> roll_all services

  -- The body of the loop of `_drain_kafka_lag`: whether it has ended. Time is read after the lag.
  unfoldable pub poll_lag : ℕ → Run Bool
  unfolding pause_ms
  poll_lag deadline = ask cluster.get_kafka_consumer_lag >>= λ lag s.
      let now = cluster.clock_ms s.trace.world in
      elim lag [
        | zero ↦ (ok true, s)
        | suc n ↦
            (if leb deadline now
                then raise (temporary_error 60)
                else change (sleep_ms (pause_ms deadline now)) >> pure false)
              s
      ]

  -- The loop on fuel: none when it runs out.
  unfoldable pub drain_loop : ℕ → ℕ → Run (Option Unit)
  unfolding poll_lag
  drain_loop zero deadline s = (ok none, s)
  drain_loop (suc fuel) deadline s =
      (poll_lag deadline >>= λ ended. elim ended [
        | true ↦ pure (some tt)
        | false ↦ drain_loop fuel deadline
      ])
        s

  -- `_drain_kafka_lag`
  unfoldable pub drain_kafka_lag : ℕ → Run (Option Unit)
  unfolding drain_loop
  drain_kafka_lag fuel s =
      drain_loop fuel (cluster.clock_ms s.trace.world + cluster.drain_timeout_ms) s

  -- `_run_coordinated_upgrade`; none when the fuel of the draining runs out.
  unfoldable pub run_coordinated_upgrade : ℕ → List String → Run (Option Unit)
  unfolding suspend_all resume_all roll_all drain_kafka_lag
  run_coordinated_upgrade fuel services = set_status true upgrade_in_progress >>= λ _.
      ask cluster.list_cronjobs >>= λ crons. suspend_all crons >>= λ _.
      drain_kafka_lag fuel >>= λ drained. elim drained [
        | none ↦ pure none
        | some _ ↦ roll_all services >>= λ _. ask cluster.http_get_health >>= λ health_status.
            raise_if (not (is_ok_status health_status)) (temporary_error 30) >>= λ _.
            resume_all crons >>= λ _. set_status false ready >>= λ _. pure (some tt)
      ]

  -- `reconcile_pipeline_cluster`, where a version is given with its parts, if they parse.
  unfoldable pub reconcile_pipeline_cluster :
      ℕ → String × Option (List ℕ) → String × Option (List ℕ) → Run (Option Unit)
  unfolding run_coordinated_upgrade parts_lt
  reconcile_pipeline_cluster fuel (old_version, old_parts) (new_version, new_parts) =
      if old_version == ""
      then pure (some tt)
      else if old_version == new_version
      then pure (some tt)
      else run_coordinated_upgrade fuel (
          if parts_lt (parts_or_zero new_parts) (parts_or_zero old_parts)
          then reverse_onto services_upgrade_order []
          else services_upgrade_order)
