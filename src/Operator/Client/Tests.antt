-- ===== src/Operator/Client/Tests.antt =====
-- A cluster in memory.
use text.Mathlib.Text.{◌==◌ as str_eq}
use text.Mathlib.TextEquality.{eq_iff}
use aidata_pipeline.Prelude.{
  ℕ, ◌≡◌, refl, ap, sym, ◌∙◌, ◌==◌, Bool, true, false, ◌&&◌, Option, none, some, [], arith,
  if◌then◌else◌,
}
use aidata_pipeline.Prelude.Action.{Action, ok, err, ◌>>◌, Returned}
use aidata_pipeline.External.Kubernetes.{Kubernetes, KubernetesLaws}
use aidata_pipeline.External.Calls.{Outside, Trace}
use aidata_pipeline.Operator.Manifests.{
  Kind, kafka_topic_kind, kafka_user_kind, deployment_kind, cronjob_kind, role_kind,
  role_binding_kind, configmap_kind, Ref, Body, deployment_body,
}
use aidata_pipeline.Operator.Resources.{
  Operation, ConnectorSpec, reconcile_connector, delete_connector,
}
use aidata_pipeline.Operator.Client.{connector_client}
use aidata_pipeline.Operator.Upgrade.{
  Change, Handler, run_coordinated_upgrade, services_upgrade_order,
}
use aidata_pipeline.Operator.Client.Upgrading.{
  upgrade_client, upgrade_cluster, suspensions, restart_all, handled,
  run_coordinated_upgrade-Through,
}
use aidata_pipeline.Operator.Client.Reconcile.{reconcile_connector-delete_connector}

abbrev kind_code : Kind → ℕ
kind_code kafka_topic_kind = 0
kind_code kafka_user_kind = 1
kind_code deployment_kind = 2
kind_code cronjob_kind = 3
kind_code role_kind = 4
kind_code role_binding_kind = 5
kind_code configmap_kind = 6

abbrev kind_of : ℕ → Kind
kind_of n =
    if n == 0
    then kafka_topic_kind
    else if n == 1
    then kafka_user_kind
    else if n == 2
    then deployment_kind
    else if n == 3
    then cronjob_kind
    else if n == 4
    then role_kind
    else if n == 5
    then role_binding_kind
    else configmap_kind

kind_of-kind_code : (a : Kind) → kind_of (kind_code a) ≡ a
kind_of-kind_code kafka_topic_kind = refl
kind_of-kind_code kafka_user_kind = refl
kind_of-kind_code deployment_kind = refl
kind_of-kind_code cronjob_kind = refl
kind_of-kind_code role_kind = refl
kind_of-kind_code role_binding_kind = refl
kind_of-kind_code configmap_kind = refl

abbrev same : Ref → Ref → Bool
same a b =
    (kind_code a.kind == kind_code b.kind)
    && (str_eq a.name b.name && str_eq a.namespace b.namespace)

same-equal : (a b : Ref) → same a b ≡ true → a ≡ b
same-equal a b h =
    let code : kind_code a.kind ≡ kind_code b.kind = ground (arith, h) in
    let kind : a.kind ≡ b.kind =
      sym (kind_of-kind_code a.kind) ∙ (ap kind_of code ∙ kind_of-kind_code b.kind) in
    ground (arith, h, kind, eq_iff a.name b.name, eq_iff a.namespace b.namespace)

abbrev Objects : Type 0
Objects = Ref → Option Body

abbrev put : Ref → Option Body → Objects → Objects
put ref body objects j = if same ref j then body else objects j

abbrev is_none : Option Body → Bool
is_none none = true
is_none (some _) = false

abbrev memory : Kubernetes Ref Body
memory = record {
  Server = Objects;
  Exn = ℕ;
  status = λ code. some code;
  object = λ objects ref. objects ref;
  same_ref = same;
  merge = λ new old. record old { spec = new.spec };
  create = λ ref body objects.
      if is_none (objects ref) then (ok tt, put ref (some body) objects) else (err 409, objects);
  patch = λ ref body objects. elim (objects ref) [
    | none ↦ (err 404, objects)
    | some old ↦ (ok tt, put ref (some (record old { spec = body.spec })) objects)
  ];
  delete = λ ref objects.
      if is_none (objects ref) then (err 404, objects) else (ok tt, put ref none objects);
}

memory_laws : KubernetesLaws memory
memory_laws = record {
  same_ref_object = λ ref j s h. ap s (sym (same-equal ref j h));
  create_ok = λ ref j body s. ground arith;
  create_conflict = λ ref j body s. ground arith;
  patch_ok = λ ref j body s. ground arith;
  patch_found = λ ref body s. ground arith;
  delete_ok = λ ref j s. ground arith;
  delete_missing = λ ref j s. ground arith;
  patch_missing = λ ref j body s. ground arith;
}

abbrev deployment_ref : Ref
deployment_ref = record { kind = deployment_kind; name = "connector-c"; namespace = "ai" }

abbrev before : Objects
before = put deployment_ref (some (deployment_body "connector-c" "ai")) (λ _. none)

abbrev spec : ConnectorSpec
spec = record { tenant_id = "acme"; source_type = "s3"; poll_interval = some "5m" }

abbrev other : Operation → Action Objects ℕ Unit
other operation objects = (ok tt, objects)

abbrev client : Outside Operation
client = connector_client memory "c" "ai" "*/5 * * * *" other

abbrev start : Trace client
start = record { world = before; log = [] }

reconcile_connector-delete_connector_example :
    Returned
      (λ _ s'. s'.world deployment_ref ≡ before deployment_ref)
      ((reconcile_connector client spec "c" >> delete_connector client spec "c") start)
reconcile_connector-delete_connector_example =
    reconcile_connector-delete_connector memory memory_laws "ai" "*/5 * * * *" other spec "c"
      deployment_ref start (λ h. ground (arith, h)) refl

abbrev restarting : Outside Change
restarting = upgrade_client memory "ai" "now" (λ _. 0) 600000

abbrev handler : Handler restarting
handler = record {
  trace = record { world = before; log = [] };
  status = record { in_progress = none; state = none };
}

run_coordinated_upgrade-Through_example :
    let cluster = upgrade_cluster memory "ai" "now" (λ _. 0) 600000 in
    let (r, s') = run_coordinated_upgrade restarting cluster 1 services_upgrade_order handler in
    let (x, w) =
      restart_all memory "ai" "now" (λ _. 0) 600000 services_upgrade_order handler.trace.world in
    (r ≡ handled memory "ai" "now" (λ _. 0) 600000 (some tt) x)
    × (s'.trace.world ≡ w)
    × (suspensions memory "ai" "now" (λ _. 0) 600000 s'.trace.log ≡ 0)
run_coordinated_upgrade-Through_example =
    run_coordinated_upgrade-Through memory "ai" "now" (λ _. 0) 600000 0 services_upgrade_order
      handler
