-- ===== src/Operator/Client/Calls.antt =====
-- One call of a handler over the client, as seen at any reference.
use aidata_pipeline.Prelude.{
  ◌≡◌, ap, inl, inr, String, Bool, false, ◌||◌, Option, none, arith, if◌then◌else◌,
}
use aidata_pipeline.Prelude.Action.{Action, ◌>>=◌, Returned, Result-cases}
use aidata_pipeline.External.Kubernetes.{Kubernetes, KubernetesLaws}
use aidata_pipeline.External.Calls.{Outside, Trace, call}
use aidata_pipeline.Operator.Manifests.{
  kafka_topic_kind, kafka_user_kind, deployment_kind, cronjob_kind, role_kind, role_binding_kind,
  Ref, Body,
}
use aidata_pipeline.Operator.Resources.{
  Resource, kafka_topic, kafka_user, role, role_binding, cronjob, deployment, Operation,
  ConnectorSpec, kafka_user_of, role_of, binding_of, workload_of,
}
use aidata_pipeline.Operator.Client.{
  create_or_patch, ignore_missing, connector_client, connector_answer,
}
use aidata_pipeline.Operator.Client.Effects.{create_or_patch-object, delete-object}

-- Where the client puts a resource.
abbrev pub ref_of : String → Resource → Ref
ref_of ns (kafka_topic n) = record { kind = kafka_topic_kind; name = n; namespace = ns }
ref_of ns (kafka_user n) = record { kind = kafka_user_kind; name = n; namespace = ns }
ref_of ns (role n) = record { kind = role_kind; name = n; namespace = ns }
ref_of ns (role_binding n) = record { kind = role_binding_kind; name = n; namespace = ns }
ref_of ns (cronjob n) = record { kind = cronjob_kind; name = n; namespace = ns }
ref_of ns (deployment n) = record { kind = deployment_kind; name = n; namespace = ns }

module _ (k : Kubernetes Ref Body) where
  -- A reference to one of the objects that belong to the connector alone.
  abbrev pub is_own : String → ConnectorSpec → String → Ref → Bool
  is_own ns spec name j =
      k.same_ref (ref_of ns (role (role_of name))) j
      || (k.same_ref (ref_of ns (role_binding (binding_of name))) j
          || (k.same_ref (ref_of ns (workload_of spec name)) j
              || k.same_ref (ref_of ns (kafka_user (kafka_user_of spec))) j))

  abbrev pub is_topic : String → Ref → Bool
  is_topic ns j = k.same_ref (ref_of ns (kafka_topic "raw-documents")) j

module _ (k : Kubernetes Ref Body) (laws : KubernetesLaws k) (ns schedule : String)
    (other : Operation → Action k.Server k.Exn Unit) where
  abbrev pub Client : String → Outside Operation
  Client name = connector_client k name ns schedule other

  abbrev pub At : (name : String) → Ref → Option Body → Trace (Client name) → Type 0
  At name j v s = k.object s.world j ≡ v

  -- From a state with `P`, an action that returns ends in one with `Q`.
  abbrev pub Yields :
      (name : String)
      → (P Q : Trace (Client name) → Type 0) → {A : Type 0} → Action (Trace (Client name)) k.Exn A
      → Type 0
  Yields name P Q m = (s : Trace (Client name)) → P s → Returned (λ _ s'. Q s') (m s)

  pub then-Yields :
      (name : String) {A B : Type 0} (P Q R : Trace (Client name) → Type 0)
      (m : Action (Trace (Client name)) k.Exn A) (f : A → Action (Trace (Client name)) k.Exn B)
      → Yields name P Q m
      → ((a : A) → Yields name Q R (f a))
      → Yields name P R (m >>= f)
  then-Yields name P Q R m f first after s p = elim (Result-cases (m s).0) [
    | inl (a, e) ↦ ground (arith, e, first s p, after a (m s).1)
    | inr (x, e) ↦ ground (arith, e)
  ]

  pub call-apply :
      (name : String) (c : Operation) (ref j : Ref) (body : Body) (v : Option Body)
      → connector_answer k name ns schedule other c ≡ create_or_patch k ref body
      → k.same_ref ref j ≡ false
      → Yields name (At name j v) (At name j v) (call (Client name) c)
  call-apply name c ref j body v e f s h =
      ground (arith, h, f, ap (λ m. m s.world) e, create_or_patch-object k laws ref j body s.world)

  abbrev pub cleared : Ref → Ref → Option Body → Option Body
  cleared ref j v = if k.same_ref ref j then none else v

  pub call-delete :
      (name : String) (c : Operation) (ref j : Ref) (v : Option Body)
      → connector_answer k name ns schedule other c ≡ ignore_missing k (k.delete ref)
      → Yields name (At name j v) (At name j (cleared ref j v)) (call (Client name) c)
  call-delete name c ref j v e s h =
      ground (arith, h, ap (λ m. m s.world) e, delete-object k laws ref j s.world)
