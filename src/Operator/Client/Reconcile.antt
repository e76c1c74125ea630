-- ===== src/Operator/Client/Reconcile.antt =====
-- The handlers of a connector over the client: what they leave in the cluster.
use Prim.Native.String.{◌++◌}
use aidata_pipeline.Prelude.{
  ◌≡◌, refl, ◌∙◌, inl, inr, String, true, false, Option, none, some, arith, Bool-cases, [], ◌∷◌,
  if◌then◌else◌,
}
use aidata_pipeline.Prelude.Action.{Action, Result, ok, err, pure, ◌>>◌, Returned, Result-cases}
use aidata_pipeline.External.Kubernetes.{Kubernetes, KubernetesLaws}
use aidata_pipeline.External.Calls.{Trace}
use aidata_pipeline.Operator.Manifests.{
  Ref, Body, make_connector_role, make_connector_role_binding, kafka_topic_body, kafka_user_body,
  cronjob_body, deployment_body,
}
use aidata_pipeline.Operator.Resources.{
  kafka_topic, kafka_user, role, role_binding, Operation, apply, delete_resource, ConnectorSpec,
  kafka_user_of, role_of, binding_of, workload_at, workload_of, reconcile_connector,
  delete_connector, running,
}
use aidata_pipeline.Operator.Client.{
  create_or_patch, ignore_missing, connector_client, apply_kafka_topic, apply_kafka_user,
  apply_deployment, apply_cronjob, apply_role, apply_role_binding, delete_role, delete_role_binding,
  delete_deployment, delete_cronjob, delete_kafka_user, apply_resource, remove_resource,
  connector_answer,
}
use aidata_pipeline.Operator.Client.Calls.{
  ref_of, is_own, is_topic, Client, At, Yields, then-Yields, call-apply, call-delete, cleared,
}

module _ (k : Kubernetes Ref Body) (laws : KubernetesLaws k) (ns schedule : String)
    (other : Operation → Action k.Server k.Exn Unit) where
  abbrev workload_body : Option String → String → Body
  workload_body none name = deployment_body ("connector-" ++ name) ns
  workload_body (some String.[]) name = deployment_body ("connector-" ++ name) ns
  workload_body (some interval) name = cronjob_body ("connector-" ++ name) ns schedule

  workload-applied :
      (interval : Option String) (name : String)
      → connector_answer k name ns schedule other (apply (workload_at interval name))
        ≡ create_or_patch k (ref_of ns (workload_at interval name)) (workload_body interval name)
  unfolding connector_answer apply_resource apply_cronjob apply_deployment
  workload-applied none name = refl
  workload-applied (some String.[]) name = refl
  workload-applied (some (String.◌∷◌ c cs)) name = refl

  workload-removed :
      (interval : Option String) (name : String)
      → connector_answer k name ns schedule other (delete_resource (workload_at interval name))
        ≡ ignore_missing k (k.delete (ref_of ns (workload_at interval name)))
  unfolding connector_answer remove_resource delete_cronjob delete_deployment
  workload-removed none name = refl
  workload-removed (some String.[]) name = refl
  workload-removed (some (String.◌∷◌ c cs)) name = refl

  role-applied :
      (name : String)
      → connector_answer k name ns schedule other (apply (role (role_of name)))
        ≡ create_or_patch k (ref_of ns (role (role_of name))) (make_connector_role name ns)
  unfolding connector_answer apply_resource apply_role make_connector_role
  role-applied name = refl

  binding-applied :
      (name : String)
      → connector_answer k name ns schedule other (apply (role_binding (binding_of name)))
        ≡ create_or_patch k
            (ref_of ns (role_binding (binding_of name)))
            (make_connector_role_binding name "connector-sa" ns)
  unfolding connector_answer apply_resource apply_role_binding make_connector_role_binding
  binding-applied name = refl

  topic-applied :
      (name : String)
      → connector_answer k name ns schedule other (apply (kafka_topic "raw-documents"))
        ≡ create_or_patch k
            (ref_of ns (kafka_topic "raw-documents"))
            (kafka_topic_body "raw-documents" ns 4)
  unfolding connector_answer apply_resource apply_kafka_topic
  topic-applied name = refl

  user-applied :
      (name user : String)
      → connector_answer k name ns schedule other (apply (kafka_user user))
        ≡ create_or_patch k
            (ref_of ns (kafka_user user))
            (kafka_user_body user ns "raw-documents" ("Write" ∷ "Describe" ∷ []))
  unfolding connector_answer apply_resource apply_kafka_user
  user-applied name user = refl

  reconcile_connector-Yields :
      (spec : ConnectorSpec) (name : String) (j : Ref) (v : Option Body)
      → is_own k ns spec name j ≡ false
      → is_topic k ns j ≡ false
      → Yields k laws ns schedule other name
          (At k laws ns schedule other name j v)
          (At k laws ns schedule other name j v)
          (reconcile_connector (Client k laws ns schedule other name) spec name)
  unfolding reconcile_connector
  reconcile_connector-Yields spec name j v f t s h =
      let user = kafka_user_of spec in
      let P = At k laws ns schedule other name j v in
      let first = call-apply k laws ns schedule other name _ _ j _ v (topic-applied name) t in
      let second =
        call-apply k laws ns schedule other name _ _ j _ v (user-applied name user)
          (ground (arith, f)) in
      let third =
        call-apply k laws ns schedule other name _ _ j _ v (role-applied name)
          (ground (arith, f)) in
      let fourth =
        call-apply k laws ns schedule other name _ _ j _ v (binding-applied name)
          (ground (arith, f)) in
      let fifth =
        call-apply k laws ns schedule other name _ _ j _ v
          (workload-applied spec.poll_interval name) (ground (arith, f)) in
      then-Yields k laws ns schedule other name P P P _ (λ _. pure running)
        (then-Yields k laws ns schedule other name P P P _ _
          (then-Yields k laws ns schedule other name P P P _ _
            (then-Yields k laws ns schedule other name P P P _ _
              (then-Yields k laws ns schedule other name P P P _ _ first (λ _. second))
              (λ _. third))
            (λ _. fourth))
          (λ _. fifth))
        (λ _ s p. p) s h

  role-removed :
      (name n : String)
      → connector_answer k name ns schedule other (delete_resource (role n))
        ≡ ignore_missing k (k.delete (ref_of ns (role n)))
  unfolding connector_answer remove_resource delete_role
  role-removed name n = refl

  binding-removed :
      (name n : String)
      → connector_answer k name ns schedule other (delete_resource (role_binding n))
        ≡ ignore_missing k (k.delete (ref_of ns (role_binding n)))
  unfolding connector_answer remove_resource delete_role_binding
  binding-removed name n = refl

  user-removed :
      (name n : String)
      → connector_answer k name ns schedule other (delete_resource (kafka_user n))
        ≡ ignore_missing k (k.delete (ref_of ns (kafka_user n)))
  unfolding connector_answer remove_resource delete_kafka_user
  user-removed name n = refl

  Returned-At :
      (name : String) (j : Ref) (v w : Option Body)
      → v ≡ w
      → (r : Result k.Exn Unit × Trace (Client k laws ns schedule other name))
      → Returned (λ _ s. At k laws ns schedule other name j v s) r
      → Returned (λ _ s. At k laws ns schedule other name j w s) r
  Returned-At name j v w e (ok a, s) h = h ∙ e
  Returned-At name j v w e (err x, s) h = tt

  delete_connector-Yields :
      (spec : ConnectorSpec) (name : String) (j : Ref) (v : Option Body)
      → Yields k laws ns schedule other name
          (At k laws ns schedule other name j v)
          (At k laws ns schedule other name j (if is_own k ns spec name j then none else v))
          (delete_connector (Client k laws ns schedule other name) spec name)
  unfolding delete_connector
  delete_connector-Yields spec name j v s h =
      let user = kafka_user_of spec in
      let v1 = cleared k laws ns schedule other (ref_of ns (role (role_of name))) j v in
      let v2 = cleared k laws ns schedule other (ref_of ns (role_binding (binding_of name))) j v1 in
      let v3 = cleared k laws ns schedule other (ref_of ns (workload_of spec name)) j v2 in
      let v4 = cleared k laws ns schedule other (ref_of ns (kafka_user user)) j v3 in
      let first =
        call-delete k laws ns schedule other name _ _ j v (role-removed name (role_of name)) in
      let second =
        call-delete k laws ns schedule other name _ _ j v1
          (binding-removed name (binding_of name)) in
      let third =
        call-delete k laws ns schedule other name _ _ j v2
          (workload-removed spec.poll_interval name) in
      let fourth = call-delete k laws ns schedule other name _ _ j v3 (user-removed name user) in
      let all =
        then-Yields k laws ns schedule other name (At k laws ns schedule other name j v)
          (At k laws ns schedule other name j v3) (At k laws ns schedule other name j v4) _ _
          (then-Yields k laws ns schedule other name (At k laws ns schedule other name j v)
            (At k laws ns schedule other name j v2) (At k laws ns schedule other name j v3) _ _
            (then-Yields k laws ns schedule other name (At k laws ns schedule other name j v)
              (At k laws ns schedule other name j v1) (At k laws ns schedule other name j v2) _ _
              first (λ _. second))
            (λ _. third))
          (λ _. fourth) s h in
      let same : v4 ≡ (if is_own k ns spec name j then none else v) = ground arith in
      Returned-At name j v4 _ same _ all

  -- What is made for a connector is taken away with it. In a cluster where none of its role, binding,
  -- workload and Kafka user exists, when its reconciliation and then its deletion with the same spec
  -- both return, every object but the topic that the connectors share is as it was before them.
  pub reconcile_connector-delete_connector :
      (spec : ConnectorSpec) (name : String) (j : Ref)
      (s : Trace (connector_client k name ns schedule other))
      → (is_own k ns spec name j ≡ true → k.object s.world j ≡ none)
      → is_topic k ns j ≡ false
      → let client = connector_client k name ns schedule other in
        Returned
          (λ _ s'. k.object s'.world j ≡ k.object s.world j)
          ((reconcile_connector client spec name >> delete_connector client spec name) s)
  reconcile_connector-delete_connector spec name j s free t =
      let v = k.object s.world j in
      elim (Bool-cases (is_own k ns spec name j)) [
        | inr f ↦
            let back : (if is_own k ns spec name j then none else v) ≡ v = ground (arith, f) in
            Returned-At name j _ v back _ (
              then-Yields k laws ns schedule other name (At k laws ns schedule other name j v)
                (At k laws ns schedule other name j v) _
                (reconcile_connector (Client k laws ns schedule other name) spec name)
                (λ _. delete_connector (Client k laws ns schedule other name) spec name)
                (reconcile_connector-Yields spec name j v f t)
                (λ _. delete_connector-Yields spec name j v) s refl)
        | inl o ↦
            elim (Result-cases
              (reconcile_connector (Client k laws ns schedule other name) spec name s).0) [
                | inr (x, e) ↦ ground (arith, e)
                | inl (a, e) ↦
                    let s1 : Trace (Client k laws ns schedule other name) =
                      (reconcile_connector (Client k laws ns schedule other name) spec name s).1 in
                    let after = delete_connector-Yields spec name j (k.object s1.world j) s1 refl in
                    elim (Result-cases
                      (delete_connector (Client k laws ns schedule other name) spec name s1).0) [
                        | inr (y, g) ↦ ground (arith, e, g)
                        | inl (b, g) ↦ ground (arith, e, g, o, free o, after)
                      ]
              ]
      ]
