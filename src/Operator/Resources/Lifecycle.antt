-- ===== src/Operator/Resources/Lifecycle.antt =====
-- What is made for a resource is taken away with it, and which changes are blocked.
use aidata_pipeline.Prelude.{ℕ, ◌≡◌, ◌≢◌, ◌⊎◌, String, true, false, List, [], ◌∷◌, ◌++◌, arith}
use aidata_pipeline.Prelude.Action.{ok}
use aidata_pipeline.External.Calls.{Outside, Trace, Entry}
use aidata_pipeline.Operator.Resources.{
  Resource, kafka_topic, kafka_user, role, role_binding, Operation, apply, delete_resource,
  ConnectorSpec, EmbeddingSpec, running, blocked_dimension_change, ResourceState, applied,
  kafka_user_of, role_of, binding_of, workload_of, reconcile_connector, delete_connector,
  reconcile_embedding,
}

abbrev made_by : Operation → List Resource
made_by (apply r) = r ∷ []
made_by _ = []

abbrev removed_by : Operation → List Resource
removed_by (delete_resource r) = r ∷ []
removed_by _ = []

-- The resources applied and those deleted in a log, the latest first.
abbrev pub made : List (Entry Operation) → List Resource
made [] = []
made (x ∷ log) = made_by x.made ++ made log

abbrev pub removed : List (Entry Operation) → List Resource
removed [] = []
removed (x ∷ log) = removed_by x.made ++ removed log

module _ (o : Outside Operation) where
  -- A reconciliation that returns makes the topic that all connectors share, the connector's Kafka
  -- user, role and binding, and its workload; a deletion with the same spec that returns removes all
  -- of these but the topic, and makes nothing.
  pub connector_lifecycle :
      (spec : ConnectorSpec) (name : String) (s t : Trace o)
      → let user = kafka_user (kafka_user_of spec) in
        let own =
          workload_of spec name ∷ role_binding (binding_of name) ∷ role (role_of name) ∷ [] in
        ((reconcile_connector o spec name s).0 ≡ ok running
          → made (reconcile_connector o spec name s).1.log
            ≡ own ++ (user ∷ kafka_topic "raw-documents" ∷ made s.log))
        × ((delete_connector o spec name t).0 ≡ ok tt
            → (removed (delete_connector o spec name t).1.log ≡ user ∷ (own ++ removed t.log))
              × (made (delete_connector o spec name t).1.log ≡ made t.log))
  unfolding reconcile_connector delete_connector
  connector_lifecycle spec name s t = (λ h. ground arith, λ h. ground arith)

  -- A change of the dimension that is not confirmed does nothing but say so; anything else that
  -- returns ends applied.
  pub dimension_guard :
      (spec : EmbeddingSpec) (old_dim new_dim : ℕ) (s : Trace o)
      → (old_dim ≢ 0
          → new_dim ≢ 0
          → old_dim ≢ new_dim
          → spec.reindex_confirmed ≡ false
          → reconcile_embedding o spec old_dim new_dim s ≡ (ok (blocked_dimension_change 60), s))
        × ((old_dim ≡ 0) ⊎ (new_dim ≡ 0) ⊎ (old_dim ≡ new_dim) ⊎ (spec.reindex_confirmed ≡ true)
            → (state : ResourceState) → (reconcile_embedding o spec old_dim new_dim s).0 ≡ ok state
            → state ≡ applied)
  unfolding reconcile_embedding
  dimension_guard spec old_dim new_dim s = (λ a b c d. ground arith, λ h state e. ground arith)
