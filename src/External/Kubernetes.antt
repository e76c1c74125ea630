-- ===== src/External/Kubernetes.antt =====
-- kubernetes-asyncio, as the operator uses it: requests for an object under a reference, which return
-- or raise. What is known of an `ApiException` is its status; after another failure nothing is known.
use aidata_pipeline.Prelude.{ℕ, ◌≡◌, Bool, true, Option, none, some, if◌then◌else◌}
use aidata_pipeline.Prelude.Action.{Action, Returned, FailedBy}

pub record Kubernetes (Ref Body : Type 0) : Type 1 where
  pub Server : Type 0
  pub Exn : Type 0
  -- `exc.status` of an `ApiException`.
  pub status : Exn → Option ℕ
  -- The object under a reference.
  pub object : Server → Ref → Option Body
  pub same_ref : Ref → Ref → Bool
  -- What a patch makes of an object.
  pub merge : (patch old : Body) → Body
  pub create : Ref → Body → Action Server Exn Unit
  pub patch : Ref → Body → Action Server Exn Unit
  pub delete : Ref → Action Server Exn Unit

-- What the documentation says of the requests: at any reference `j`, and of the one asked for.
pub record KubernetesLaws {Ref Body : Type 0} (k : Kubernetes Ref Body) : Type 0 where
  pub same_ref_object :
      (ref j : Ref) (s : k.Server) → k.same_ref ref j ≡ true → k.object s j ≡ k.object s ref
  pub create_ok :
      (ref j : Ref) (body : Body) (s : k.Server)
      → Returned
          (λ _ s'.
            (k.object s ref ≡ none)
            × (k.object s' j ≡ (if k.same_ref ref j then some body else k.object s j)))
          (k.create ref body s)
  pub create_conflict :
      (ref j : Ref) (body : Body) (s : k.Server)
      → FailedBy
          (λ e s'. k.status e ≡ some 409 → k.object s' j ≡ k.object s j)
          (k.create ref body s)
  pub patch_ok :
      (ref j : Ref) (body : Body) (s : k.Server)
      → Returned
          (λ _ s'. k.object s' j ≡ (
            if k.same_ref ref j
            then elim (k.object s ref) [ none ↦ none | some old ↦ some (k.merge body old) ]
            else k.object s j))
          (k.patch ref body s)
  -- It is only an object that there is that can be patched.
  pub patch_found :
      (ref : Ref) (body : Body) (s : k.Server)
      → Returned (λ _ s'. k.object s ref ≡ none → ⊥) (k.patch ref body s)
  pub delete_ok :
      (ref j : Ref) (s : k.Server)
      → Returned
          (λ _ s'. k.object s' j ≡ (if k.same_ref ref j then none else k.object s j))
          (k.delete ref s)
  pub delete_missing :
      (ref j : Ref) (s : k.Server)
      → FailedBy
          (λ e s'. k.status e ≡ some 404 → (k.object s ref ≡ none) × (k.object s' j ≡ k.object s j))
          (k.delete ref s)
  pub patch_missing :
      (ref j : Ref) (body : Body) (s : k.Server)
      → FailedBy
          (λ e s'. k.status e ≡ some 404 → (k.object s ref ≡ none) × (k.object s' j ≡ k.object s j))
          (k.patch ref body s)
