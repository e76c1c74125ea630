-- ===== src/Operator/Client/Effects.antt =====
-- What a method of the client makes of the cluster, as seen at any reference.
use aidata_pipeline.Prelude.{
  ℕ, ◌≡◌, inl, inr, true, Option, none, some, arith, Bool-cases, Option-cases, if◌then◌else◌,
}
use aidata_pipeline.Prelude.Action.{Returned, Result-cases}
use aidata_pipeline.External.Kubernetes.{Kubernetes, KubernetesLaws}
use aidata_pipeline.Operator.Manifests.{Ref, Body}
use aidata_pipeline.Operator.Client.{is_status, create_or_patch, ignore_missing}

module _ (k : Kubernetes Ref Body) where
  -- The object that is there after a body is applied.
  abbrev pub applied : Body → Option Body → Body
  applied body none = body
  applied body (some old) = k.merge body old

module _ (k : Kubernetes Ref Body) (laws : KubernetesLaws k) where
  is_status-some :
      (code : ℕ) (status : Option ℕ) → is_status code status ≡ true → status ≡ some code
  is_status-some code none h = ground (arith, h)
  is_status-some code (some n) h = ground (arith, h)

  -- An apply that returns leaves the object that it asks for, made anew or merged into the one there
  -- was, and every other object as it was.
  pub create_or_patch-object :
      (ref j : Ref) (body : Body) (s : k.Server)
      → Returned
          (λ _ s'.
            k.object s' j
            ≡ (if k.same_ref ref j then some (applied k body (k.object s ref)) else k.object s j))
          (create_or_patch k ref body s)
  unfolding create_or_patch
  create_or_patch-object ref j body s = elim (Result-cases (k.create ref body s).0) [
    | inl (a, e) ↦ ground (arith, e, laws.create_ok ref j body s)
    | inr (x, e) ↦ elim (Bool-cases (is_status 409 (k.status x))) [
      | inr f ↦ ground (arith, e, f)
      | inl t ↦
          let s1 : k.Server = (k.create ref body s).1 in
          let code = is_status-some 409 (k.status x) t in
          elim (Result-cases (k.patch ref body s1).0) [
            | inr (y, g) ↦ ground (arith, e, t, g)
            | inl (b, g) ↦ ground (
              arith,
              e,
              t,
              g,
              code,
              laws.create_conflict ref j body s,
              laws.create_conflict ref ref body s,
              laws.patch_ok ref j body s1,
              laws.patch_found ref body s1,
              Option-cases (k.object s ref),
            )
          ]
    ]
  ]

  -- A delete that returns leaves no object, whether there was one or not, and every other object as
  -- it was.
  pub delete-object :
      (ref j : Ref) (s : k.Server)
      → Returned
          (λ _ s'. k.object s' j ≡ (if k.same_ref ref j then none else k.object s j))
          (ignore_missing k (k.delete ref) s)
  unfolding ignore_missing
  delete-object ref j s = elim (Result-cases (k.delete ref s).0) [
    | inl (a, e) ↦ ground (arith, e, laws.delete_ok ref j s)
    | inr (x, e) ↦ elim (Bool-cases (is_status 404 (k.status x))) [
      | inr f ↦ ground (arith, e, f)
      | inl t ↦ ground (
        arith,
        e,
        t,
        is_status-some 404 (k.status x) t,
        laws.delete_missing ref j s,
        laws.same_ref_object ref j s,
      )
    ]
  ]
