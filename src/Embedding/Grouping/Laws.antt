-- ===== src/Embedding/Grouping/Laws.antt =====
-- The groups are those that filtering by each tenant gives.
use mathlib.Core.List.{append-nil, append_assoc}
use text.Mathlib.Text.{◌==◌}
use text.Mathlib.TextEquality.{eq_iff}
use text.Mathlib.TextPositions.{eq_refl}
use aidata_pipeline.Prelude.{
  ℕ, ◌+◌, ◌≡◌, String, List, [], ◌∷◌, ◌++◌, length, length-append, All, arith, if◌then◌else◌,
}
use aidata_pipeline.Embedding.Grouping.{append_to, group_onto, group_by}

module _ {A : Type 0} where
  -- `groups[key]`, where a missing key is an empty list.
  abbrev pub group_of : String → List (String × List A) → List A
  group_of key [] = []
  group_of key ((k, xs) ∷ groups) = if key == k then xs else group_of key groups

  -- The elements of one tenant, in their order.
  abbrev pub of_tenant : (A → String) → String → List A → List A
  of_tenant tenant_of key [] = []
  of_tenant tenant_of key (x ∷ xs) =
      if key == tenant_of x then x ∷ of_tenant tenant_of key xs else of_tenant tenant_of key xs

  -- How many elements the groups hold.
  abbrev pub total : List (String × List A) → ℕ
  total [] = 0
  total ((k, xs) ∷ groups) = length xs + total groups

  -- Every group holds elements of its own tenant only.
  abbrev pub IsOwned : (A → String) → List (String × List A) → Type 0
  IsOwned tenant_of groups = All (λ g. All (λ x. tenant_of x ≡ g.0) g.1) groups

  group_of-append_to :
      (key j : String) (x : A) (groups : List (String × List A))
      → group_of key (append_to j x groups)
        ≡ (if key == j then group_of key groups ++ (x ∷ []) else group_of key groups)
  unfolding append_to
  group_of-append_to key j x [] = ground arith
  group_of-append_to key j x ((k, xs) ∷ groups) = ground (
    arith,
    group_of-append_to key j x groups,
    eq_iff j k,
    eq_iff key j,
    eq_iff key k,
    eq_refl k,
    eq_refl j,
  )

  total-append_to :
      (j : String) (x : A) (groups : List (String × List A))
      → total (append_to j x groups) ≡ total groups + 1
  unfolding append_to
  total-append_to j x [] = omega arith
  total-append_to j x ((k, xs) ∷ groups) =
      ground (arith, total-append_to j x groups, length-append xs (x ∷ []))

  All-snoc : (P : A → Type 0) (xs : List A) (x : A) → All P xs → P x → All P (xs ++ (x ∷ []))
  All-snoc P [] x h p = (p, tt)
  All-snoc P (y ∷ ys) x h p = (h.0, All-snoc P ys x h.1 p)

  append_to-IsOwned :
      (tenant_of : A → String) (x : A) (groups : List (String × List A))
      → IsOwned tenant_of groups
      → IsOwned tenant_of (append_to (tenant_of x) x groups)
  unfolding append_to
  append_to-IsOwned tenant_of x [] h = ground arith
  append_to-IsOwned tenant_of x ((k, xs) ∷ groups) h = ground (
    arith,
    append_to-IsOwned tenant_of x groups,
    All-snoc (λ y. tenant_of y ≡ k) xs x,
    eq_iff (tenant_of x) k,
  )

  group_onto_lem :
      (tenant_of : A → String) (key : String) (xs : List A) (groups : List (String × List A))
      → IsOwned tenant_of groups
      → (group_of key (group_onto tenant_of xs groups)
          ≡ group_of key groups ++ of_tenant tenant_of key xs)
        × (total (group_onto tenant_of xs groups) ≡ total groups + length xs)
        × IsOwned tenant_of (group_onto tenant_of xs groups)
  unfolding group_onto
  group_onto_lem tenant_of key [] groups h = ground (arith, append-nil (group_of key groups))
  group_onto_lem tenant_of key (x ∷ xs) groups h =
      let groups' = append_to (tenant_of x) x groups in
      ground (
        arith,
        group_onto_lem tenant_of key xs groups',
        group_of-append_to key (tenant_of x) x groups,
        total-append_to (tenant_of x) x groups,
        append_to-IsOwned tenant_of x groups,
        append_assoc (group_of key groups) (x ∷ []) (of_tenant tenant_of key xs),
      )

  -- Grouping by tenant loses nothing and mixes nothing: a tenant's group is its elements in their
  -- order, the groups hold as many elements as there are, and each holds its own tenant's only.
  pub group_by_lem :
      (tenant_of : A → String) (key : String) (xs : List A)
      → (group_of key (group_by tenant_of xs) ≡ of_tenant tenant_of key xs)
        × (total (group_by tenant_of xs) ≡ length xs)
        × IsOwned tenant_of (group_by tenant_of xs)
  unfolding group_by
  group_by_lem tenant_of key xs = ground (arith, group_onto_lem tenant_of key xs [])
