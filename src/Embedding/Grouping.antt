-- ===== src/Embedding/Grouping.antt =====
-- services/embedding-worker/src/worker.py: the grouping of a batch's rows by tenant, in a dict of
-- lists that keeps the order in which its keys came.
pub mod Laws
use text.Mathlib.Text.{◌==◌}
use aidata_pipeline.Prelude.{String, Bool, true, false, List, [], ◌∷◌, ◌++◌, if◌then◌else◌}

-- `groups[key].append(x)`
unfoldable pub append_to :
    {A : Type 0} → String → A → List (String × List A) → List (String × List A)
append_to key x [] = (key, x ∷ []) ∷ []
append_to key x ((k, xs) ∷ groups) =
    let rest = append_to key x groups in
    if key == k then (k, xs ++ (x ∷ [])) ∷ groups else (k, xs) ∷ rest

-- The loop over the rows, from the groups there are.
unfoldable pub group_onto :
    {A : Type 0} → (A → String) → List A → List (String × List A) → List (String × List A)
unfolding append_to
group_onto tenant_of [] groups = groups
group_onto tenant_of (x ∷ xs) groups = group_onto tenant_of xs (append_to (tenant_of x) x groups)

unfoldable pub group_by : {A : Type 0} → (A → String) → List A → List (String × List A)
unfolding group_onto
group_by tenant_of xs = group_onto tenant_of xs []
