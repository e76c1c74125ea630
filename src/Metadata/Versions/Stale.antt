-- ===== src/Metadata/Versions/Stale.antt =====
-- The answer of `query_stale` is in the order of the versions.
use aidata_pipeline.Prelude.{
  ℕ, suc, ◌≤◌, ◌≡◌, refl, ap, ◌∙◌, inl, inr, String, List, [], ◌∷◌, All, arith, Bool-cases, leb,
  concat_map, length,
}
use aidata_pipeline.Metadata.Tables.{Entity}
use aidata_pipeline.Metadata.Versions.{
  Version, Outdated, put_in_order, order_by_version, query_stale, outdated,
}

-- Each row's version is at most those of the rows behind it.
abbrev pub InOrder : List Outdated → Type 0
InOrder [] = Unit
InOrder (x ∷ xs) = All (λ y. x.schema_version ≤ y.schema_version) xs × InOrder xs

All-put_in_order :
    (n : ℕ) (x : Outdated) (ys : List Outdated)
    → n ≤ x.schema_version
    → All (λ y. n ≤ y.schema_version) ys
    → All (λ y. n ≤ y.schema_version) (put_in_order x ys)
unfolding put_in_order
All-put_in_order n x [] h hs = (h, tt)
All-put_in_order n x (y ∷ ys) h (k, ks) = ground (arith, h, k, ks, All-put_in_order n x ys h ks)

All-weaken :
    (m n : ℕ) (ys : List Outdated)
    → m ≤ n
    → All (λ y. n ≤ y.schema_version) ys
    → All (λ y. m ≤ y.schema_version) ys
All-weaken m n [] h k = tt
All-weaken m n (y ∷ ys) h (k, ks) = (omega (arith, h, k), All-weaken m n ys h ks)

put_in_order-InOrder :
    (x : Outdated) (ys : List Outdated) → InOrder ys → InOrder (put_in_order x ys)
unfolding put_in_order
put_in_order-InOrder x [] h = (tt, tt)
put_in_order-InOrder x (y ∷ ys) (h, hs) =
    elim (Bool-cases (leb x.schema_version y.schema_version)) [
      | inl t ↦
          let le : x.schema_version ≤ y.schema_version = ground (arith, t) in
          ground (arith, t, le, h, hs, All-weaken x.schema_version y.schema_version ys le h)
      | inr f ↦
          let le : y.schema_version ≤ x.schema_version = ground (arith, f) in
          ground
            (arith, f, put_in_order-InOrder x ys hs, All-put_in_order y.schema_version x ys le h)
    ]

length-put_in_order :
    (x : Outdated) (ys : List Outdated) → length (put_in_order x ys) ≡ suc (length ys)
unfolding put_in_order
length-put_in_order x [] = refl
length-put_in_order x (y ∷ ys) = ground (arith, length-put_in_order x ys)

order_by_version-InOrder : (xs : List Outdated) → InOrder (order_by_version xs)
unfolding order_by_version
order_by_version-InOrder [] = tt
order_by_version-InOrder (x ∷ xs) =
    put_in_order-InOrder x (order_by_version xs) (order_by_version-InOrder xs)

length-order_by_version : (xs : List Outdated) → length (order_by_version xs) ≡ length xs
unfolding order_by_version
length-order_by_version [] = refl
length-order_by_version (x ∷ xs) =
    length-put_in_order x (order_by_version xs) ∙ ap suc (length-order_by_version xs)

-- The answer has the rows that the joins give, as many, with the oldest version first.
pub query_stale-InOrder :
    (tenant_id : String) (versions : List Version) (entities : List Entity)
    → InOrder (query_stale tenant_id versions entities)
      × (length (query_stale tenant_id versions entities)
          ≡ length (concat_map (outdated tenant_id versions) entities))
unfolding query_stale
query_stale-InOrder tenant_id versions entities =
    let rows = concat_map (outdated tenant_id versions) entities in
    (order_by_version-InOrder rows, length-order_by_version rows)
