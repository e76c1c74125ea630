-- ===== src/Prelude/Lists.antt =====
-- Lists measured and cut by native numbers, under the library's names.
use Prim.Native.Nat.{ℕ, zero, suc, ◌+◌, ◌-◌, min}
use mathlib.Core.Path.{◌≡◌, refl, ap}
use mathlib.Core.List.{List, [], ◌∷◌, ◌++◌, map}
use native.Mathlib.Omega.{arith}
use mathlib.Core.Bool.{Bool, true}
use mathlib.Core.Logic.{inl, inr}
use aidata_pipeline.Prelude.Tests.{Bool-cases, if◌then◌else◌}

module _ {ℓ} {A : Type ℓ} where
  abbrev pub length : List A → ℕ
  length [] = 0
  length (x ∷ xs) = suc (length xs)

  pub length-append : (xs ys : List A) → length (xs ++ ys) ≡ length xs + length ys
  length-append [] ys = omega arith
  length-append (x ∷ xs) ys = omega (arith, length-append xs ys)

-- The elements of a list, one after another, put before those of a log, the latest first.
abbrev pub onto {ℓ} : {A : Type ℓ} → List A → List A → List A
onto [] log = log
onto (x ∷ xs) log = onto xs (x ∷ log)

module _ {ℓ} {A : Type ℓ} where
  abbrev pub take : ℕ → List A → List A
  take zero xs = []
  take (suc n) [] = []
  take (suc n) (x ∷ xs) = x ∷ take n xs

  abbrev pub drop : ℕ → List A → List A
  drop zero xs = xs
  drop (suc n) [] = []
  drop (suc n) (x ∷ xs) = drop n xs

  pub take-append-drop : (n : ℕ) (xs : List A) → take n xs ++ drop n xs ≡ xs
  take-append-drop zero xs = refl
  take-append-drop (suc n) [] = refl
  take-append-drop (suc n) (x ∷ xs) = rw (take-append-drop n xs)

  pub length-take : (n : ℕ) (xs : List A) → length (take n xs) ≡ min n (length xs)
  length-take zero xs = omega arith
  length-take (suc n) [] = omega arith
  length-take (suc n) (x ∷ xs) = omega (arith, length-take n xs)

  pub length-drop : (n : ℕ) (xs : List A) → length (drop n xs) ≡ length xs - n
  length-drop zero xs = omega arith
  length-drop (suc n) [] = omega arith
  length-drop (suc n) (x ∷ xs) = omega (arith, length-drop n xs)

  pub length-map {κ} : {B : Type κ} (xs : List A) (f : A → B) → length (map f xs) ≡ length xs
  length-map [] f = refl
  length-map (x ∷ xs) f = ap suc (length-map xs f)

-- A property of every element.
abbrev pub All {ℓ κ} : {A : Type ℓ} → (A → Type κ) → List A → Type κ
All P [] = Unit
All P (x ∷ xs) = P x × All P xs

-- `[g(x) for x in xs if test(x)]`
unfoldable pub select_where {ℓ κ} :
    {A : Type ℓ} {B : Type κ} → (A → Bool) → (A → B) → List A → List B
select_where test g [] = []
select_where test g (x ∷ xs) =
    if test x then g x ∷ select_where test g xs else select_where test g xs

unfoldable pub concat_map {ℓ κ} : {A : Type ℓ} {B : Type κ} → (A → List B) → List A → List B
concat_map f [] = []
concat_map f (x ∷ xs) = f x ++ concat_map f xs

pub All-append {ℓ μ} :
    {A : Type ℓ} (P : A → Type μ) (xs ys : List A) → All P xs → All P ys → All P (xs ++ ys)
All-append P [] ys h k = k
All-append P (x ∷ xs) ys (h, hs) k = (h, All-append P xs ys hs k)

pub All-both {ℓ μ} :
    {A : Type ℓ} (P Q : A → Type μ) (xs : List A) → All P xs → All Q xs → All (λ x. P x × Q x) xs
All-both P Q [] h k = tt
All-both P Q (x ∷ xs) (h, hs) (k, ks) = ((h, k), All-both P Q xs hs ks)

module _ {ℓ κ} {A : Type ℓ} {B : Type κ} where
  pub All-select_where {μ} :
      (P : A → Type μ) (Q : B → Type μ) (test : A → Bool) (g : A → B) (xs : List A)
      → ((x : A) → test x ≡ true → P x → Q (g x))
      → All P xs
      → All Q (select_where test g xs)
  unfolding select_where
  All-select_where P Q test g [] k h = tt
  All-select_where P Q test g (x ∷ xs) k (h, hs) =
      let rest = All-select_where P Q test g xs k hs in
      elim (Bool-cases (test x)) [
        | inl t ↦ ground (arith, t, rest, k x t h)
        | inr f ↦ ground (arith, f, rest)
      ]

module _ {ℓ κ} {A : Type ℓ} {B : Type κ} where
  pub All-concat_map {μ} :
      (P : A → Type μ) (Q : B → Type μ) (f : A → List B) (xs : List A)
      → ((x : A) → P x → All Q (f x))
      → All P xs
      → All Q (concat_map f xs)
  unfolding concat_map
  All-concat_map P Q f [] k h = tt
  All-concat_map P Q f (x ∷ xs) k (h, hs) =
      All-append Q (f x) (concat_map f xs) (k x h) (All-concat_map P Q f xs k hs)

pub concat_map-empty :
    {A B : Type 0} (P : A → Type 0) (f : A → List B) (xs : List A)
    → ((x : A) → P x → f x ≡ [])
    → All P xs
    → concat_map f xs ≡ []
unfolding concat_map
concat_map-empty P f [] k h = refl
concat_map-empty P f (x ∷ xs) k (h, hs) = ground (arith, k x h, concat_map-empty P f xs k hs)
