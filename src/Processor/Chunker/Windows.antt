-- ===== src/Processor/Chunker/Windows.antt =====
-- The windows that a chunker should cut, by what is left of the tokens: a last window that holds
-- all of it, or a full one, after which the cut moves on by a step.
use native.Mathlib.Nat.{zero-add}
use aidata_pipeline.Prelude.{
  ℕ, zero, suc, ◌+◌, ◌≤◌, ◌<◌, ◌≡◌, refl, sym, ap, List, [], ◌∷◌, ◌++◌, length, take, drop, All,
  arith, length-take, take-append-drop,
}

module _ {ℓ} {A : Type ℓ} where
  pub take_all : (n : ℕ) (xs : List A) → length xs ≤ n → take n xs ≡ xs
  take_all zero [] h = refl
  take_all zero (x ∷ xs) h = absurd (omega arith)
  take_all (suc n) [] h = refl
  take_all (suc n) (x ∷ xs) h = ap (◌∷◌ x) (take_all n xs (omega arith))

  pub take-take : (m n : ℕ) (xs : List A) → m ≤ n → take m (take n xs) ≡ take m xs
  take-take zero n xs h = refl
  take-take (suc m) zero xs h = absurd (omega arith)
  take-take (suc m) (suc n) [] h = refl
  take-take (suc m) (suc n) (x ∷ xs) h = ap (◌∷◌ x) (take-take m n xs (omega arith))

  drop-nil : (n : ℕ) → drop {A = A} n [] ≡ []
  drop-nil zero = refl
  drop-nil (suc n) = refl

  pub drop-drop : (m n : ℕ) (xs : List A) → drop n (drop m xs) ≡ drop (m + n) xs
  drop-drop zero n xs = rw (zero-add n)
  drop-drop (suc m) n [] = rw (drop-nil n) (sym (drop-nil (suc m + n)))
  drop-drop (suc m) n (x ∷ xs) =
      let e : suc m + n ≡ suc (m + n) = omega arith in rw e (drop-drop m n xs)

module _ {ℓ} {A : Type ℓ} (size step : ℕ) where
  pub data Windows : List A → List (List A) → Type ℓ where
    last : {xs : List A} → length xs ≤ size → Windows xs (xs ∷ [])
    more :
        {xs : List A} {ws : List (List A)}
        → size < length xs
        → Windows (drop step xs) ws
        → Windows xs (take size xs ∷ ws)

  -- The first `step` tokens of every window but the last, and the whole last one.
  abbrev pub rejoin : List (List A) → List A
  rejoin [] = []
  rejoin (w ∷ []) = w
  rejoin (w ∷ w' ∷ ws) = take step w ++ rejoin (w' ∷ ws)

  rejoin_more :
      {ys : List A} {ws : List (List A)} (xs : List A)
      → Windows ys ws
      → rejoin (xs ∷ ws) ≡ take step xs ++ rejoin ws
  rejoin_more xs (last h) = refl
  rejoin_more xs (more h w) = refl

  pub Windows-rejoin :
      {xs : List A} {ws : List (List A)} → step ≤ size → Windows xs ws → rejoin ws ≡ xs
  Windows-rejoin le (last h) = refl
  Windows-rejoin le (more {xs} {ws} h w) =
      rw (rejoin_more (take size xs) w, Windows-rejoin le w, take-take step size xs le)
        (take-append-drop step xs)

  pub Windows-sizes :
      {xs : List A} {ws : List (List A)} → Windows xs ws → All (λ w. length w ≤ size) ws
  Windows-sizes (last h) = (h, tt)
  Windows-sizes (more {xs} h w) = (omega (arith, length-take size xs), Windows-sizes w)
