-- ===== src/Prelude/Top.antt =====
-- The first items of a sorted list: what `sorted(…)[:n]` and ORDER BY … LIMIT select.
use Prim.Native.Nat.{ℕ, zero, suc, ◌≤◌}
use mathlib.Core.Path.{◌≡◌, refl, sym, ap, subst}
use mathlib.Core.List.{List, [], ◌∷◌, ◌++◌, Perm}
use native.Mathlib.Omega.{arith}
use pc_diagnostic_agent.Prelude.Tests.{leb→le}
use pc_diagnostic_agent.Prelude.Lists.{length, take, drop, All, All-map}
use pc_diagnostic_agent.Prelude.Sort.{
  sort_by, sort_by-perm, Sorted, sort_by-Sorted, down, down_total,
}

module _ {ℓ} {A : Type ℓ} where
  All-drop : (P : A → Type 0) (n : ℕ) (xs : List A) → All P xs → All P (drop n xs)
  All-drop P zero xs h = h
  All-drop P (suc n) [] h = tt
  All-drop P (suc n) (x ∷ xs) h = All-drop P n xs h.1

  pub take-drop : (n : ℕ) (xs : List A) → take n xs ++ drop n xs ≡ xs
  take-drop zero xs = refl
  take-drop (suc n) [] = refl
  take-drop (suc n) (x ∷ xs) = ap (λ ys. x ∷ ys) (take-drop n xs)

  pub length-take : (n : ℕ) (xs : List A) → length (take n xs) ≤ n
  length-take zero xs = omega arith
  length-take (suc n) [] = omega arith
  length-take (suc n) (x ∷ xs) = omega (arith, length-take n xs)

module _ {ℓ} {A : Type ℓ} (key : A → ℕ) where
  -- No item of the second list is before one of the first by the key.
  abbrev pub IsAbove : List A → List A → Type 0
  IsAbove xs rest = All (λ x. All (λ y. key y ≤ key x) rest) xs

  Sorted-tail : (x : A) (xs : List A) → Sorted (down key) (x ∷ xs) → Sorted (down key) xs
  Sorted-tail x [] h = tt
  Sorted-tail x (y ∷ ys) h = h.1

  Sorted-above : (x : A) (xs : List A) → Sorted (down key) (x ∷ xs) → All (λ y. key y ≤ key x) xs
  Sorted-above x [] h = tt
  Sorted-above x (y ∷ ys) h =
      let first = leb→le (key y) (key x) h.0 in
      (first, All-map (λ q. key q ≤ key y) _ ys (λ q r. omega arith) (Sorted-above y ys h.1))

  take-IsAbove : (n : ℕ) (xs : List A) → Sorted (down key) xs → IsAbove (take n xs) (drop n xs)
  take-IsAbove zero xs h = tt
  take-IsAbove (suc n) [] h = tt
  take-IsAbove (suc n) (x ∷ xs) h = (
    All-drop (λ q. key q ≤ key x) n xs (Sorted-above x xs h),
    take-IsAbove n xs (Sorted-tail x xs h),
  )

  take-Sorted : (n : ℕ) (xs : List A) → Sorted (down key) xs → Sorted (down key) (take n xs)
  take-Sorted zero xs h = tt
  take-Sorted (suc n) [] h = tt
  take-Sorted (suc zero) (x ∷ xs) h = tt
  take-Sorted (suc (suc n)) (x ∷ []) h = tt
  take-Sorted (suc (suc n)) (x ∷ y ∷ ys) h = (h.0, take-Sorted (suc n) (y ∷ ys) h.1)

  -- The first `n` by descending key: with the rest they are all the items, none of the rest is above
  -- one that is taken, and they are `n` at most.
  pub first-IsAbove :
      (n : ℕ) (xs : List A)
      → Perm (take n (sort_by (down key) xs) ++ drop n (sort_by (down key) xs)) xs
        × IsAbove (take n (sort_by (down key) xs)) (drop n (sort_by (down key) xs))
        × (length (take n (sort_by (down key) xs)) ≤ n)
  first-IsAbove n xs =
      let sorted = sort_by (down key) xs in
      (
        subst (λ l. Perm l xs) (sym (take-drop n sorted)) (sort_by-perm (down key) xs),
        take-IsAbove n sorted (sort_by-Sorted (down key) (down_total key) xs),
        length-take n sorted,
      )

  pub first-Sorted : (n : ℕ) (xs : List A) → Sorted (down key) (take n (sort_by (down key) xs))
  first-Sorted n xs = take-Sorted n _ (sort_by-Sorted (down key) (down_total key) xs)
