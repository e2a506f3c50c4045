-- ===== src/Prelude/Sort.antt =====
-- Python's stable `sorted` and SQL's ORDER BY: insertion in front of the first item that does not
-- have to come earlier.
use Prim.Native.Nat.{ℕ}
use mathlib.Core.Path.{◌≡◌, refl, sym, ap, ◌∙◌}
use mathlib.Core.Bool.{Bool, true, false}
use mathlib.Core.Logic.{inl, inr}
use mathlib.Core.Option.{some, some-injective}
use mathlib.Core.List.{List, [], ◌∷◌, ◌++◌, Perm, map}
use mathlib.Core.List.Perm
use native.Mathlib.Omega.{arith}
use pc_diagnostic_agent.Prelude.Tests.{ltb, leb, if◌then◌else◌, Bool-cases}
use pc_diagnostic_agent.Prelude.Lists.{any, ltb-count_where, All, head?, count_where, length}

module _ {ℓ} {A : Type ℓ} (le : A → A → Bool) where
  unfoldable pub insert_by : A → List A → List A
  insert_by x [] = x ∷ []
  insert_by x (y ∷ ys) = let rest = insert_by x ys in if le x y then x ∷ y ∷ ys else y ∷ rest

  unfoldable pub sort_by : List A → List A
  unfolding insert_by
  sort_by [] = []
  sort_by (x ∷ xs) = insert_by x (sort_by xs)

  pub insert_by_first : (x y : A) (ys : List A) → le x y ≡ true → insert_by x (y ∷ ys) ≡ x ∷ y ∷ ys
  unfolding insert_by
  insert_by_first x y ys h = rw h

  pub sort_by_cons : (x : A) (xs : List A) → sort_by (x ∷ xs) ≡ insert_by x (sort_by xs)
  unfolding sort_by
  sort_by_cons x xs = refl

  insert_by-perm : (x : A) (ys : List A) → Perm (insert_by x ys) (x ∷ ys)
  unfolding insert_by
  insert_by-perm x [] = Perm.refl (x ∷ [])
  insert_by-perm x (y ∷ ys) =
      let moved = Perm.trans (Perm.cons y (insert_by-perm x ys)) (Perm.swap x y ys) in
      let kept = Perm.refl (x ∷ y ∷ ys) in ground (arith, moved, kept)

  pub sort_by-perm : (xs : List A) → Perm (sort_by xs) xs
  unfolding sort_by
  sort_by-perm [] = Perm.refl []
  sort_by-perm (x ∷ xs) = Perm.trans (insert_by-perm x (sort_by xs)) (Perm.cons x (sort_by-perm xs))

  count_where-insert_by :
      (p : A → Bool) (x : A) (ys : List A) → count_where p (insert_by x ys) ≡ count_where p (x ∷ ys)
  unfolding insert_by
  count_where-insert_by p x [] = refl
  count_where-insert_by p x (y ∷ ys) = ground (arith, count_where-insert_by p x ys)

  All-insert_by {κ} :
      (P : A → Type κ) (x : A) (ys : List A) → P x → All P ys → All P (insert_by x ys)
  unfolding insert_by
  All-insert_by P x [] h k = (h, tt)
  All-insert_by P x (y ∷ ys) h k = elim (Bool-cases (le x y)) [
    | inl before ↦ rw before (h, k)
    | inr after ↦ rw after (k.0, All-insert_by P x ys h k.1)
  ]

  -- What holds of every item holds of the sorted ones.
  pub All-sort_by {κ} : (P : A → Type κ) (xs : List A) → All P xs → All P (sort_by xs)
  unfolding sort_by
  All-sort_by P [] h = tt
  All-sort_by P (x ∷ xs) h = All-insert_by P x (sort_by xs) h.0 (All-sort_by P xs h.1)

  pub count_where-sort_by :
      (p : A → Bool) (xs : List A) → count_where p (sort_by xs) ≡ count_where p xs
  unfolding sort_by
  count_where-sort_by p [] = refl
  count_where-sort_by p (x ∷ xs) =
      ground (arith, count_where-insert_by p x (sort_by xs), count_where-sort_by p xs)

  pub any-sort_by : (p : A → Bool) (xs : List A) → any p (sort_by xs) ≡ any p xs
  any-sort_by p xs =
      sym (ltb-count_where p (sort_by xs))
      ∙ ap (ltb 0) (count_where-sort_by p xs)
      ∙ ltb-count_where p xs

  length-insert_by : (x : A) (ys : List A) → length (insert_by x ys) ≡ length (x ∷ ys)
  unfolding insert_by
  length-insert_by x [] = refl
  length-insert_by x (y ∷ ys) = ground (arith, length-insert_by x ys)

  pub length-sort_by : (xs : List A) → length (sort_by xs) ≡ length xs
  unfolding sort_by
  length-sort_by [] = refl
  length-sort_by (x ∷ xs) = ground (arith, length-insert_by x (sort_by xs), length-sort_by xs)

  -- Each item comes no later than its successor.
  abbrev pub Sorted : List A → Type 0
  Sorted [] = Unit
  Sorted (x ∷ []) = Unit
  Sorted (x ∷ y ∷ ys) = (le x y ≡ true) × Sorted (y ∷ ys)

  module _ (total : (x y : A) → le x y ≡ false → le y x ≡ true) where
    insert_by-Sorted_behind :
        (x y : A) (ys : List A) → le y x ≡ true → Sorted (y ∷ ys) → Sorted (y ∷ insert_by x ys)
    unfolding insert_by
    insert_by-Sorted_behind x y [] h s = (h, tt)
    insert_by-Sorted_behind x y (z ∷ zs) h s = elim (Bool-cases (le x z)) [
      | inl before ↦ rw before (h, (before, s.1))
      | inr after ↦ rw after (s.0, insert_by-Sorted_behind x z zs (total x z after) s.1)
    ]

    insert_by-Sorted : (x : A) (ys : List A) → Sorted ys → Sorted (insert_by x ys)
    unfolding insert_by
    insert_by-Sorted x [] s = tt
    insert_by-Sorted x (y ∷ ys) s = elim (Bool-cases (le x y)) [
      | inl before ↦ rw before (before, s)
      | inr after ↦ rw after (insert_by-Sorted_behind x y ys (total x y after) s)
    ]

    pub sort_by-Sorted : (xs : List A) → Sorted (sort_by xs)
    unfolding sort_by
    sort_by-Sorted [] = tt
    sort_by-Sorted (x ∷ xs) = insert_by-Sorted x (sort_by xs) (sort_by-Sorted xs)

  head?-insert_by :
      (x y : A) (ys : List A) → le y x ≡ false → head? ys ≡ some x → head? (insert_by y ys) ≡ some x
  unfolding insert_by
  head?-insert_by x y [] h e = cc
  head?-insert_by x y (z ∷ zs) h e = ground arith

  -- An item that is put at the end and has to come before all the others comes first.
  pub head?-sort_by-append :
      (xs : List A) (x : A) → All (λ y. le y x ≡ false) xs → head? (sort_by (xs ++ x ∷ [])) ≡ some x
  unfolding sort_by
  head?-sort_by-append [] x h = refl
  head?-sort_by-append (y ∷ ys) x h =
      head?-insert_by x y (sort_by (ys ++ x ∷ [])) h.0 (head?-sort_by-append ys x h.1)

module _ {ℓ} {A : Type ℓ} (key : A → ℕ) where
  -- By ascending and by descending key.
  abbrev pub up : A → A → Bool
  up x y = leb (key x) (key y)

  abbrev pub down : A → A → Bool
  down x y = leb (key y) (key x)

  pub down_total : (x y : A) → down x y ≡ false → down y x ≡ true
  down_total x y h = ground arith

-- A change of the items that keeps their keys commutes with sorting by the key.
module _ {ℓ} {A : Type ℓ} (le : A → A → Bool) (g : A → A)
    (keeps : (x y : A) → le (g x) (g y) ≡ le x y) where
  map-insert_by : (x : A) (ys : List A) → insert_by le (g x) (map g ys) ≡ map g (insert_by le x ys)
  unfolding insert_by
  map-insert_by x [] = refl
  map-insert_by x (y ∷ ys) = elim (Bool-cases (le x y)) [
    | inl before ↦ rw (keeps x y, before) refl
    | inr after ↦ rw (keeps x y, after) (ap (λ l. g y ∷ l) (map-insert_by x ys))
  ]

  pub map-sort_by : (xs : List A) → sort_by le (map g xs) ≡ map g (sort_by le xs)
  unfolding sort_by
  map-sort_by [] = refl
  map-sort_by (x ∷ xs) = ap (insert_by le (g x)) (map-sort_by xs) ∙ map-insert_by x (sort_by le xs)

pub head?-map {ℓ} :
    {A : Type ℓ} (g : A → A) (xs : List A) (x : A)
    → head? xs ≡ some x
    → head? (map g xs) ≡ some (g x)
head?-map g [] x h = cc
head?-map g (y ∷ ys) x h = ap some (ap g (some-injective y x h))
