-- ===== src/Prelude/Lists.antt =====
-- Lists measured by native numbers, and the selections that the SQL queries make.
use Prim.Native.Nat.{ℕ, zero, suc, ◌+◌, min}
use mathlib.Core.Path.{◌≡◌, refl, ap, ◌∙◌, ap₂, subst}
use mathlib.Core.Bool.{Bool, true, false, ◌&&◌, ◌||◌}
use mathlib.Core.Logic.{inl, inr}
use mathlib.Core.Option.{Option, none, some, none-ne-some}
use mathlib.Core.List.{List, [], ◌∷◌, ◌++◌, map, reverse, reverse-cons}
use native.Mathlib.Omega.{arith}
use pc_diagnostic_agent.Prelude.Tests.{if◌then◌else◌, ltb, Bool-cases}

module _ {ℓ} {A : Type ℓ} where
  abbrev pub length : List A → ℕ
  length [] = 0
  length (x ∷ xs) = suc (length xs)

  abbrev pub take : ℕ → List A → List A
  take zero xs = []
  take (suc n) [] = []
  take (suc n) (x ∷ xs) = x ∷ take n xs

  abbrev pub drop : ℕ → List A → List A
  drop zero xs = xs
  drop (suc n) [] = []
  drop (suc n) (x ∷ xs) = drop n xs

  -- The rows of a table that a WHERE clause selects, in the table's order.
  abbrev pub where_rows : (A → Bool) → List A → List A
  where_rows p [] = []
  where_rows p (x ∷ xs) = if p x then x ∷ where_rows p xs else where_rows p xs

  -- Python's `any(p(x) for x in xs)` and `all(p(x) for x in xs)`.
  abbrev pub any : (A → Bool) → List A → Bool
  any p [] = false
  any p (x ∷ xs) = p x || any p xs

  abbrev pub all : (A → Bool) → List A → Bool
  all p [] = true
  all p (x ∷ xs) = p x && all p xs

  abbrev pub is_empty : List A → Bool
  is_empty [] = true
  is_empty (x ∷ xs) = false

  abbrev pub head? : List A → Option A
  head? [] = none
  head? (x ∷ xs) = some x

  -- How many items satisfy a test.
  abbrev pub count_where : (A → Bool) → List A → ℕ
  count_where p [] = 0
  count_where p (x ∷ xs) = if p x then suc (count_where p xs) else count_where p xs

  -- A predicate at every item, and at some item.
  abbrev pub All {κ} : (A → Type κ) → List A → Type κ
  All P [] = Unit
  All P (x ∷ xs) = P x × All P xs

  pub length-append : (xs ys : List A) → length (xs ++ ys) ≡ length xs + length ys
  length-append [] ys = omega arith
  length-append (x ∷ xs) ys = omega (arith, length-append xs ys)

  pub count_where-append :
      (p : A → Bool) (xs ys : List A)
      → count_where p (xs ++ ys) ≡ count_where p xs + count_where p ys
  count_where-append p [] ys = omega arith
  count_where-append p (x ∷ xs) ys = ground (arith, count_where-append p xs ys)

  pub length-where_rows : (p : A → Bool) (xs : List A) → length (where_rows p xs) ≡ count_where p xs
  length-where_rows p [] = refl
  length-where_rows p (x ∷ xs) = ground (arith, length-where_rows p xs)

  pub where_rows-append :
      (p : A → Bool) (xs ys : List A) → where_rows p (xs ++ ys) ≡ where_rows p xs ++ where_rows p ys
  where_rows-append p [] ys = refl
  where_rows-append p (x ∷ xs) ys = ground (arith, where_rows-append p xs ys)

  pub any-append : (p : A → Bool) (xs ys : List A) → any p (xs ++ ys) ≡ (any p xs || any p ys)
  any-append p [] ys = refl
  any-append p (x ∷ xs) ys = ground (arith, any-append p xs ys)

  pub where_rows-All : (p : A → Bool) (xs : List A) → All (λ x. p x ≡ true) (where_rows p xs)
  where_rows-All p [] = tt
  where_rows-All p (x ∷ xs) = ground (arith, where_rows-All p xs)

  pub ltb-count_where : (p : A → Bool) (xs : List A) → ltb 0 (count_where p xs) ≡ any p xs
  ltb-count_where p [] = refl
  ltb-count_where p (x ∷ xs) = ground (arith, ltb-count_where p xs)

  pub any-where_rows :
      (p q : A → Bool) (xs : List A) → any p (where_rows q xs) ≡ any (λ x. q x && p x) xs
  any-where_rows p q [] = refl
  any-where_rows p q (x ∷ xs) = ground (arith, any-where_rows p q xs)

  pub All-append {κ} : (P : A → Type κ) (xs ys : List A) → All P xs → All P ys → All P (xs ++ ys)
  All-append P [] ys h k = k
  All-append P (x ∷ xs) ys h k = (h.0, All-append P xs ys h.1 k)

  pub All-parts {κ} : (P : A → Type κ) (xs ys : List A) → All P (xs ++ ys) → All P xs × All P ys
  All-parts P [] ys h = (tt, h)
  All-parts P (x ∷ xs) ys h = let (first, last) = All-parts P xs ys h.1 in ((h.0, first), last)

  pub All-unreverse {κ} : (P : A → Type κ) (xs : List A) → All P (reverse xs) → All P xs
  All-unreverse P [] h = tt
  All-unreverse P (x ∷ xs) h =
      let (first, last) = All-parts P (reverse xs) (x ∷ []) (subst (All P) (reverse-cons x xs) h) in
      (last.0, All-unreverse P xs first)

  pub All-map {κ} : (P Q : A → Type κ) (xs : List A) → ((x : A) → P x → Q x) → All P xs → All Q xs
  All-map P Q [] f h = tt
  All-map P Q (x ∷ xs) f h = (f x h.0, All-map P Q xs f h.1)

  -- What no item satisfies selects nothing.
  pub where_rows_none :
      (p : A → Bool) (xs : List A) → All (λ x. p x ≡ false) xs → where_rows p xs ≡ []
  where_rows_none p [] h = refl
  where_rows_none p (x ∷ xs) h = ground (arith, where_rows_none p xs h.1)

  -- What every item satisfies selects everything.
  pub where_rows_whole :
      (p : A → Bool) (xs : List A) → All (λ x. p x ≡ true) xs → where_rows p xs ≡ xs
  where_rows_whole p [] h = refl
  where_rows_whole p (x ∷ xs) h = ground (arith, where_rows_whole p xs h.1)

  -- A selection of the new items at the end alone.
  pub where_rows_fresh :
      (p : A → Bool) (xs ys : List A)
      → All (λ x. p x ≡ false) xs
      → All (λ y. p y ≡ true) ys
      → where_rows p (xs ++ ys) ≡ ys
  where_rows_fresh p xs ys h k =
      where_rows-append p xs ys
      ∙ ap₂ (λ l m. l ++ m) (where_rows_none p xs h) (where_rows_whole p ys k)

  pub length-take-min : (n : ℕ) (xs : List A) → length (take n xs) ≡ min n (length xs)
  length-take-min zero xs = omega arith
  length-take-min (suc n) [] = omega arith
  length-take-min (suc n) (x ∷ xs) = omega (arith, length-take-min n xs)

  pub head?-take : (n : ℕ) (xs : List A) → head? (take (suc n) xs) ≡ head? xs
  head?-take n [] = refl
  head?-take n (x ∷ xs) = refl

  pub All-take {κ} : (P : A → Type κ) (n : ℕ) (xs : List A) → All P xs → All P (take n xs)
  All-take P zero xs h = tt
  All-take P (suc n) [] h = tt
  All-take P (suc n) (x ∷ xs) h = (h.0, All-take P n xs h.1)

  pub head?-append : (xs ys : List A) (x : A) → head? xs ≡ some x → head? (xs ++ ys) ≡ some x
  head?-append [] ys x h = absurd (none-ne-some x h)
  head?-append (z ∷ xs) ys x h = h

  -- A change of the items that keeps what a test says of them.
  pub where_rows-map :
      (p : A → Bool) (g : A → A) (xs : List A)
      → ((x : A) → p (g x) ≡ p x)
      → where_rows p (map g xs) ≡ map g (where_rows p xs)
  where_rows-map p g [] keeps = refl
  where_rows-map p g (x ∷ xs) keeps = elim (Bool-cases (p x)) [
    | inl e ↦ rw (keeps x, e) (ap (λ l. g x ∷ l) (where_rows-map p g xs keeps))
    | inr e ↦ rw (keeps x, e) (where_rows-map p g xs keeps)
  ]
