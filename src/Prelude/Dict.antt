-- ===== src/Prelude/Dict.antt =====
-- Python's `dict`: an association list in insertion order, over keys with an equality.
use Prim.Native.Nat.{ℕ, ◌+◌}
use mathlib.Core.Path.{◌≡◌, refl, ap, sym, subst}
use mathlib.Core.Logic.{◌↔◌, inl, inr}
use mathlib.Core.Bool.{Bool, true}
use mathlib.Core.Option.{Option, none, some, some-injective}
use mathlib.Core.List.{List, [], ◌∷◌, ◌++◌, append-nil}
use Prim.Native.String.{String}
use native.Mathlib.Omega.{arith}
use text.Mathlib.Text.{◌==◌ as str_eq}
use text.Mathlib.TextEquality.{eq_iff}
use pc_diagnostic_agent.Prelude.Lists.{All}
use pc_diagnostic_agent.Prelude.Tests.{if◌then◌else◌, Bool-cases, ◌==◌, ==_iff}

-- The equality of a type of keys.
pub record Eq {ℓ} (K : Type ℓ) : Type ℓ where
  pub beq : K → K → Bool
  pub beq_iff : (a b : K) → (beq a b ≡ true) ↔ (a ≡ b)

abbrev pub Dict {ℓ κ} : Type ℓ → Type κ → Type (ℓ ⊔ κ)
Dict K V = List (K × V)

module _ {ℓ κ} {K : Type ℓ} {V : Type κ} ⦃e : Eq K⦄ where
  -- d.get(k)
  unfoldable pub get : Dict K V → K → Option V
  get [] k = none
  get ((j, v) ∷ d) k = if e.beq j k then some v else get d k

  -- d.get(k, default)
  unfoldable pub get_or : Dict K V → K → V → V
  get_or [] k v = v
  get_or ((j, w) ∷ d) k v = if e.beq j k then w else get_or d k v

  -- d[k] = v: a key that is there keeps its place.
  unfoldable pub put : Dict K V → K → V → Dict K V
  put [] k v = (k, v) ∷ []
  put ((j, w) ∷ d) k v = if e.beq j k then (j, v) ∷ d else (j, w) ∷ put d k v

  -- d.pop(k, None), where k may be there more than once.
  unfoldable pub remove : Dict K V → K → Dict K V
  remove [] k = []
  remove ((j, w) ∷ d) k = let rest = remove d k in if e.beq j k then rest else (j, w) ∷ rest

  pub get-remove :
      (d : Dict K V) (k j : K) → get (remove d k) j ≡ (if e.beq k j then none else get d j)
  unfolding get remove
  get-remove [] k j = ground arith
  get-remove ((i, w) ∷ d) k j =
      ground (arith, e.beq_iff k j, e.beq_iff i k, e.beq_iff i j, get-remove d k j)

  -- What holds of every value holds of the one that is found.
  pub get-All {μ} :
      (P : V → Type μ) (d : Dict K V) (k : K) (v : V)
      → All (λ (entry : K × V). P entry.1) d
      → get d k ≡ some v
      → P v
  unfolding get
  get-All P [] k v h found = cc
  get-All P ((j, w) ∷ d) k v h found = elim (Bool-cases (e.beq j k)) [
    | inl same ↦ subst P (some-injective w v (rw same at found)) h.0
    | inr other ↦ get-All P d k v h.1 (rw other at found)
  ]

  pub get-put :
      (d : Dict K V) (k j : K) (v : V) → get (put d k v) j ≡ (if e.beq k j then some v else get d j)
  unfolding get put
  get-put [] k j v = refl
  get-put ((i, w) ∷ d) k j v =
      ground (arith, e.beq_iff k j, e.beq_iff i k, e.beq_iff i j, get-put d k j v)

  pub get_or-put :
      (d : Dict K V) (k j : K) (v w : V)
      → get_or (put d k v) j w ≡ (if e.beq k j then v else get_or d j w)
  unfolding get_or put
  get_or-put [] k j v w = refl
  get_or-put ((i, u) ∷ d) k j v w =
      ground (arith, e.beq_iff k j, e.beq_iff i k, e.beq_iff i j, get_or-put d k j v w)

pub beq_refl {ℓ} : {K : Type ℓ} ⦃e : Eq K⦄ (k : K) → e.beq k k ≡ true
beq_refl ⦃e⦄ k = (e.beq_iff k k).1 refl

instance abbrev pub string_eq : Eq String
string_eq = record { beq = str_eq; beq_iff = eq_iff }

instance abbrev pub nat_eq : Eq ℕ
nat_eq = record { beq = λ a b. a == b; beq_iff = ==_iff }

module _ {ℓ} {K : Type ℓ} ⦃e : Eq K⦄ where
  -- d[k] = d.get(k, 0) + 1
  pub get_or-put_add_one :
      (d : Dict K ℕ) (k j : K)
      → get_or (put d k (get_or d k 0 + 1)) j 0 ≡ get_or d j 0 + (if e.beq k j then 1 else 0)
  get_or-put_add_one d k j = elim (Bool-cases (e.beq k j)) [
    | inl same ↦
        rw (get_or-put d k j (get_or d k 0 + 1) 0, same)
          (ap (λ i. get_or d i 0 + 1) ((e.beq_iff k j).0 same))
    | inr differ ↦ rw (get_or-put d k j (get_or d k 0 + 1) 0, differ) (omega arith)
  ]

  -- d.setdefault(k, []).append(x)
  pub get_or-put_snoc {κ} :
      {V : Type κ} (d : Dict K (List V)) (k j : K) (x : V)
      → get_or (put d k (get_or d k [] ++ x ∷ [])) j []
        ≡ get_or d j [] ++ (if e.beq k j then x ∷ [] else [])
  get_or-put_snoc d k j x = elim (Bool-cases (e.beq k j)) [
    | inl same ↦
        rw (get_or-put d k j (get_or d k [] ++ x ∷ []) [], same)
          (ap (λ i. get_or d i [] ++ x ∷ []) ((e.beq_iff k j).0 same))
    | inr differ ↦
        rw (get_or-put d k j (get_or d k [] ++ x ∷ []) [], differ)
          (sym (append-nil (get_or d j [])))
  ]
