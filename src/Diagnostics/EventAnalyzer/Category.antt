-- ===== src/Diagnostics/EventAnalyzer/Category.antt =====
-- The categories of events, which are string constants in diagnostics/event_analyzer.py, as keys of
-- a dictionary.
use pc_diagnostic_agent.Prelude.{
  ℕ, zero, suc, ◌≡◌, refl, ◌↔◌, Bool, true, ◌==◌, ==_iff, ap, sym, ◌∙◌,
}
use pc_diagnostic_agent.Prelude.Dict.{Eq}

pub data Category : Type 0 where
  kernel_power bugcheck whea disk display : Category
  shutdown_clean shutdown_unexpected service_control other : Category

abbrev index : Category → ℕ
index kernel_power = 0
index bugcheck = 1
index whea = 2
index disk = 3
index display = 4
index shutdown_clean = 5
index shutdown_unexpected = 6
index service_control = 7
index other = 8

abbrev at_index : ℕ → Category
at_index zero = kernel_power
at_index (suc zero) = bugcheck
at_index (suc (suc zero)) = whea
at_index (suc (suc (suc zero))) = disk
at_index (suc (suc (suc (suc zero)))) = display
at_index (suc (suc (suc (suc (suc zero))))) = shutdown_clean
at_index (suc (suc (suc (suc (suc (suc zero)))))) = shutdown_unexpected
at_index (suc (suc (suc (suc (suc (suc (suc zero))))))) = service_control
at_index _ = other

at_index-index : (c : Category) → at_index (index c) ≡ c
at_index-index kernel_power = refl
at_index-index bugcheck = refl
at_index-index whea = refl
at_index-index disk = refl
at_index-index display = refl
at_index-index shutdown_clean = refl
at_index-index shutdown_unexpected = refl
at_index-index service_control = refl
at_index-index other = refl

unfoldable pub same_category : Category → Category → Bool
same_category a b = index a == index b

pub same_category_iff : (a b : Category) → (same_category a b ≡ true) ↔ (a ≡ b)
unfolding same_category
same_category_iff a b = (
  λ h. sym (at_index-index a) ∙ ap at_index ((==_iff (index a) (index b)).0 h) ∙ at_index-index b,
  λ e. (==_iff (index a) (index b)).1 (ap index e),
)

instance abbrev pub category_eq : Eq Category
category_eq = record { beq = same_category; beq_iff = same_category_iff }
