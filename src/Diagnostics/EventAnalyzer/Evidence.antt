-- ===== src/Diagnostics/EventAnalyzer/Evidence.antt =====
-- What a category says of the event that has it: the false-positive protection of
-- `classify_event`, diagnostics/event_analyzer.py.
use pc_diagnostic_agent.Prelude.{
  ℕ, ◌≡◌, ◌⊎◌, inl, inr, Bool-cases, ap, ◌≢◌, true, false, Option, some, List, [], ◌∷◌, arith,
}
use pc_diagnostic_agent.Prelude.Text.{codes, lower, contains, same_text}
use pc_diagnostic_agent.Storage.Rows.{EventFields}
use pc_diagnostic_agent.Diagnostics.EventAnalyzer.Category.{
  Category, kernel_power, bugcheck, whea, disk, display, shutdown_clean, shutdown_unexpected,
  service_control, other,
}
use pc_diagnostic_agent.Diagnostics.EventAnalyzer.Classify.{
  provider_text, contains_any, event_id, id_in, is_kernel_power, is_bugcheck, is_whea, is_disk,
  is_display, is_service_control, shutdown_clean_ids, shutdown_unexpected_ids, classify,
  classify_event, or_empty, kernel_power_providers, bugcheck_providers, whea_providers,
  disk_providers, display_providers, disk_error_event_ids,
}

-- What has to hold of an event's provider, id and message for it to have a category.
abbrev Grounds : Category → List ℕ → Option ℕ → List ℕ → Type 0
Grounds kernel_power provider id message =
    (id ≡ some 41)
    × ((contains_any provider kernel_power_providers ≡ true)
        ⊎ (same_text provider (codes "EventLog") ≡ true))
Grounds bugcheck provider id message =
    (contains_any provider bugcheck_providers ≡ true)
    ⊎ ((id ≡ some 1001) × (contains (codes "bugcheck") message ≡ true))
Grounds whea provider id message =
    (contains_any provider whea_providers ≡ true)
    ⊎ (contains (codes "whea") (lower provider) ≡ true)
Grounds disk provider id message =
    (contains_any provider disk_providers ≡ true) × (id_in id disk_error_event_ids ≡ true)
Grounds display provider id message = contains_any provider display_providers ≡ true
Grounds shutdown_clean provider id message = (id ≡ some 6006) ⊎ (id ≡ some 1074)
Grounds shutdown_unexpected provider id message = id ≡ some 6008
Grounds service_control provider id message =
    same_text provider (codes "Service Control Manager") ≡ true
Grounds other provider id message = (id ≢ some 6006) × (id ≢ some 1074) × (id ≢ some 6008)

id_in_one : (id : Option ℕ) (n : ℕ) → id_in id (n ∷ []) ≡ true → id ≡ some n
id_in_one id n h = ground arith

module _ (provider : List ℕ) (id : Option ℕ) (message : List ℕ) where
  kernel_power-Grounds :
      is_kernel_power provider id ≡ true → Grounds kernel_power provider id message
  unfolding is_kernel_power
  kernel_power-Grounds h = ground (arith, id_in_one id 41)

  bugcheck-Grounds : is_bugcheck provider id message ≡ true → Grounds bugcheck provider id message
  unfolding is_bugcheck
  bugcheck-Grounds h = ground (arith, id_in_one id 1001)

  disk-Grounds : is_disk provider id ≡ true → Grounds disk provider id message
  unfolding is_disk
  disk-Grounds h = ground arith

  clean-Grounds : id_in id shutdown_clean_ids ≡ true → Grounds shutdown_clean provider id message
  clean-Grounds h = ground arith

  unexpected-Grounds :
      id_in id shutdown_unexpected_ids ≡ true → Grounds shutdown_unexpected provider id message
  unexpected-Grounds h = ground arith

  whea-Grounds : is_whea provider ≡ true → Grounds whea provider id message
  unfolding is_whea
  whea-Grounds h = ground arith

  other-Grounds :
      id_in id shutdown_clean_ids ≡ false
      → id_in id shutdown_unexpected_ids ≡ false
      → Grounds other provider id message
  other-Grounds h k = (
    λ e. cc (h, ap (λ i. id_in i shutdown_clean_ids) e),
    λ e. cc (h, ap (λ i. id_in i shutdown_clean_ids) e),
    λ e. cc (k, ap (λ i. id_in i shutdown_unexpected_ids) e),
  )

  -- Whatever category the chain of tests gives, the evidence for it is there.
  classify-Grounds : Grounds (classify provider id message) provider id message
  unfolding classify
  classify-Grounds = elim (Bool-cases (is_kernel_power provider id)) [
    | inl k ↦ rw k (kernel_power-Grounds k)
    | inr k ↦ rw k (elim (Bool-cases (is_bugcheck provider id message)) [
      | inl b ↦ rw b (bugcheck-Grounds b)
      | inr b ↦ rw b (elim (Bool-cases (is_whea provider)) [
        | inl w ↦ rw w (whea-Grounds w)
        | inr w ↦ rw w (elim (Bool-cases (is_disk provider id)) [
          | inl d ↦ rw d (disk-Grounds d)
          | inr d ↦ rw d (elim (Bool-cases (is_display provider)) [
            | inl g ↦ rw g (unfold is_display in g)
            | inr g ↦ rw g (elim (Bool-cases (id_in id shutdown_clean_ids)) [
              | inl c ↦ rw c (clean-Grounds c)
              | inr c ↦ rw c (elim (Bool-cases (id_in id shutdown_unexpected_ids)) [
                | inl u ↦ rw u (unexpected-Grounds u)
                | inr u ↦ rw u (elim (Bool-cases (is_service_control provider)) [
                  | inl s ↦ rw s (unfold is_service_control in s)
                  | inr s ↦ rw s (other-Grounds c u)
                ])
              ])
            ])
          ])
        ])
      ])
    ])
  ]

-- An event gets a category only on that category's evidence: kernel-power needs id 41, a disk error
-- needs a storage provider and a known disk error id, a clean or an unexpected shutdown needs its id,
-- and an event that is left over has none of the three shutdown ids.
classify_event-Grounds :
    (ev : EventFields)
    → Grounds (classify_event ev) (provider_text ev) (event_id ev) (lower (or_empty ev.message))
unfolding classify_event
classify_event-Grounds ev =
    classify-Grounds (provider_text ev) (event_id ev) (lower (or_empty ev.message))
