-- ===== src/Diagnostics/Diagnosis/Findings/Exact.antt =====
-- Which findings `_build_findings` gives, and in which order, diagnostics/diagnosis.py.
use mathlib.Core.Path.{ap₂}
use pc_diagnostic_agent.Prelude.{
  ◌≡◌, ◌∙◌, Bool, true, false, not, ◌&&◌, ◌||◌, Option, none, some, List, [], ◌∷◌, ◌++◌, arith, any,
  any-append, ltb,
}
use pc_diagnostic_agent.Prelude.Int.{ℤ, leb_ℤ}
use pc_diagnostic_agent.Prelude.Sort.{down, any-sort_by}
use pc_diagnostic_agent.Storage.Rows.{FindingType, Finding}
use pc_diagnostic_agent.Agent.Config.{Config}
use pc_diagnostic_agent.Diagnostics.EventAnalyzer.Summary.{Summary}
use pc_diagnostic_agent.Diagnostics.HangDetector.{TerminationInference}
use pc_diagnostic_agent.Diagnostics.Diagnosis.Queries.{Aggregates}
use pc_diagnostic_agent.Diagnostics.Diagnosis.Findings.{
  hardware_finding, disk_finding, display_finding, thermal_finding, memory_finding, cpu_finding,
  termination_finding, collected_findings, or_insufficient, build_findings, severity_rank,
}

-- Whether a reading is there and reaches its threshold.
abbrev pub reaches : Option ℤ → ℤ → Bool
reaches none threshold = false
reaches (some x) threshold = leb_ℤ threshold x

module _ (p : FindingType → Bool) where
  -- Whether there is a finding whose type passes the test.
  abbrev pub found : List Finding → Bool
  found fs = any (λ (f : Finding). p f.type) fs

  module _ (summary : Summary) (aggregates : Aggregates) (inference : TerminationInference)
      (config : Config) where
    found-hardware :
        found (hardware_finding summary) ≡ (ltb 0 summary.whea_count && p FindingType.hardware)
    unfolding hardware_finding
    found-hardware = ground arith

    found-disk :
        found (disk_finding summary) ≡ (ltb 0 summary.disk_error_count && p FindingType.disk)
    unfolding disk_finding
    found-disk = ground arith

    found-display :
        found (display_finding summary) ≡ (ltb 0 summary.display_error_count && p FindingType.gpu)
    unfolding display_finding
    found-display = ground arith

    found-thermal : found (thermal_finding aggregates config) ≡ (
        reaches aggregates.max_temperature config.temperature_critical_celsius
        && p FindingType.thermal)
    unfolding thermal_finding
    found-thermal = ground arith

    found-memory : found (memory_finding aggregates config) ≡ (
        reaches aggregates.max_memory_percent config.memory_warning_percent && p FindingType.memory)
    unfolding memory_finding
    found-memory = ground arith

    found-cpu :
        found (cpu_finding aggregates config)
        ≡ (reaches aggregates.max_cpu_percent config.cpu_warning_percent && p FindingType.cpu)
    unfolding cpu_finding
    found-cpu = ground arith

    found-termination : found (termination_finding inference) ≡ (
        (inference.probable_hard_hang && p FindingType.hard_hang)
        || ((not inference.probable_hard_hang && inference.probable_power_loss)
            && p FindingType.power_loss)
        || ((not inference.probable_hard_hang
              && not inference.probable_power_loss
              && inference.probable_crash)
            && p FindingType.crash))
    unfolding termination_finding
    found-termination = ground arith

-- What each type of finding takes, but for the one of insufficient evidence.
abbrev pub warrants : Summary → Aggregates → TerminationInference → Config → FindingType → Bool
warrants s a i c FindingType.hardware = ltb 0 s.whea_count
warrants s a i c FindingType.disk = ltb 0 s.disk_error_count
warrants s a i c FindingType.gpu = ltb 0 s.display_error_count
warrants s a i c FindingType.thermal = reaches a.max_temperature c.temperature_critical_celsius
warrants s a i c FindingType.memory = reaches a.max_memory_percent c.memory_warning_percent
warrants s a i c FindingType.cpu = reaches a.max_cpu_percent c.cpu_warning_percent
warrants s a i c FindingType.hard_hang = i.probable_hard_hang
warrants s a i c FindingType.power_loss = not i.probable_hard_hang && i.probable_power_loss
warrants s a i c FindingType.crash =
    not i.probable_hard_hang && not i.probable_power_loss && i.probable_crash
warrants s a i c FindingType.driver = false
warrants s a i c FindingType.insufficient = false

-- Whether a type that is warranted passes a test.
abbrev pub some_warranted : (FindingType → Bool) → (FindingType → Bool) → Bool
some_warranted w p =
    (w FindingType.hardware && p FindingType.hardware)
    || (w FindingType.disk && p FindingType.disk)
    || (w FindingType.gpu && p FindingType.gpu)
    || (w FindingType.thermal && p FindingType.thermal)
    || (w FindingType.memory && p FindingType.memory)
    || (w FindingType.cpu && p FindingType.cpu)
    || (w FindingType.hard_hang && p FindingType.hard_hang)
    || (w FindingType.power_loss && p FindingType.power_loss)
    || (w FindingType.crash && p FindingType.crash)

found-append :
    (p : FindingType → Bool) (xs ys : List Finding)
    → found p (xs ++ ys) ≡ (found p xs || found p ys)
found-append p xs ys = any-append (λ (f : Finding). p f.type) xs ys

regroup :
    (a b c d e f g h i : Bool)
    → (a || (b || (c || (d || (e || (f || (g || h || i)))))))
      ≡ (a || b || c || d || e || f || g || h || i)
regroup a b c d e f g h i = ground arith

module _ (p : FindingType → Bool) (summary : Summary) (aggregates : Aggregates)
    (inference : TerminationInference) (config : Config) where
  found-collected :
      found p (collected_findings summary aggregates inference config)
      ≡ some_warranted (warrants summary aggregates inference config) p
  unfolding collected_findings
  found-collected =
      let holds = λ (t : FindingType). warrants summary aggregates inference config t && p t in
      found-append p (hardware_finding summary) _
      ∙ ap₂ ◌||◌ (found-hardware p summary aggregates inference config) (
          found-append p (disk_finding summary) _
          ∙ ap₂ ◌||◌ (found-disk p summary aggregates inference config) (
              found-append p (display_finding summary) _
              ∙ ap₂ ◌||◌ (found-display p summary aggregates inference config) (
                  found-append p (thermal_finding aggregates config) _
                  ∙ ap₂ ◌||◌ (found-thermal p summary aggregates inference config) (
                      found-append p (memory_finding aggregates config) _
                      ∙ ap₂ ◌||◌ (found-memory p summary aggregates inference config) (
                          found-append p (cpu_finding aggregates config) _
                          ∙ ap₂ ◌||◌ (found-cpu p summary aggregates inference config)
                              (found-termination p summary aggregates inference config))))))
      ∙ regroup (holds FindingType.hardware) (holds FindingType.disk) (holds FindingType.gpu)
          (holds FindingType.thermal) (holds FindingType.memory) (holds FindingType.cpu)
          (holds FindingType.hard_hang) (holds FindingType.power_loss) (holds FindingType.crash)

found-or_insufficient :
    (p : FindingType → Bool) (fs : List Finding)
    → found p (or_insufficient fs)
      ≡ (found p fs || (not (found (λ _. true) fs) && p FindingType.insufficient))
found-or_insufficient p [] = ground arith
found-or_insufficient p (f ∷ fs) = ground arith

-- Exactly the findings whose evidence is there are given: for every test on types, a finding with a
-- type that passes is among them just when such a type is warranted, or when nothing is warranted and
-- the type of insufficient evidence passes.
pub build_findings-exact :
    (p : FindingType → Bool) (summary : Summary) (aggregates : Aggregates)
    (inference : TerminationInference) (config : Config)
    → let w = warrants summary aggregates inference config in
      found p (build_findings summary aggregates inference config)
      ≡ (some_warranted w p || (not (some_warranted w (λ _. true)) && p FindingType.insufficient))
unfolding build_findings
build_findings-exact p summary aggregates inference config =
    let fs = collected_findings summary aggregates inference config in
    any-sort_by (down (λ (f : Finding). severity_rank f.severity)) (λ (f : Finding). p f.type)
      (or_insufficient fs)
    ∙ found-or_insufficient p fs
    ∙ ap₂ (λ a b. a || (not b && p FindingType.insufficient))
        (found-collected p summary aggregates inference config)
        (found-collected (λ _. true) summary aggregates inference config)
