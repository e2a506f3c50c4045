-- ===== src/Diagnostics/Diagnosis/Findings/Graded.antt =====
-- The order of the findings, `_build_findings` of diagnostics/diagnosis.py.
use pc_diagnostic_agent.Prelude.{
  ◌≡◌, refl, sym, ap, ◌∙◌, Bool, true, false, List, [], ◌∷◌, ◌++◌, where_rows, where_rows-All, All,
  All-map, if◌then◌else◌, leb, All-append,
}
use pc_diagnostic_agent.Prelude.Sort.{insert_by, sort_by, down}
use pc_diagnostic_agent.Storage.Rows.{Level, low, medium, high, Finding}
use pc_diagnostic_agent.Agent.Config.{Config}
use pc_diagnostic_agent.Diagnostics.EventAnalyzer.Summary.{Summary}
use pc_diagnostic_agent.Diagnostics.HangDetector.{TerminationInference}
use pc_diagnostic_agent.Diagnostics.Diagnosis.Queries.{Aggregates}
use pc_diagnostic_agent.Diagnostics.Diagnosis.Findings.{
  severity_rank, or_insufficient, collected_findings, build_findings,
}

abbrev pub same_level : Level → Level → Bool
same_level high high = true
same_level medium medium = true
same_level low low = true
same_level _ _ = false

-- The findings of a severity, in their order.
abbrev pub graded : Level → List Finding → List Finding
graded l fs = where_rows (λ (f : Finding). same_level l f.severity) fs

same_level_is : (l k : Level) → same_level l k ≡ true → k ≡ l
same_level_is high high h = refl
same_level_is medium medium h = refl
same_level_is low low h = refl
same_level_is high medium h = cc
same_level_is high low h = cc
same_level_is medium high h = cc
same_level_is medium low h = cc
same_level_is low high h = cc
same_level_is low medium h = cc

graded-All : (l : Level) (fs : List Finding) → All (λ (f : Finding). f.severity ≡ l) (graded l fs)
graded-All l fs =
    All-map _ _ _ (λ (f : Finding) h. same_level_is l f.severity h) (where_rows-All _ fs)

abbrev by_rank : Finding → Finding → Bool
by_rank = down (λ (f : Finding). severity_rank f.severity)

insert_by-pass :
    (f : Finding) (before after : List Finding)
    → All (λ g. by_rank f g ≡ false) before
    → insert_by by_rank f (before ++ after) ≡ before ++ insert_by by_rank f after
unfolding insert_by
insert_by-pass f [] after h = refl
insert_by-pass f (g ∷ before) after h = rw h.0 (ap (λ l. g ∷ l) (insert_by-pass f before after h.1))

insert_by-head :
    (f : Finding) (fs : List Finding)
    → All (λ g. by_rank f g ≡ true) fs
    → insert_by by_rank f fs ≡ f ∷ fs
unfolding insert_by
insert_by-head f [] h = refl
insert_by-head f (g ∷ fs) h = rw h.0 refl

-- How a finding of one severity stands to those of another.
ranked :
    (f : Finding) (l k : Level) (b : Bool) (fs : List Finding)
    → f.severity ≡ l
    → (leb (severity_rank k) (severity_rank l)) ≡ b
    → All (λ g. by_rank f g ≡ b) (graded k fs)
ranked f l k b fs e h =
    All-map _ _ _
      (λ (g : Finding) e'.
        ap (λ x. leb (severity_rank x) (severity_rank f.severity)) e'
        ∙ ap (λ y. leb (severity_rank k) (severity_rank y)) e
        ∙ h)
      (graded-All k fs)

abbrev all_graded : List Finding → List Finding
all_graded fs = graded high fs ++ (graded medium fs ++ graded low fs)

-- The findings of a severity behind one of another.
abbrev graded_with : Level → Level → Finding → List Finding → List Finding
graded_with k l f fs = if same_level k l then f ∷ graded k fs else graded k fs

all_graded-cons :
    (f : Finding) (fs : List Finding) (l : Level)
    → f.severity ≡ l
    → all_graded (f ∷ fs)
      ≡ graded_with high l f fs ++ (graded_with medium l f fs ++ graded_with low l f fs)
all_graded-cons f fs l e =
    ap (λ l. graded_with high l f fs ++ (graded_with medium l f fs ++ graded_with low l f fs)) e

insert_by-graded :
    (f : Finding) (fs : List Finding) (l : Level)
    → f.severity ≡ l
    → insert_by by_rank f (all_graded fs)
      ≡ graded_with high l f fs ++ (graded_with medium l f fs ++ graded_with low l f fs)
unfolding severity_rank
insert_by-graded f fs high e = insert_by-head f (all_graded fs) (
    All-append _ (graded high fs) (graded medium fs ++ graded low fs)
      (ranked f high high true fs e refl)
      (All-append _ (graded medium fs) (graded low fs) (ranked f high medium true fs e refl)
        (ranked f high low true fs e refl)))
insert_by-graded f fs medium e =
    insert_by-pass f (graded high fs) (graded medium fs ++ graded low fs)
      (ranked f medium high false fs e refl)
    ∙ ap (λ l. graded high fs ++ l)
        (insert_by-head f (graded medium fs ++ graded low fs) (
          All-append _ (graded medium fs) (graded low fs) (ranked f medium medium true fs e refl)
            (ranked f medium low true fs e refl)))
insert_by-graded f fs low e =
    insert_by-pass f (graded high fs) (graded medium fs ++ graded low fs)
      (ranked f low high false fs e refl)
    ∙ ap (λ l. graded high fs ++ l)
        (insert_by-pass f (graded medium fs) (graded low fs) (ranked f low medium false fs e refl)
          ∙ ap (λ l. graded medium fs ++ l)
              (insert_by-head f (graded low fs) (ranked f low low true fs e refl)))

sort_by-graded : (fs : List Finding) → sort_by by_rank fs ≡ all_graded fs
unfolding sort_by
sort_by-graded [] = refl
sort_by-graded (f ∷ fs) =
    ap (insert_by by_rank f) (sort_by-graded fs)
    ∙ insert_by-graded f fs f.severity refl
    ∙ sym (all_graded-cons f fs f.severity refl)

-- A report lists its findings with those of high severity first, then the medium, then the low ones, and
-- within a severity in the order in which the tests are made: none is lost or doubled.
pub build_findings-graded :
    (summary : Summary) (aggregates : Aggregates) (inference : TerminationInference)
    (config : Config)
    → let fs = or_insufficient (collected_findings summary aggregates inference config) in
      build_findings summary aggregates inference config
      ≡ graded high fs ++ (graded medium fs ++ graded low fs)
unfolding build_findings
build_findings-graded summary aggregates inference config =
    sort_by-graded (or_insufficient (collected_findings summary aggregates inference config))
