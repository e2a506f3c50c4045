-- ===== src/Diagnostics/EventAnalyzer/Counts.antt =====
-- What a summary says of the events it was made from (`summarize`, diagnostics/event_analyzer.py).
use mathlib.Core.List.{append-nil, append_assoc}
use pc_diagnostic_agent.Prelude.{
  ltb-count_where, ℕ, ◌+◌, ◌≡◌, refl, sym, ◌∙◌, ap, Bool, List, [], ◌∷◌, ◌++◌, arith, length,
  count_where, where_rows, ltb, if◌then◌else◌, any,
}
use pc_diagnostic_agent.Prelude.Dict.{get_or, get_or-put_add_one, get_or-put_snoc}
use pc_diagnostic_agent.Storage.Rows.{Event}
use pc_diagnostic_agent.Diagnostics.EventAnalyzer.Category.{
  Category, category_eq, same_category, kernel_power, bugcheck, whea, disk, display, shutdown_clean,
  shutdown_unexpected, service_control, other,
}
use pc_diagnostic_agent.Diagnostics.EventAnalyzer.Classify.{classify_event}
use pc_diagnostic_agent.Diagnostics.EventAnalyzer.Summary.{
  Tally, tally_event, tally_events, Summary, summary_of, summarize,
}

-- The events of a category.
abbrev pub in_category : Category → Event → Bool
in_category c ev = same_category (classify_event ev.fields) c

count-tally_event :
    (t : Tally) (ev : Event) (c : Category)
    → get_or (tally_event t ev).counts c 0
      ≡ get_or t.counts c 0 + (if in_category c ev then 1 else 0)
unfolding tally_event
count-tally_event t ev c = get_or-put_add_one t.counts (classify_event ev.fields) c

list-tally_event :
    (t : Tally) (ev : Event) (c : Category)
    → get_or (tally_event t ev).by_category c []
      ≡ get_or t.by_category c [] ++ (if in_category c ev then ev ∷ [] else [])
unfolding tally_event
list-tally_event t ev c = get_or-put_snoc t.by_category (classify_event ev.fields) c ev

cons_if :
    (p : Event → Bool) (ev : Event) (events : List Event)
    → (if p ev then ev ∷ [] else []) ++ where_rows p events ≡ where_rows p (ev ∷ events)
cons_if p ev events = ground arith

count-tally_events :
    (t : Tally) (events : List Event) (c : Category)
    → get_or (tally_events t events).counts c 0
      ≡ get_or t.counts c 0 + count_where (in_category c) events
unfolding tally_events
count-tally_events t [] c = omega arith
count-tally_events t (ev ∷ events) c =
    ground (arith, count-tally_events (tally_event t ev) events c, count-tally_event t ev c)

list-tally_events :
    (t : Tally) (events : List Event) (c : Category)
    → get_or (tally_events t events).by_category c []
      ≡ get_or t.by_category c [] ++ where_rows (in_category c) events
unfolding tally_events
list-tally_events t [] c = sym (append-nil _)
list-tally_events t (ev ∷ events) c =
    list-tally_events (tally_event t ev) events c
    ∙ ap (λ l. l ++ where_rows (in_category c) events) (list-tally_event t ev c)
    ∙ append_assoc (get_or t.by_category c []) _ _
    ∙ ap (λ l. get_or t.by_category c [] ++ l) (cons_if (in_category c) ev events)

-- What the counts, flags and lists of a summary are to be.
pub record Describes (events : List Event) (s : Summary) : Type 0 where
  pub count : (c : Category) → get_or s.counts c 0 ≡ count_where (in_category c) events
  pub kernel_power_count : s.kernel_power_count ≡ count_where (in_category kernel_power) events
  pub bugcheck_count : s.bugcheck_count ≡ count_where (in_category bugcheck) events
  pub whea_count : s.whea_count ≡ count_where (in_category whea) events
  pub disk_error_count : s.disk_error_count ≡ count_where (in_category disk) events
  pub display_error_count : s.display_error_count ≡ count_where (in_category display) events
  pub clean_shutdown : s.clean_shutdown ≡ any (in_category shutdown_clean) events
  pub unexpected_shutdown_event :
      s.unexpected_shutdown_event ≡ any (in_category shutdown_unexpected) events
  pub kernel_power_detected : s.kernel_power_detected ≡ any (in_category kernel_power) events
  pub bugcheck_detected : s.bugcheck_detected ≡ any (in_category bugcheck) events
  pub whea_events : s.whea_events ≡ where_rows (in_category whea) events
  pub disk_events : s.disk_events ≡ where_rows (in_category disk) events
  pub display_events : s.display_events ≡ where_rows (in_category display) events
  pub kernel_power_events : s.kernel_power_events ≡ where_rows (in_category kernel_power) events
  pub bugcheck_events : s.bugcheck_events ≡ where_rows (in_category bugcheck) events

abbrev no_events : Tally
no_events = record { counts = []; by_category = [] }

count-no_events :
    (events : List Event) (c : Category)
    → get_or (tally_events no_events events).counts c 0 ≡ count_where (in_category c) events
unfolding get_or
count-no_events events c = omega (arith, count-tally_events no_events events c)

flag-no_events :
    (events : List Event) (c : Category)
    → ltb 0 (get_or (tally_events no_events events).counts c 0) ≡ any (in_category c) events
flag-no_events events c =
    ap (ltb 0) (count-no_events events c) ∙ ltb-count_where (in_category c) events

list-no_events :
    (events : List Event) (c : Category)
    → get_or (tally_events no_events events).by_category c [] ≡ where_rows (in_category c) events
unfolding get_or
list-no_events events c = list-tally_events no_events events c

-- Every count of a summary is the number of events of its category, every flag says whether there is
-- such an event, and every list holds just those events, in order.
pub summarize-Describes : (events : List Event) → Describes events (summarize events)
unfolding summarize summary_of
summarize-Describes events = record {
  count = count-no_events events;
  kernel_power_count = count-no_events events kernel_power;
  bugcheck_count = count-no_events events bugcheck;
  whea_count = count-no_events events whea;
  disk_error_count = count-no_events events disk;
  display_error_count = count-no_events events display;
  clean_shutdown = flag-no_events events shutdown_clean;
  unexpected_shutdown_event = flag-no_events events shutdown_unexpected;
  kernel_power_detected = flag-no_events events kernel_power;
  bugcheck_detected = flag-no_events events bugcheck;
  whea_events = list-no_events events whea;
  disk_events = list-no_events events disk;
  display_events = list-no_events events display;
  kernel_power_events = list-no_events events kernel_power;
  bugcheck_events = list-no_events events bugcheck;
}

abbrev pub total : (Category → ℕ) → ℕ
total n =
    n kernel_power
    + n bugcheck
    + n whea
    + n disk
    + n display
    + n shutdown_clean
    + n shutdown_unexpected
    + n service_control
    + n other

one_category : (d : Category) → total (λ c. if same_category d c then 1 else 0) ≡ 1
unfolding same_category
one_category kernel_power = refl
one_category bugcheck = refl
one_category whea = refl
one_category disk = refl
one_category display = refl
one_category shutdown_clean = refl
one_category shutdown_unexpected = refl
one_category service_control = refl
one_category other = refl

count_where-cons :
    (c : Category) (ev : Event) (events : List Event)
    → count_where (in_category c) (ev ∷ events)
      ≡ (if in_category c ev then 1 else 0) + count_where (in_category c) events
count_where-cons c ev events = ground arith

total-count_where :
    (events : List Event) → total (λ c. count_where (in_category c) events) ≡ length events
total-count_where [] = refl
total-count_where (ev ∷ events) = omega (
  arith,
  total-count_where events,
  one_category (classify_event ev.fields),
  count_where-cons kernel_power ev events,
  count_where-cons bugcheck ev events,
  count_where-cons whea ev events,
  count_where-cons disk ev events,
  count_where-cons display ev events,
  count_where-cons shutdown_clean ev events,
  count_where-cons shutdown_unexpected ev events,
  count_where-cons service_control ev events,
  count_where-cons other ev events,
)

-- No event is lost and none is counted twice: the counts of the categories add up to the number of
-- events.
pub counts-length :
    (events : List Event) → total (λ c. get_or (summarize events).counts c 0) ≡ length events
counts-length events =
    let d = summarize-Describes events in
    omega (
      arith,
      total-count_where events,
      d.count kernel_power,
      d.count bugcheck,
      d.count whea,
      d.count disk,
      d.count display,
      d.count shutdown_clean,
      d.count shutdown_unexpected,
      d.count service_control,
      d.count other,
    )
