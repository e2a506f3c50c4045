-- ===== src/Diagnostics/EventAnalyzer/Ids.antt =====
-- Event ids: the storage format does not matter (`event_id`, diagnostics/event_analyzer.py).
use pc_diagnostic_agent.Prelude.{ℕ, ◌+◌, ◌*◌, ◌<◌, ◌≡◌, suc, some, arith, ap, sym, ◌∙◌}
use pc_diagnostic_agent.Prelude.Int.{ℤ, pos, sub_ℕ, low16}
use pc_diagnostic_agent.Prelude.Text.{lower}
use pc_diagnostic_agent.Storage.Rows.{RawId, EventFields}
use pc_diagnostic_agent.Diagnostics.EventAnalyzer.Classify.{
  event_id, classify_event, classify, provider_text, or_empty,
}

abbrev pub with_id : EventFields → ℤ → EventFields
with_id ev n = record ev { event_id = RawId.int n }

low16_unsigned : (n k : ℕ) → n < 65536 → low16 (pos (n + 65536 * k)) ≡ n
unfolding low16
low16_unsigned n k h = omega arith

low16_signed : (n k : ℕ) → n < 65536 → low16 (sub_ℕ n (65536 * suc k)) ≡ n
unfolding low16
low16_signed n k h = ground arith

event_id-plain : (ev : EventFields) (n : ℕ) → n < 65536 → event_id (with_id ev (pos n)) ≡ some n
unfolding event_id
event_id-plain ev n h = ap some (omega arith)

-- The id that is read back is the 16-bit id, whatever is set above the low 16 bits, and also where
-- that makes the stored number negative.
pub event_id-with_id :
    (ev : EventFields) (n k : ℕ)
    → n < 65536
    → (event_id (with_id ev (pos (n + 65536 * k))) ≡ some n)
      × (event_id (with_id ev (sub_ℕ n (65536 * suc k))) ≡ some n)
unfolding event_id
event_id-with_id ev n k h = (ap some (low16_unsigned n k h), ap some (low16_signed n k h))

classify_event-eq :
    (ev : EventFields) (a b : ℤ)
    → event_id (with_id ev a) ≡ event_id (with_id ev b)
    → classify_event (with_id ev a) ≡ classify_event (with_id ev b)
unfolding classify_event
classify_event-eq ev a b e = ap (λ i. classify (provider_text ev) i (lower (or_empty ev.message))) e

-- Events whose ids differ only above the low 16 bits, also where that makes the stored number negative,
-- have one category.
pub classify_event-with_id :
    (ev : EventFields) (n k : ℕ)
    → n < 65536
    → (classify_event (with_id ev (pos (n + 65536 * k))) ≡ classify_event (with_id ev (pos n)))
      × (classify_event (with_id ev (sub_ℕ n (65536 * suc k)))
          ≡ classify_event (with_id ev (pos n)))
classify_event-with_id ev n k h =
    let e = event_id-with_id ev n k h in
    let plain = sym (event_id-plain ev n h) in
    (classify_event-eq ev _ _ (e.0 ∙ plain), classify_event-eq ev _ _ (e.1 ∙ plain))
