-- ===== src/Simulation/Streams.antt =====
-- `_metric_stream` and `_heartbeat_stream`, simulation/scenarios.py. Times are whole milliseconds, on
-- which the microsecond that the source adds to the end changes no test. Readings are rounded down to
-- thousandths.
pub mod Rounds
use mathlib.Core.Logic.{dite}
use mathlib.Core.WellFounded.{Acc}
use native.Mathlib.Decide.{dec_le}
use pc_diagnostic_agent.Prelude.{
  ℕ, zero, suc, ◌+◌, ◌-◌, ◌*◌, ◌/◌, ◌≤◌, ◌<◌, ◌≡◌, refl, String, List, [], ◌∷◌, arith,
}
use pc_diagnostic_agent.Prelude.Int.{pos}
use pc_diagnostic_agent.Prelude.Dict.{Dict}
use pc_diagnostic_agent.Prelude.Order.{lt_wf}
use pc_diagnostic_agent.Storage.Rows.{Time, seconds, Value, num, text}
use pc_diagnostic_agent.Storage.Metrics.{Snapshot}

-- COLLECTION_INTERVAL, as a length of time.
abbrev pub collection_interval : Time
collection_interval = seconds 30

-- `while ts <= end: values.append(sample(ts)); ts += COLLECTION_INTERVAL`, by recursion on the time
-- that is left.
unfoldable pub sample_loop {ℓ} :
    {A : Type ℓ} → (Time → A) → (end ts left : Time) → Acc ◌<◌ left → left ≡ suc end - ts → List A
sample_loop sample end ts left (Acc.intro _ smaller) e =
    dite (dec_le ts end)
      (λ h.
        sample ts
        ∷ sample_loop sample end (ts + collection_interval) (suc end - (ts + collection_interval))
            (smaller _ (omega arith)) refl)
      (λ _. [])

unfoldable pub stream {ℓ} : {A : Type ℓ} → (Time → A) → Time → Time → List A
unfolding lt_wf dec_le
stream sample start end =
    sample_loop sample end start (suc end - start) (lt_wf.apply (suc end - start)) refl

stream_test : stream (λ ts. ts) 1000 61_000 ≡ 1000 ∷ 31_000 ∷ 61_000 ∷ []
unfolding stream sample_loop
stream_test = refl
