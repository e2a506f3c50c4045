-- ===== src/Simulation/Streams/Rounds.antt =====
-- How often the loops of the streams go round, and what they give, simulation/scenarios.py.
use mathlib.Core.Logic.{dif_pos, dif_neg}
use mathlib.Core.WellFounded.{Acc}
use native.Mathlib.Bridge.{le_prop}
use native.Mathlib.Decide.{dec_le}
use pc_diagnostic_agent.Prelude.{
  ℕ, zero, suc, ◌+◌, ◌-◌, ◌/◌, ◌<◌, ◌≡◌, refl, ap, ◌∙◌, List, [], ◌∷◌, arith, map, leb,
  if◌then◌else◌,
}
use pc_diagnostic_agent.Storage.Rows.{Time}
use pc_diagnostic_agent.Simulation.Streams.{collection_interval, sample_loop, stream}

-- `n` times, from `start` on, an interval apart.
abbrev pub every : Time → ℕ → List Time
every start zero = []
every start (suc n) = start ∷ every (start + collection_interval) n

-- How many multiples of the interval lie between two times, both ends included.
abbrev pub rounds : Time → Time → ℕ
rounds start end = if leb start end then (end - start) / collection_interval + 1 else 0

module _ {ℓ} {A : Type ℓ} (sample : Time → A) (end : Time) where
  sample_loop-every :
      (n : ℕ) (ts left : Time) (w : Acc ◌<◌ left) (l : left ≡ suc end - ts)
      → rounds ts end ≡ n
      → sample_loop sample end ts left w l ≡ map sample (every ts n)
  unfolding sample_loop
  sample_loop-every zero ts left (Acc.intro _ smaller) l e =
      dif_neg (dec_le ts end) (ground arith) _ _
  sample_loop-every (suc n) ts left (Acc.intro _ smaller) l e =
      dif_pos (dec_le ts end) le_prop (ground arith) _ _
      ∙ ap (λ l. sample ts ∷ l)
          (sample_loop-every n (ts + collection_interval) _ (smaller _ _) refl (ground arith))

-- A stream has a sample for each multiple of the interval between its start and its end, both
-- included, in order, and no other: its loop ends.
pub stream-every {ℓ} :
    {A : Type ℓ} (sample : Time → A) (start end : Time)
    → stream sample start end ≡ map sample (every start (rounds start end))
unfolding stream
stream-every sample start end = sample_loop-every sample end (rounds start end) start _ _ refl refl
