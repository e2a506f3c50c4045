-- ===== src/Agent/Workers/Alive.antt =====
-- Which of the scheduler's threads are alive around a restart, agent/lifecycle.py.
use pc_diagnostic_agent.Prelude.{
  ℕ, ◌+◌, ◌≡◌, refl, ap, Bool, true, false, List, [], ◌∷◌, count_where, All, arith, if◌then◌else◌,
}
use pc_diagnostic_agent.Agent.Workers.{
  Workers, Fate, after_fates, elapse, start_worker, restart_worker, alive,
}

-- How many threads are alive and busy.
abbrev pub busy_count : List Fate → List Bool → ℕ
busy_count [] threads = count_where (λ t. t) threads
busy_count (f ∷ fates) [] = 0
busy_count (Fate.busy ∷ fates) (alive ∷ threads) =
    (if alive then 1 else 0) + busy_count fates threads
busy_count (Fate.tests ∷ fates) (alive ∷ threads) = busy_count fates threads
busy_count (Fate.dies ∷ fates) (alive ∷ threads) = busy_count fates threads

-- A thread that does not end by an error.
abbrev pub GoesOn : Fate → Type 0
GoesOn Fate.busy = Unit
GoesOn Fate.tests = Unit
GoesOn Fate.dies = ⊥

count-stopped :
    (fates : List Fate) (threads : List Bool)
    → count_where (λ t. t) (after_fates true fates threads) ≡ busy_count fates threads
unfolding after_fates
count-stopped [] threads = refl
count-stopped (f ∷ fates) [] = refl
count-stopped (Fate.busy ∷ fates) (true ∷ threads) = omega (arith, count-stopped fates threads)
count-stopped (Fate.busy ∷ fates) (false ∷ threads) = omega (arith, count-stopped fates threads)
count-stopped (Fate.tests ∷ fates) (true ∷ threads) = count-stopped fates threads
count-stopped (Fate.tests ∷ fates) (false ∷ threads) = count-stopped fates threads
count-stopped (Fate.dies ∷ fates) (alive ∷ threads) = count-stopped fates threads

going :
    (fates : List Fate) (threads : List Bool)
    → All GoesOn fates
    → after_fates false fates threads ≡ threads
unfolding after_fates
going [] threads h = refl
going (f ∷ fates) [] h = refl
going (Fate.busy ∷ fates) (alive ∷ threads) h = ap (λ l. alive ∷ l) (going fates threads h.1)
going (Fate.tests ∷ fates) (true ∷ threads) h = ap (λ l. true ∷ l) (going fates threads h.1)
going (Fate.tests ∷ fates) (false ∷ threads) h = ap (λ l. false ∷ l) (going fates threads h.1)
going (Fate.dies ∷ fates) (alive ∷ threads) h = absurd h.0

-- After a restart the new thread is alive, and of the others just those that stayed in a collector for
-- the whole join: a thread that came to the test of the stop event has ended. And those that stayed go on:
-- as the event is cleared, each that is alive after the restart stays alive, whether it comes to the test
-- later or not, unless an error ends it.
pub restart_worker-alive :
    (joined later : List Fate) (w : Workers)
    → All GoesOn later
    → (alive (restart_worker joined w) ≡ 1 + busy_count joined w.threads)
      × (elapse later (restart_worker joined w) ≡ restart_worker joined w)
unfolding restart_worker start_worker
restart_worker-alive joined later w h = (
  omega (arith, count-stopped joined w.threads),
  ap (λ l. record { stop = false; threads = l }) (going later _ h),
)
