-- ===== src/Agent/Workers.antt =====
-- The scheduler's threads, agent/lifecycle.py. They share one stop event; the newest thread, which is
-- `_worker`, comes first.
pub mod Alive
use pc_diagnostic_agent.Prelude.{
  ℕ, ◌+◌, Bool, true, false, not, ◌&&◌, List, [], ◌∷◌, count_where, if◌then◌else◌,
}

pub record Workers : Type 0 where
  pub stop : Bool
  pub threads : List Bool

-- What a thread does in a time: it stays in a collector, it comes to the test of the event, at which the
-- loop ends if the event is set, or it ends by an error that nothing catches.
pub data Fate : Type 0 where
  busy tests dies : Fate

abbrev pub alive_after : Bool → Fate → Bool → Bool
alive_after stop Fate.busy alive = alive
alive_after stop Fate.tests alive = alive && not stop
alive_after stop Fate.dies alive = false

-- The threads after a time; those that the fates do not reach are busy.
unfoldable pub after_fates : Bool → List Fate → List Bool → List Bool
after_fates stop [] threads = threads
after_fates stop (f ∷ fates) [] = []
after_fates stop (f ∷ fates) (alive ∷ threads) =
    alive_after stop f alive ∷ after_fates stop fates threads

abbrev pub elapse : List Fate → Workers → Workers
elapse fates w = record w { threads = after_fates w.stop fates w.threads }

-- `_start_worker`: the event is cleared for all the threads, and there is one more.
unfoldable pub start_worker : Workers → Workers
start_worker w = record { stop = false; threads = true ∷ w.threads }

-- `_restart_worker`: the event is set, and `join` waits for the newest thread, but ten seconds at most.
-- Then the event is cleared again, whether or not the thread has ended.
unfoldable pub restart_worker : List Fate → Workers → Workers
unfolding start_worker
restart_worker fates w = start_worker (elapse fates (record w { stop = true }))

abbrev pub alive : Workers → ℕ
alive w = count_where (λ t. t) w.threads
