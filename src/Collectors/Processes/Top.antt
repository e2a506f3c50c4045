-- ===== src/Collectors/Processes/Top.antt =====
-- Which processes are selected, collectors/processes.py.
use mathlib.Core.List.{Perm}
use pc_diagnostic_agent.Prelude.{
  All-take, All-append, min, any-append, length-take-min, ℕ, suc, ◌+◌, ◌≤◌, ◌≡◌, refl, sym, ap, ◌∙◌,
  Bool, ◌||◌, List, [], ◌∷◌, ◌++◌, map, drop, length, or_false, or_assoc, Bool-cases, inl, inr,
  ==_iff, All, any, ◌==◌, arith, length-append,
}
use pc_diagnostic_agent.Prelude.Dict.{Dict, put, nat_eq}
use pc_diagnostic_agent.Prelude.Sort.{sort_by, down, length-sort_by, All-sort_by}
use pc_diagnostic_agent.Prelude.Top.{IsAbove, first-IsAbove}
use pc_diagnostic_agent.Collectors.Processes.{Process, top, selected, by_pid, merged_processes}

-- The ten processes at the top by a key: with those that are left out they are all the processes,
-- and none of those left out is above one that is taken.
pub top-IsAbove :
    (key : Process → ℕ) (procs : List Process)
    → Perm (top key procs ++ drop 10 (sort_by (down key) procs)) procs
      × IsAbove key (top key procs) (drop 10 (sort_by (down key) procs))
      × (length (top key procs) ≤ 10)
unfolding top
top-IsAbove key procs = first-IsAbove key 10 procs

has_pid : ℕ → Dict ℕ Process → Bool
has_pid pid merged = any (λ (e : ℕ × Process). e.0 == pid) merged

has_pid-put :
    (merged : Dict ℕ Process) (k pid : ℕ) (p : Process)
    → has_pid pid (put merged k p) ≡ (has_pid pid merged || (k == pid))
unfolding has_pid put
has_pid-put [] k pid p = ground arith
has_pid-put ((j, q) ∷ merged) k pid p = ground (arith, has_pid-put merged k pid p)

length-put :
    (merged : Dict ℕ Process) (k : ℕ) (p : Process) → length (put merged k p) ≤ suc (length merged)
unfolding put
length-put [] k p = omega arith
length-put ((j, q) ∷ merged) k p = ground (arith, length-put merged k p)

-- Each process stands under its own pid.
abbrev IsKeyed : Dict ℕ Process → Type 0
IsKeyed merged = All (λ (e : ℕ × Process). e.1.pid ≡ e.0) merged

put-IsKeyed :
    (merged : Dict ℕ Process) (p : Process) → IsKeyed merged → IsKeyed (put merged p.pid p)
unfolding put
put-IsKeyed [] p h = (refl, tt)
put-IsKeyed ((j, q) ∷ merged) p h = elim (Bool-cases (j == p.pid)) [
  | inl e ↦ rw e (sym ((==_iff j p.pid).0 e), h.1)
  | inr e ↦ rw e (h.0, put-IsKeyed merged p h.1)
]

put-All :
    (P : Process → Type 0) (merged : Dict ℕ Process) (k : ℕ) (p : Process)
    → All (λ (e : ℕ × Process). P e.1) merged
    → P p
    → All (λ (e : ℕ × Process). P e.1) (put merged k p)
unfolding put
put-All P [] k p h at = (at, tt)
put-All P ((j, q) ∷ merged) k p h at = elim (Bool-cases (j == k)) [
  | inl e ↦ rw e (at, h.1)
  | inr e ↦ rw e (h.0, put-All P merged k p h.1 at)
]

-- What the comprehension keeps: the pids, no more rows than processes, and each under its pid.
by_pid_keeps :
    (merged : Dict ℕ Process) (procs : List Process) (pid : ℕ)
    → IsKeyed merged
    → (has_pid pid (by_pid merged procs) ≡ (has_pid pid merged || any (λ p. p.pid == pid) procs))
      × (length (by_pid merged procs) ≤ length merged + length procs)
      × IsKeyed (by_pid merged procs)
unfolding by_pid
by_pid_keeps merged [] pid h = (or_false (has_pid pid merged), omega arith, h)
by_pid_keeps merged (p ∷ procs) pid h =
    let (there, short, keyed) =
      by_pid_keeps (put merged p.pid p) procs pid (put-IsKeyed merged p h) in
    let one = length-put merged p.pid p in
    (
      there
          ∙ ap (λ b. b || any (λ (q : Process). q.pid == pid) procs)
              (has_pid-put merged p.pid pid p)
          ∙ or_assoc (has_pid pid merged) (p.pid == pid)
              (any (λ (q : Process). q.pid == pid) procs),
      omega arith,
      keyed,
    )

-- What holds of the processes holds of those that the comprehension keeps.
by_pid-All :
    (P : Process → Type 0) (merged : Dict ℕ Process) (procs : List Process)
    → All (λ (e : ℕ × Process). P e.1) merged
    → All P procs
    → All (λ (e : ℕ × Process). P e.1) (by_pid merged procs)
unfolding by_pid
by_pid-All P merged [] h k = h
by_pid-All P merged (p ∷ procs) h k =
    by_pid-All P (put merged p.pid p) procs (put-All P merged p.pid p h k.0) k.1

values-All :
    (P : Process → Type 0) (merged : Dict ℕ Process)
    → All (λ (e : ℕ × Process). P e.1) merged
    → All P (map (λ (e : ℕ × Process). e.1) merged)
values-All P [] h = tt
values-All P (e ∷ merged) h = (h.0, values-All P merged h.1)

top-All :
    (P : Process → Type 0) (key : Process → ℕ) (procs : List Process)
    → All P procs
    → All P (top key procs)
unfolding top
top-All P key procs h = All-take P 10 (sort_by (down key) procs) (All-sort_by (down key) P procs h)

values_of :
    (merged : Dict ℕ Process) (pid : ℕ)
    → IsKeyed merged
    → any (λ (p : Process). p.pid == pid) (map (λ (e : ℕ × Process). e.1) merged)
      ≡ has_pid pid merged
unfolding has_pid
values_of [] pid h = refl
values_of ((j, q) ∷ merged) pid h = rw (h.0, values_of merged pid h.1) refl

length-values :
    (merged : Dict ℕ Process) → length (map (λ (e : ℕ × Process). e.1) merged) ≡ length merged
length-values [] = refl
length-values (e ∷ merged) = ap suc (length-values merged)

fits :
    (values merged all cpu memory : ℕ)
    → values ≡ merged
    → merged ≤ 0 + all
    → all ≡ cpu + memory
    → cpu ≤ 10
    → memory ≤ 10
    → values ≤ 20
fits values merged all cpu memory a b c d e = omega arith

-- The ten at the top of some processes by a key, or all where they are fewer: with those that are left out
-- they are all the processes, and none that is left out is above one that is taken.
pub record IsTop (key : Process → ℕ) (procs taken : List Process) : Type 0 where
  pub rest : List Process
  pub all : Perm (taken ++ rest) procs
  pub above : IsAbove key taken rest
  pub ten : length taken ≡ min 10 (length procs)

top-IsTop : (key : Process → ℕ) (procs : List Process) → IsTop key procs (top key procs)
unfolding top
top-IsTop key procs =
    let sorted = sort_by (down key) procs in
    let first = first-IsAbove key 10 procs in
    record {
      rest = drop 10 sorted;
      all = first.0;
      above = first.1;
      ten = omega (arith, length-take-min 10 sorted, length-sort_by (down key) procs);
    }

-- Which processes are stored: those of the pids, and each as it was given, so that what holds of all the
-- processes holds of them.
pub record AreStored (procs stored : List Process) : Type 1 where
  pub cpu : List Process
  pub memory : List Process
  pub cpu_top : IsTop (λ p. p.cpu_percent) procs cpu
  pub memory_top : IsTop (λ p. p.memory_bytes) procs memory
  pub pids :
      (pid : ℕ)
      → any (λ p. p.pid == pid) stored
        ≡ (any (λ p. p.pid == pid) cpu || any (λ p. p.pid == pid) memory)
  pub given : (P : Process → Type 0) → All P procs → All P stored
  pub twenty : length stored ≤ 20

-- The processes that are stored are those of the pids of ten processes at the top by CPU and of ten at the
-- top by memory, and of no others: none that is left out is above one that is taken. Each is one of the
-- given processes, as it was given, and they are twenty at most.
pub merged_processes-AreStored : (procs : List Process) → AreStored procs (merged_processes procs)
unfolding merged_processes has_pid top
merged_processes-AreStored procs =
    let cpu = top (λ (p : Process). p.cpu_percent) procs in
    let memory = top (λ (p : Process). p.memory_bytes) procs in
    let counted = length-values (by_pid [] (selected procs)) in
    record {
      cpu = cpu;
      memory = memory;
      cpu_top = top-IsTop (λ p. p.cpu_percent) procs;
      memory_top = top-IsTop (λ p. p.memory_bytes) procs;
      pids = λ pid.
          let (there, short, keyed) = by_pid_keeps [] (selected procs) pid tt in
          values_of (by_pid [] (selected procs)) pid keyed
          ∙ there
          ∙ any-append (λ p. p.pid == pid) cpu memory;
      given = λ P h. values-All P (by_pid [] (selected procs)) (
          by_pid-All P [] (selected procs) tt (
            All-append P cpu memory (top-All P (λ p. p.cpu_percent) procs h)
              (top-All P (λ p. p.memory_bytes) procs h)));
      twenty =
          let (there, short, keyed) = by_pid_keeps [] (selected procs) 0 tt in
          fits _ _ _ _ _ counted short (length-append cpu memory)
            (top-IsAbove (λ p. p.cpu_percent) procs).2 (top-IsAbove (λ p. p.memory_bytes) procs).2;
    }
