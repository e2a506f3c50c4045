-- ===== src/Collectors/WindowsEvents/Cursor.antt =====
-- What the cursor of the event log selects, `_read_new` of collectors/windows_events.py.
use pc_diagnostic_agent.Prelude.{
  ℕ, ◌+◌, ◌≤◌, ◌<◌, ◌≡◌, refl, sym, ap, ◌∙◌, Bool, true, not, some, List, [], ◌∷◌, ◌++◌, map,
  reverse, length, any, All, All-parts, where_rows, where_rows-append, length-append, append-nil,
  Bool-cases, inl, inr, arith, lt→ltb,
}
use pc_diagnostic_agent.Storage.Rows.{Time}
use pc_diagnostic_agent.Collectors.WindowsEvents.{
  LogRecord, EventLog, record_id, epoch, seen, read_batch, read_batches, read_new,
}

-- A log that is read without an error, in batches that are not empty, and its records in the order
-- of the reading, the newest first.
abbrev pub Batches : Type 0
Batches = List (LogRecord × List LogRecord)

abbrev pub log_of : Batches → EventLog
log_of batches = some (map (λ (b : LogRecord × List LogRecord). some (b.0 ∷ b.1)) batches)

unfoldable pub records_of : Batches → List LogRecord
records_of [] = []
records_of ((rec, recs) ∷ batches) = (rec ∷ recs) ++ records_of batches

module _ {A : Type 0} (p : A → Bool) where
  -- From the first element that passes the test on, all pass.
  abbrev pub IsSuffix : List A → Type 0
  IsSuffix [] = Unit
  IsSuffix (x ∷ xs) = (p x ≡ true → All (λ y. p y ≡ true) xs) × IsSuffix xs

  pub IsSuffix-All : (xs : List A) → All (λ x. p x ≡ true) xs → IsSuffix xs
  IsSuffix-All [] h = tt
  IsSuffix-All (x ∷ xs) h = (λ _. h.1, IsSuffix-All xs h.1)

  pub IsSuffix-first : (xs ys : List A) → IsSuffix (xs ++ ys) → IsSuffix xs
  IsSuffix-first [] ys h = tt
  IsSuffix-first (x ∷ xs) ys h =
      (λ e. (All-parts (λ y. p y ≡ true) xs ys (h.0 e)).0, IsSuffix-first xs ys h.1)

  pub IsSuffix-append :
      (xs ys : List A)
      → IsSuffix (xs ++ ys)
      → IsSuffix ys × (any p xs ≡ true → All (λ y. p y ≡ true) ys)
  IsSuffix-append [] ys h = (h, λ e. ground arith)
  IsSuffix-append (x ∷ xs) ys h =
      let (rest, later) = IsSuffix-append xs ys h.1 in
      (
        rest,
        λ some_seen. elim (Bool-cases (p x)) [
          | inl e ↦ (All-parts (λ y. p y ≡ true) xs ys (h.0 e)).1
          | inr e ↦ later (rw e at some_seen)
        ],
      )

  pub none_left : (xs : List A) → All (λ x. p x ≡ true) xs → where_rows (λ x. not (p x)) xs ≡ []
  none_left [] h = refl
  none_left (x ∷ xs) h = ground (arith, none_left xs h.1)

module _ (last_id : ℕ) (last_ts clock : Time) where
  abbrev pub is_seen : LogRecord → Bool
  is_seen rec = seen last_id last_ts clock rec

  abbrev pub unseen : List LogRecord → List LogRecord
  unseen records = where_rows (λ rec. not (is_seen rec)) records

  read_batch-unseen :
      (batch : List LogRecord)
      → IsSuffix is_seen batch
      → read_batch last_id last_ts clock batch ≡ (unseen batch, any is_seen batch)
  unfolding read_batch
  read_batch-unseen [] h = refl
  read_batch-unseen (rec ∷ batch) h = elim (Bool-cases (is_seen rec)) [
    | inl e ↦ rw e (ap (λ records. (records, true)) (sym (none_left is_seen batch (h.0 e))))
    | inr e ↦
        rw e (ap (λ (r : List LogRecord × Bool). (rec ∷ r.0, r.1)) (read_batch-unseen batch h.1))
  ]

  -- With room for all the new records, the batches are read up to the first record that is not new.
  pub read_batches-unseen :
      (n : ℕ) (batches : Batches)
      → IsSuffix is_seen (records_of batches)
      → n + length (unseen (records_of batches)) < 1000
      → read_batches n last_id last_ts clock
          (map (λ (b : LogRecord × List LogRecord). some (b.0 ∷ b.1)) batches)
        ≡ unseen (records_of batches)
  unfolding read_batches records_of
  read_batches-unseen n [] h room = refl
  read_batches-unseen n ((rec, recs) ∷ batches) h room =
      let batch = rec ∷ recs in
      let rest = records_of batches in
      let split = where_rows-append (λ r. not (is_seen r)) batch rest in
      let count = ap length split ∙ length-append (unseen batch) (unseen rest) in
      let (suffix, later) = IsSuffix-append is_seen batch rest h in
      rw
        (
          (read_batch-unseen batch (IsSuffix-first is_seen batch rest h)),
          lt→ltb n 1000 (omega arith),
        )
        (elim (Bool-cases (any is_seen batch)) [
          | inl e ↦
              rw (e, split, none_left is_seen rest (later e)) (sym (append-nil (unseen batch)))
          | inr e ↦
              rw (e, split)
                (ap (λ r. unseen batch ++ r)
                  (read_batches-unseen (n + length (unseen batch)) batches suffix (omega arith)))
        ])

-- A log whose records are no newer, by number and by time, than those read before them.
abbrev pub IsNewestFirst : Time → List LogRecord → Type 0
IsNewestFirst clock [] = Unit
IsNewestFirst clock (rec ∷ records) =
    All (λ r. (record_id r ≤ record_id rec) × (epoch clock r ≤ epoch clock rec)) records
    × IsNewestFirst clock records

seen_older :
    (last_id : ℕ) (last_ts clock : Time) (rec : LogRecord) (records : List LogRecord)
    → All (λ r. (record_id r ≤ record_id rec) × (epoch clock r ≤ epoch clock rec)) records
    → seen last_id last_ts clock rec ≡ true
    → All (λ r. seen last_id last_ts clock r ≡ true) records
seen_older last_id last_ts clock rec [] h e = tt
seen_older last_id last_ts clock rec (r ∷ records) h e =
    (ground arith, seen_older last_id last_ts clock rec records h.1 e)

IsNewestFirst-IsSuffix :
    (last_id : ℕ) (last_ts clock : Time) (records : List LogRecord)
    → IsNewestFirst clock records
    → IsSuffix (is_seen last_id last_ts clock) records
IsNewestFirst-IsSuffix last_id last_ts clock [] h = tt
IsNewestFirst-IsSuffix last_id last_ts clock (rec ∷ records) h = (
  seen_older last_id last_ts clock rec records h.0,
  IsNewestFirst-IsSuffix last_id last_ts clock records h.1,
)

-- `_read_new` gives exactly the records that are newer than the cursor, by number or by time, the
-- oldest first, however the log is cut into batches: provided that the log is read without an error,
-- is newest first, and has fewer than 1000 of them.
pub read_new-unseen :
    (last_id : ℕ) (last_ts clock : Time) (batches : Batches)
    → IsNewestFirst clock (records_of batches)
    → length (unseen last_id last_ts clock (records_of batches)) < 1000
    → read_new last_id last_ts clock (log_of batches)
      ≡ reverse (unseen last_id last_ts clock (records_of batches))
unfolding read_new
read_new-unseen last_id last_ts clock batches h room = ap reverse (
    read_batches-unseen last_id last_ts clock 0 batches
      (IsNewestFirst-IsSuffix last_id last_ts clock (records_of batches) h) (omega arith))
