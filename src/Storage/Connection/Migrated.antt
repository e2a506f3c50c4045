-- ===== src/Storage/Connection/Migrated.antt =====
-- What `connect` leaves of a database file, storage/database.py.
use pc_diagnostic_agent.Prelude.{
  ℕ, ◌≤◌, ◌≡◌, refl, Bool, Option, none, some, List, [], ◌∷◌, ◌++◌, head?, leb, arith, Bool-cases,
  inl, inr, le→leb,
}
use pc_diagnostic_agent.Prelude.Sort.{insert_by, sort_by, down}
use pc_diagnostic_agent.Storage.Tables.{Database}
use pc_diagnostic_agent.Storage.Connection.{
  File, latest_version, current_version, create_tables, apply_migrations, connect, open_on,
}

abbrev newest_first : ℕ → ℕ → Bool
newest_first = down (λ (v : ℕ). v)

abbrev AtLeast : ℕ → Option ℕ → Type 0
AtLeast n none = ⊥
AtLeast n (some v) = n ≤ v

insert_by-AtLeast :
    (n x : ℕ) (vs : List ℕ) → AtLeast n (head? vs) → AtLeast n (head? (insert_by newest_first x vs))
unfolding insert_by
insert_by-AtLeast n x [] h = absurd h
insert_by-AtLeast n x (v ∷ vs) h = ground arith

sort_by-AtLeast : (n : ℕ) (vs : List ℕ) → AtLeast n (head? (sort_by newest_first (vs ++ n ∷ [])))
unfolding sort_by insert_by
sort_by-AtLeast n [] = omega arith
sort_by-AtLeast n (v ∷ vs) =
    insert_by-AtLeast n v (sort_by newest_first (vs ++ n ∷ [])) (sort_by-AtLeast n vs)

version_of : (o : Option ℕ) → AtLeast 1 o → 1 ≤ elim o [ none ↦ 0 | some v ↦ v ]
version_of none h = absurd h
version_of (some v) h = h

migrated_version : (file : File) → 1 ≤ current_version (apply_migrations file)
unfolding apply_migrations current_version
migrated_version file = elim (Bool-cases (leb latest_version (current_version file))) [
  | inl e ↦ rw e (ground arith)
  | inr e ↦ rw e (version_of _ (sort_by-AtLeast 1 file.schema_version))
]

-- What a connection does to a file.
pub record Migrated (file after : File) : Type 0 where
  pub version : 1 ≤ current_version after
  pub again : connect after ≡ open_on after
  pub kept : (db : Database) → file.tables ≡ some db → after.tables ≡ some db
  pub created : current_version file ≡ 0 → after.tables ≡ some (create_tables file.tables)

-- After a connection the file has the present version of the schema, so that connecting again changes
-- nothing. Tables that were there are kept with all their rows, and a file without a version gets tables.
pub connect-Migrated : (file : File) → Migrated file (apply_migrations file)
unfolding connect apply_migrations
connect-Migrated file = record {
  version = migrated_version file;
  again = rw (le→leb 1 _ (migrated_version file)) refl;
  kept = λ db h. ground (arith, h);
  created = λ h. rw h refl;
}
