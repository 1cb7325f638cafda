-- ===== src/Store/Migration/Runs.antt =====
-- store/mongo/datastore_mongo.go: `doMigrations`, store/mongo/migrations.go: `Migrate`, and
-- store/mongo/migration_1_0_0.go. Which databases there are, and how the migrator of go-lib-micro
-- ends on one, is the input.
use deviceconnect.Prelude.{String, true, List, [], ◌∷◌, ◌++◌, Option, none, some}
use deviceconnect.Errors.{Error, Result, ok, err, panic, wrap, message}
use deviceconnect.Store.Migration.{Index, Target}

abbrev pub db_name : String
db_name = "deviceconnect"

-- The index of `migration_1_0_0.Up`.
abbrev pub logs_expire : Index
logs_expire = record { keys = "expire_ts" ∷ []; name = "RecordingExpire"; expires = true }

-- `migration_1_0_0.Up`
abbrev pub up_1_0_0 :
    {Doc : Type 0} {id_of : Doc → String} (t : Target Doc id_of) → t.Db → Option Error × t.Db
up_1_0_0 t db = t.create_indexes (logs_expire ∷ []) db

-- The error, and the databases that the migrator was applied to.
abbrev pub Applied : Type 0
Applied = Option Error × List String

module _ (apply : String → Option Error) where
  abbrev pub next : String → Option Error → Applied → Applied
  next db none (e, dbs) = (e, db ∷ dbs)
  next db (some e) rest = (some (wrap e "failed to apply migrations"), db ∷ [])

  -- The loop of `Migrate`.
  unfoldable pub apply_all : List String → Applied
  apply_all [] = (none, [])
  apply_all (db ∷ dbs) = next db (apply db) (apply_all dbs)

  -- `Migrate` of a version that could be parsed; its argument `db` is only logged.
  unfoldable pub migrate : Result (List String) → Applied
  unfolding apply_all
  migrate (ok names) = apply_all (db_name ∷ names)
  migrate (err e) = (some e, [])
  migrate panic = (none, [])

  abbrev pub or_default : List String → List String
  or_default [] = db_name ∷ []
  or_default dbs = dbs

  abbrev pub and_then : Applied → Applied → Applied
  and_then (some e, dbs) rest = (some (message "failed to run migrations"), dbs)
  and_then (none, dbs) (e, rest) = (e, dbs ++ rest)

  -- The loop of `doMigrations`: each round migrates all databases of that name.
  unfoldable pub migrate_all : List String → Result (List String) → Applied
  unfolding migrate
  migrate_all [] names = (none, [])
  migrate_all (d ∷ ds) names = and_then (migrate names) (migrate_all ds names)

  -- `doMigrations`
  unfoldable pub do_migrations : Result (List String) → Result (List String) → Applied
  unfolding migrate_all
  do_migrations (ok dbs) names = migrate_all (or_default dbs) names
  do_migrations (err e) names = (some (wrap e "failed go retrieve tenant DBs"), [])
  do_migrations panic names = (none, [])
