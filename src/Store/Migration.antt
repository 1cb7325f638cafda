-- ===== src/Store/Migration.antt =====
-- store/mongo/migration_2_0_1.go: the documents of a tenant's own database move to the common one,
-- with their tenant. What the loops over the four collections meet is the input: for each collection
-- its documents in the tenant's database and the collection of the common database.
pub mod Batches
pub mod Runs
use deviceconnect.Prelude.{
  ℕ, ◌+◌, String, Bool, true, false, List, [], ◌∷◌, ◌++◌, length, Option, none, some, str_eq, ◌==◌,
  map, if◌then◌else◌, ◌≡◌,
}
use deviceconnect.Errors.{Error}

abbrev pub find_batch_size : ℕ
find_batch_size = 255

pub record Index : Type 0 where
  pub keys : List String
  pub name : String
  -- `SetExpireAfterSeconds(0)`
  pub expires : Bool

abbrev pub session_id_index : Index
session_id_index = record {
  keys = "tenant_id" ∷ "session_id" ∷ [];
  name = "tenant_id_session_id";
  expires = false;
}

-- `collections`: Go visits them in any order.
abbrev pub collections : List (String × List Index)
collections =
    ("devices", [])
    ∷ (
      "sessions",
      record {
        keys = "tenant_id" ∷ "device_id" ∷ [];
        name = "tenant_id_device_id";
        expires = false;
      }
          ∷ [],
    )
    ∷ (
      "recordings",
      session_id_index
          ∷ record { keys = "expire_ts" ∷ []; name = "RecordingExpire"; expires = true }
          ∷ [],
    )
    ∷ ("control", session_id_index ∷ [])
    ∷ []

module _ {Doc : Type 0} (id_of : Doc → String) where
  -- `ReplaceOne` by the id, with `SetUpsert(true)`
  abbrev pub replace_one : Doc → List Doc → List Doc
  replace_one d [] = d ∷ []
  replace_one d (x ∷ xs) = if str_eq (id_of x) (id_of d) then d ∷ xs else x ∷ replace_one d xs

  abbrev pub replace_all : List Doc → List Doc → List Doc
  replace_all [] ds = ds
  replace_all (w ∷ ws) ds = replace_all ws (replace_one w ds)

-- What the migration calls of a collection of the common database, and what the driver's
-- documentation says of a call that succeeds: a bulk write is made of its writes in their order, and
-- an update changes the documents that its filter selects.
pub record Target (Doc : Type 0) (id_of : Doc → String) : Type 1 where
  pub Db : Type 0
  pub docs : Db → List Doc
  pub create_indexes : List Index → Db → Option Error × Db
  pub update_many : (Doc → Doc) → Db → Option Error × Db
  pub bulk_write : List Doc → Db → Option Error × Db
  pub create_indexes_done :
      (is : List Index) (db : Db)
      → (create_indexes is db).0 ≡ none
      → docs (create_indexes is db).1 ≡ docs db
  pub update_many_done :
      (f : Doc → Doc) (db : Db)
      → (update_many f db).0 ≡ none
      → docs (update_many f db).1 ≡ map f (docs db)
  pub bulk_write_done :
      (ws : List Doc) (db : Db)
      → (bulk_write ws db).0 ≡ none
      → docs (bulk_write ws db).1 ≡ replace_all id_of ws (docs db)

-- What `cur.Decode` gives.
pub data Item (Doc : Type 0) : Type 0 where
  item : Doc → Item Doc
  undecodable : Error → Item Doc

-- `client.Database(m.db).Collection(collection).Find(...)`: the documents of the cursor. A cursor that
-- breaks off ends like one that is done: `cur.Err()` is not looked at.
pub data Source (Doc : Type 0) : Type 0 where
  opened : List (Item Doc) → Source Doc
  not_opened : Error → Source Doc

-- What became of a collection: the error, the collection, and the bulk writes that were made.
abbrev pub Copied : {Doc : Type 0} {id_of : Doc → String} → Target Doc id_of → Type 0
Copied {Doc} t = Option Error × t.Db × List (List Doc)

module _ {Doc : Type 0} {id_of : Doc → String} (t : Target Doc id_of)
    (with_tenant : Doc → Doc) where
  -- After a bulk write of `writes`: the error ends the copying.
  abbrev pub flushed : List Doc → Option Error × t.Db → (t.Db → Copied t) → Copied t
  flushed writes (some e, db) rest = (some e, db, writes ∷ [])
  flushed writes (none, db) rest = let (e, db', calls) = rest db in (e, db', writes ∷ calls)

  -- The loop `for cur.Next(ctx)`, and the last bulk write.
  unfoldable pub copy_documents : List Doc → List (Item Doc) → t.Db → Copied t
  copy_documents writes [] db =
      if length writes == 0
      then (none, db, [])
      else flushed writes (t.bulk_write writes db) (λ db'. (none, db', []))
  copy_documents writes (undecodable e ∷ items) db = (some e, db, [])
  copy_documents writes (item d ∷ items) db =
      let writes' = writes ++ (with_tenant d ∷ []) in
      let full = flushed writes' (t.bulk_write writes' db) (copy_documents [] items) in
      let more = copy_documents writes' items db in
      if length writes' == find_batch_size then full else more

  abbrev pub copy_from : Source Doc → t.Db → Copied t
  copy_from (opened items) db = copy_documents [] items db
  copy_from (not_opened e) db = (some e, db, [])

  -- The branch `m.db == DbName`: indexes, and an empty tenant for the documents that have none.
  abbrev pub indexed : (Doc → Doc) → Option Error × t.Db → Option Error × t.Db
  indexed no_tenant (some e, db) = (some e, db)
  indexed no_tenant (none, db) = t.update_many no_tenant db

  unfoldable pub prepare_collection : (Doc → Doc) → List Index → t.Db → Option Error × t.Db
  prepare_collection no_tenant indexes db =
      if length indexes == 0
      then t.update_many no_tenant db
      else indexed no_tenant (t.create_indexes indexes db)

  -- One round of the loop over the collections; `own` is `m.db == DbName`.
  abbrev pub copied : Copied t → Option Error × t.Db
  copied (e, db, calls) = (e, db)

  abbrev pub up_collection :
      Bool → (Doc → Doc) → List Index → Source Doc → t.Db → Option Error × t.Db
  up_collection own no_tenant indexes source db =
      if own then prepare_collection no_tenant indexes db else copied (copy_from source db)

  -- The collections after `Up`: an error leaves those that were not yet visited as they are.
  abbrev pub dbs_of : List (List Index × Source Doc × t.Db) → List t.Db
  dbs_of [] = []
  dbs_of ((indexes, source, db) ∷ parts) = db ∷ dbs_of parts

  abbrev pub and_then :
      List (List Index × Source Doc × t.Db)
      → Option Error × t.Db
      → Option Error × List t.Db
      → Option Error × List t.Db
  and_then parts (some e, db) rest = (some e, db ∷ dbs_of parts)
  and_then parts (none, db) (e, dbs) = (e, db ∷ dbs)

  -- `Up`
  unfoldable pub up :
      Bool → (Doc → Doc) → List (List Index × Source Doc × t.Db) → Option Error × List t.Db
  unfolding copy_documents prepare_collection
  up own no_tenant [] = (none, [])
  up own no_tenant ((indexes, source, db) ∷ parts) =
      and_then parts (up_collection own no_tenant indexes source db) (up own no_tenant parts)
