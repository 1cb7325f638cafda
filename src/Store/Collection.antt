-- ===== src/Store/Collection.antt =====
-- What store/mongo relies on of a MongoDB collection (the driver is not part of the repository):
-- the operations that it calls, and what their documentation says of a call that succeeds. A call
-- can fail at any time; of one that failed nothing is known.
use deviceconnect.Prelude.{Bool, List, [], ◌∷◌, ◌++◌, Option, none, some, ◌≡◌, if◌then◌else◌}
use deviceconnect.Errors.{Error}

-- The result of `FindOne`, `FindOneAndUpdate` and `FindOneAndDelete` after `Decode`.
pub data Found (Doc : Type 0) : Type 0 where
  found : Doc → Found Doc
  -- `mongo.ErrNoDocuments`
  no_documents : Found Doc
  failed : Error → Found Doc

module _ {Doc : Type 0} where
  -- The first document that a filter selects.
  abbrev pub first : (Doc → Bool) → List Doc → Option Doc
  first p [] = none
  first p (d ∷ ds) = if p d then some d else first p ds

  -- That document changed; where there is none and `upsert` is a document, it is added.
  abbrev pub change : (Doc → Bool) → (Doc → Doc) → Option Doc → List Doc → List Doc
  change p f none [] = []
  change p f (some u) [] = u ∷ []
  change p f upsert (d ∷ ds) = if p d then f d ∷ ds else d ∷ change p f upsert ds

  -- That document removed.
  abbrev pub remove : (Doc → Bool) → List Doc → List Doc
  remove p [] = []
  remove p (d ∷ ds) = if p d then ds else d ∷ remove p ds

  abbrev pub remove_all : (Doc → Bool) → List Doc → List Doc
  remove_all p [] = []
  remove_all p (d ∷ ds) = if p d then remove_all p ds else d ∷ remove_all p ds

pub record Collection (Doc : Type 0) : Type 1 where
  pub Db : Type 0
  -- the documents of the collection
  pub docs : Db → List Doc
  pub find_one : (Doc → Bool) → Db → Found Doc
  -- `UpdateOne` with a filter, an update and, with `upsert`, the document to insert
  pub update_one : (Doc → Bool) → (Doc → Doc) → Option Doc → Db → Option Error × Db
  -- `FindOneAndUpdate` that returns the document after the update
  pub find_one_and_update : (Doc → Bool) → (Doc → Doc) → Option Doc → Db → Found Doc × Db
  pub insert_one : Doc → Db → Option Error × Db
  pub delete_one : (Doc → Bool) → Db → Option Error × Db
  pub find_one_and_delete : (Doc → Bool) → Db → Found Doc × Db
  pub delete_many : (Doc → Bool) → Db → Option Error × Db
  pub find_one_found :
      (p : Doc → Bool) (db : Db) (d : Doc) → find_one p db ≡ found d → first p (docs db) ≡ some d
  pub find_one_none :
      (p : Doc → Bool) (db : Db) → find_one p db ≡ no_documents → first p (docs db) ≡ none
  pub update_one_done :
      (p : Doc → Bool) (f : Doc → Doc) (u : Option Doc) (db : Db)
      → (update_one p f u db).0 ≡ none
      → docs (update_one p f u db).1 ≡ change p f u (docs db)
  pub find_one_and_update_done :
      (p : Doc → Bool) (f : Doc → Doc) (u : Option Doc) (db : Db) (d : Doc)
      → (find_one_and_update p f u db).0 ≡ found d
      → (docs (find_one_and_update p f u db).1 ≡ change p f u (docs db))
        × (first p (change p f u (docs db)) ≡ some d)
  pub insert_one_done :
      (d : Doc) (db : Db)
      → (insert_one d db).0 ≡ none
      → docs (insert_one d db).1 ≡ docs db ++ (d ∷ [])
  pub delete_one_done :
      (p : Doc → Bool) (db : Db)
      → (delete_one p db).0 ≡ none
      → docs (delete_one p db).1 ≡ remove p (docs db)
  pub find_one_and_delete_found :
      (p : Doc → Bool) (db : Db) (d : Doc)
      → (find_one_and_delete p db).0 ≡ found d
      → (first p (docs db) ≡ some d) × (docs (find_one_and_delete p db).1 ≡ remove p (docs db))
  pub find_one_and_delete_none :
      (p : Doc → Bool) (db : Db)
      → (find_one_and_delete p db).0 ≡ no_documents
      → (first p (docs db) ≡ none) × (docs (find_one_and_delete p db).1 ≡ docs db)
  pub delete_many_done :
      (p : Doc → Bool) (db : Db)
      → (delete_many p db).0 ≡ none
      → docs (delete_many p db).1 ≡ remove_all p (docs db)
