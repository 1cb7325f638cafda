-- ===== src/Examples/Database.antt =====
-- A collection that is kept as a list of documents and whose operations do not fail.
use deviceconnect.Prelude.{Bool, List, ◌∷◌, ◌++◌, [], Option, none, some, ◌≡◌, refl, arith}
use deviceconnect.Store.Collection.{
  Collection, Found, found, no_documents, first, change, remove, remove_all,
}

abbrev pub to_found : {Doc : Type 0} → Option Doc → Found Doc
to_found none = no_documents
to_found (some d) = found d

pub to_found-found : {Doc : Type 0} (o : Option Doc) (d : Doc) → to_found o ≡ found d → o ≡ some d
to_found-found none d h = cc
to_found-found (some x) d h = cc

pub to_found-none : {Doc : Type 0} (o : Option Doc) → to_found o ≡ no_documents → o ≡ none
to_found-none none h = refl
to_found-none (some x) h = cc

pub remove-none :
    {Doc : Type 0} (p : Doc → Bool) (ds : List Doc) → first p ds ≡ none → remove p ds ≡ ds
remove-none p [] h = refl
remove-none p (d ∷ ds) h = ground (arith, remove-none p ds)

abbrev pub listed : (Doc : Type 0) → Collection Doc
listed Doc = record {
  Db = List Doc;
  docs = λ db. db;
  find_one = λ p db. to_found (first p db);
  update_one = λ p f u db. (none, change p f u db);
  find_one_and_update = λ p f u db. (to_found (first p (change p f u db)), change p f u db);
  insert_one = λ d db. (none, db ++ (d ∷ []));
  delete_one = λ p db. (none, remove p db);
  find_one_and_delete = λ p db. (to_found (first p db), remove p db);
  delete_many = λ p db. (none, remove_all p db);
  find_one_found = λ p db d h. to_found-found (first p db) d h;
  find_one_none = λ p db h. to_found-none (first p db) h;
  update_one_done = λ p f u db h. refl;
  find_one_and_update_done = λ p f u db d h. (refl, to_found-found (first p (change p f u db)) d h);
  insert_one_done = λ d db h. refl;
  delete_one_done = λ p db h. refl;
  find_one_and_delete_found = λ p db d h. (to_found-found (first p db) d h, refl);
  find_one_and_delete_none =
      λ p db h. (to_found-none (first p db) h, remove-none p db (to_found-none (first p db) h));
  delete_many_done = λ p db h. refl;
}
