-- ===== src/Store/Migration/Batches.antt =====
-- store/mongo/migration_2_0_1.go: the bulk writes are those of one write for each document.
use deviceconnect.Prelude.{
  ◌≤◌, ◌<◌, String, false, List, [], ◌∷◌, ◌++◌, length, length-append, append_assoc,
  eq-nil_of_length, Option, none, some, str_eq, str_eq_iff, ◌==◌, map, if◌then◌else◌, if_elim, ◌≡◌,
  refl, sym, ap, ◌∙◌, arith,
}
use mathlib.Core.Path.{subst}
use deviceconnect.Errors.{Error}
use deviceconnect.Store.Migration.{
  Index, Source, opened, not_opened, copy_from, up, and_then, copied, Item, item, undecodable,
  find_batch_size, replace_one, replace_all, Target, Copied, flushed, copy_documents,
}

-- The first document with an id.
module _ {Doc : Type 0} (id_of : Doc → String) where
  abbrev pub find_by_id : String → List Doc → Option Doc
  find_by_id id [] = none
  find_by_id id (d ∷ ds) = if str_eq (id_of d) id then some d else find_by_id id ds

  -- The last of the writes to an id, or else what was there.
  abbrev pub last_write : String → List Doc → Option Doc → Option Doc
  last_write id [] o = o
  last_write id (w ∷ ws) o = last_write id ws (if str_eq (id_of w) id then some w else o)

  find_by_id-replace_one :
      (id : String) (d : Doc) (ds : List Doc)
      → find_by_id id (replace_one id_of d ds)
        ≡ (if str_eq (id_of d) id then some d else find_by_id id ds)
  find_by_id-replace_one id d [] = refl
  find_by_id-replace_one id d (x ∷ xs) = ground (
    arith,
    str_eq_iff (id_of x) (id_of d),
    str_eq_iff (id_of d) id,
    str_eq_iff (id_of x) id,
    find_by_id-replace_one id d xs,
  )

  find_by_id-replace_all :
      (id : String) (ws ds : List Doc)
      → find_by_id id (replace_all id_of ws ds) ≡ last_write id ws (find_by_id id ds)
  find_by_id-replace_all id [] ds = refl
  find_by_id-replace_all id (w ∷ ws) ds =
      find_by_id-replace_all id ws (replace_one id_of w ds)
      ∙ ap (last_write id ws) (find_by_id-replace_one id w ds)

  replace_all-append :
      (vs ws ds : List Doc)
      → replace_all id_of (vs ++ ws) ds ≡ replace_all id_of ws (replace_all id_of vs ds)
  replace_all-append [] ws ds = refl
  replace_all-append (v ∷ vs) ws ds = replace_all-append vs ws (replace_one id_of v ds)

-- The documents of a cursor, up to one that cannot be decoded.
abbrev pub decoded : {Doc : Type 0} → List (Item Doc) → List Doc
decoded [] = []
decoded (item d ∷ items) = d ∷ decoded items
decoded (undecodable e ∷ items) = []

-- No bulk write is empty or larger than a batch.
abbrev pub AreBatches : {Doc : Type 0} → List (List Doc) → Type 0
AreBatches [] = Unit {0}
AreBatches (ws ∷ calls) = (0 < length ws) × (length ws ≤ find_batch_size) × AreBatches calls

module _ {Doc : Type 0} {id_of : Doc → String} (t : Target Doc id_of)
    (with_tenant : Doc → Doc) where
  -- Copying that began with `writes` pending and the collection `db`: no bulk write was empty or too
  -- large, and without an error the collection has every write.
  abbrev Copies : List Doc → List (Item Doc) → t.Db → Copied t → Type 0
  Copies writes items db (e, db', calls) =
      AreBatches calls
      × (e ≡ none
          → (items ≡ map item (decoded items))
            × (t.docs db'
                ≡ replace_all id_of (writes ++ map with_tenant (decoded items)) (t.docs db)))

  flushed-Copies :
      (writes : List Doc) (items : List (Item Doc)) (db db' : t.Db) (x : Option Error)
      (rest : t.Db → Copied t)
      → 0 < length writes
      → length writes ≤ find_batch_size
      → (x ≡ none → t.docs db' ≡ replace_all id_of writes (t.docs db))
      → Copies [] items db' (rest db')
      → Copies writes items db (flushed t with_tenant writes (x, db') rest)
  flushed-Copies writes items db db' (some e) rest lo hi h r = ((lo, hi, tt), λ k. absurd cc)
  flushed-Copies writes items db db' none rest lo hi h (bs, r) = (
    (lo, hi, bs),
    λ e. (
      (r e).0,
      (r e).1
          ∙ (ap (replace_all id_of (map with_tenant (decoded items))) (h refl)
              ∙ sym
                  (replace_all-append id_of writes (map with_tenant (decoded items)) (t.docs db))),
    ),
  )

  regroup :
      (writes : List Doc) (d : Doc) (items : List (Item Doc)) (db : t.Db) (o : Copied t)
      → Copies (writes ++ (with_tenant d ∷ [])) items db o
      → Copies writes (item d ∷ items) db o
  regroup writes d items db (e, db', calls) (bs, r) = (
    bs,
    λ k. (
      ap (λ is. item d ∷ is) (r k).0,
      (r k).1
          ∙ ap (λ ws. replace_all id_of ws (t.docs db))
              (append_assoc writes (with_tenant d ∷ []) (map with_tenant (decoded items))),
    ),
  )

  copy_documents-Copies :
      (items : List (Item Doc)) (writes : List Doc) (db : t.Db)
      → length writes < find_batch_size
      → Copies writes items db (copy_documents t with_tenant writes items db)
  unfolding copy_documents
  copy_documents-Copies [] writes db h =
      if_elim (Copies writes [] db) (length writes == 0) (none, db, [])
        (flushed t with_tenant writes (t.bulk_write writes db) (λ q. (none, q, [])))
        (λ empty. (
          tt,
          λ _. (
            refl,
            ap (λ ws. replace_all id_of (ws ++ []) (t.docs db))
                (sym (eq-nil_of_length writes (ground arith))),
          ),
        ))
        (λ some_left.
          flushed-Copies writes [] db (t.bulk_write writes db).1 (t.bulk_write writes db).0
            (λ q. (none, q, [])) (ground arith) (omega arith) (t.bulk_write_done writes db)
            (tt, λ _. (refl, refl)))
  copy_documents-Copies (undecodable e ∷ items) writes db h = (tt, λ k. absurd cc)
  copy_documents-Copies (item d ∷ items) writes db h =
      let writes' = writes ++ (with_tenant d ∷ []) in
      let size = length-append writes (with_tenant d ∷ []) in
      regroup writes d items db _ (
        if_elim (Copies writes' items db) (length writes' == find_batch_size)
          (flushed t with_tenant writes' (t.bulk_write writes' db)
            (copy_documents t with_tenant [] items))
          (copy_documents t with_tenant writes' items db)
          (λ full.
            flushed-Copies writes' items db (t.bulk_write writes' db).1 (t.bulk_write writes' db).0
              (copy_documents t with_tenant [] items) (omega (arith, size)) (omega (arith, size))
              (t.bulk_write_done writes' db)
              (copy_documents-Copies items [] (t.bulk_write writes' db).1 (omega arith)))
          (λ more. copy_documents-Copies items writes' db (ground (arith, size))))

  -- Copying a tenant's collection without an error has decoded every document, and has the effect
  -- of writing the documents one by one, each with its tenant in the place of the one of its id or
  -- after the others; no bulk write was empty or larger than a batch.
  pub copy_documents-replace_all :
      (items : List (Item Doc)) (db : t.Db)
      → let (e, db', calls) = copy_documents t with_tenant [] items db in
        e ≡ none
        → AreBatches calls
          × (items ≡ map item (decoded items))
          × (t.docs db' ≡ replace_all id_of (map with_tenant (decoded items)) (t.docs db))
  copy_documents-replace_all items db h =
      let (batches, copied_all) = copy_documents-Copies items [] db (omega arith) in
      (batches, (copied_all h).0, (copied_all h).1)

  abbrev pub AreCopied : List (List Index × Source Doc × t.Db) → List t.Db → Type 0
  AreCopied [] dbs = dbs ≡ []
  AreCopied ((indexes, source, db) ∷ parts) [] = ⊥
  AreCopied ((indexes, source, db) ∷ parts) (db' ∷ dbs) =
      ((ds : List Doc) × (source ≡ opened (map item ds))
        × ((id : String)
            → find_by_id id_of id (t.docs db')
              ≡ last_write id_of id (map with_tenant ds) (find_by_id id_of id (t.docs db))))
      × AreCopied parts dbs

  copied-find :
      (source : Source Doc) (db : t.Db) (x : Copied t)
      → copy_from t with_tenant source db ≡ x
      → x.0 ≡ none
      → (ds : List Doc) × (source ≡ opened (map item ds))
        × ((id : String)
            → find_by_id id_of id (t.docs x.1)
              ≡ last_write id_of id (map with_tenant ds) (find_by_id id_of id (t.docs db)))
  copied-find (not_opened e) db x c h = absurd cc
  copied-find (opened items) db x c h =
      let ws = map with_tenant (decoded items) in
      let (all, same) =
        subst
          (λ o.
            o.0 ≡ none
            → (items ≡ map item (decoded items)) × (t.docs o.1 ≡ replace_all id_of ws (t.docs db)))
          c (copy_documents-Copies items [] db (omega arith)).1 h in
      (
        decoded items,
        ap opened all,
        λ id. ap (find_by_id id_of id) same ∙ find_by_id-replace_all id_of id ws (t.docs db),
      )

  -- A migration of a tenant's database that ends without an error has visited every collection: under
  -- each id the common collection holds the last document of that id that the cursor gave, with its
  -- tenant, or else what it held before.
  pub up-AreCopied :
      (no_tenant : Doc → Doc) (parts : List (List Index × Source Doc × t.Db))
      → (up t with_tenant false no_tenant parts).0 ≡ none
      → AreCopied parts (up t with_tenant false no_tenant parts).1
  unfolding up
  up-AreCopied no_tenant [] = λ h. refl
  up-AreCopied no_tenant ((indexes, source, db) ∷ parts) =
      by_part (copy_from t with_tenant source db) refl (up-AreCopied no_tenant parts)
    where
      by_part :
          (x : Copied t)
          → copy_from t with_tenant source db ≡ x
          → ((up t with_tenant false no_tenant parts).0 ≡ none
              → AreCopied parts (up t with_tenant false no_tenant parts).1)
          → let r =
              and_then t with_tenant parts
                (copied t with_tenant x)
                (up t with_tenant false no_tenant parts) in
            r.0 ≡ none → AreCopied ((indexes, source, db) ∷ parts) r.1
      by_part (some e, db', calls) c ih h = absurd cc
      by_part (none, db', calls) c ih h = (copied-find source db (none, db', calls) c refl, ih h)
