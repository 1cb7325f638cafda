-- ===== src/Examples/Copying.antt =====
-- A tenant's devices move to the common collection, which is a list.
use deviceconnect.Prelude.{ℕ, String, false, List, [], ◌∷◌, map, none, some, ◌≡◌, refl}
use deviceconnect.Store.Devices.{Device}
use deviceconnect.Store.Migration.{
  Target, Item, item, Source, opened, Index, replace_all, copy_documents, up,
}
use deviceconnect.Store.Migration.Batches.{
  decoded, AreBatches, copy_documents-replace_all, AreCopied, up-AreCopied,
}

abbrev id_of : Device → String
id_of d = d.id

abbrev target : Target Device id_of
target = record {
  Db = List Device;
  docs = λ db. db;
  create_indexes = λ is db. (none, db);
  update_many = λ f db. (none, map f db);
  bulk_write = λ ws db. (none, replace_all id_of ws db);
  create_indexes_done = λ is db h. refl;
  update_many_done = λ f db h. refl;
  bulk_write_done = λ ws db h. refl;
}

abbrev of_acme : Device → Device
of_acme d = record d { tenant_id = "acme" }

abbrev device_named : String → ℕ → Device
device_named id version = record {
  id = id;
  tenant_id = "";
  status = "connected";
  created_ts = 1;
  updated_ts = 2;
  version = some version;
}

abbrev items : List (Item Device)
items = item (device_named "d1" 4) ∷ item (device_named "d2" 1) ∷ []

abbrev old : List Device
old = device_named "d1" 3 ∷ []

copy_documents-replace_all_example :
    let (e, db', calls) = copy_documents target of_acme [] items old in
    AreBatches calls
    × (items ≡ map item (decoded items))
    × (db' ≡ replace_all id_of (map of_acme (decoded items)) old)
unfolding copy_documents
copy_documents-replace_all_example = copy_documents-replace_all target of_acme items old refl

abbrev parts : List (List Index × Source Device × List Device)
parts = ([], opened items, old) ∷ []

up-AreCopied_example : AreCopied target of_acme parts (up target of_acme false of_acme parts).1
unfolding up copy_documents
up-AreCopied_example = up-AreCopied target of_acme of_acme parts refl
