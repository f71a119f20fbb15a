-- ===== src/Tests/Managers.antt =====
-- Source/API/CBLManager.m at concrete inputs.
use couchbase_lite_ios.Base.{ℕ, ◌≡◌, refl, true, false, Option, none, some, List, [], ◌∷◌, ◌++◌}
use couchbase_lite_ios.Base.Bytes.{Bytes, codes, equal}
use couchbase_lite_ios.Manager.{
  ManagerTypes, Manager, OpenedDatabase, DatabaseOptions, open_database_named, database_named_,
  register_database, open_files, find_database, change_database, file_exists,
  path_for_database_named, file_name, is_valid_database_name,
}
use couchbase_lite_ios.Manager.Opened.{open_database_named_again}

abbrev simple_types : ManagerTypes
simple_types = record {
  Key = ℕ;
  Protection = Unit {0};
  append_component = λ dir file. dir ++ (b'/' ∷ file);
  last_component = λ path. path;
  append_extension = λ name ext. name ++ (b'.' ∷ ext);
  delete_extension = λ path. path;
  has_extension = λ path ext. true;
  symmetric_key = λ key. some key;
}

abbrev empty_manager : Manager simple_types
empty_manager = record {
  dir = codes "/data";
  options = record { read_only = false; file_protection = tt };
  databases = [];
  shared = record { opened = []; keys = λ name. none };
  contents = [];
}

abbrev creating : DatabaseOptions simple_types
creating = record { create = true; read_only = false; storage_type = none; encryption_key = some 3 }

-- Opening creates the file that it is asked for.
abbrev create_file : DatabaseOptions simple_types → Bytes → List Bytes → Option (List Bytes)
create_file options path contents = some (codes "a:b.cblite2" ∷ contents)

abbrev database : OpenedDatabase simple_types
database = record {
  name = codes "a/b";
  dir = codes "/data/a:b.cblite2";
  read_only = false;
  is_open = true;
}

open_database_named_again_example :
    open_database_named simple_types create_file
      (codes "a/b")
      (record creating { create = false })
      (open_database_named simple_types create_file (codes "a/b") creating empty_manager).1
    ≡ (
      some database,
      (open_database_named simple_types create_file (codes "a/b") creating empty_manager).1,
    )
unfolding open_database_named database_named_ register_database open_files find_database
    change_database file_exists path_for_database_named file_name is_valid_database_name equal
open_database_named_again_example =
    open_database_named_again simple_types create_file (codes "a/b") creating
      (record creating { create = false }) empty_manager database refl
