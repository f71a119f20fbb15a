-- ===== src/Manager/Opened.antt =====
-- Source/API/CBLManager.m: what `openDatabaseNamed:withOptions:error:` returns the second time.
use couchbase_lite_ios.Base.{
  ℕ, ◌≡◌, refl, sym, ap, ◌∙◌, Bool, true, not, ◌&&◌, ◌||◌, Option, none, some, List, [], ◌∷◌, arith,
}
use couchbase_lite_ios.Base.Bytes.{Bytes, equal, equal_refl}
use couchbase_lite_ios.Manager.{
  ManagerTypes, Manager, OpenedDatabase, DatabaseOptions, find_database, change_database,
  database_named_, register_database, found_or_registered, files_opened, open_files, open_found,
  open_database_named, is_valid_database_name, file_exists, path_for_database_named,
}
use couchbase_lite_ios.Differ.Steps.{pick-lem}

module _ (types : ManagerTypes) where
  change_database-find :
      (name : Bytes) (db db' : OpenedDatabase types) (ds : List (OpenedDatabase types))
      → find_database types name ds ≡ some db
      → equal db'.name name ≡ true
      → find_database types name (change_database types name db' ds) ≡ some db'
  unfolding find_database change_database
  change_database-find name db db' [] h k = cc h
  change_database-find name db db' (d ∷ ds) h k =
      ground (arith, change_database-find name db db' ds, k, h)

  find_database-name :
      (name : Bytes) (db : OpenedDatabase types) (ds : List (OpenedDatabase types))
      → find_database types name ds ≡ some db
      → equal db.name name ≡ true
  unfolding find_database
  find_database-name name db [] = λ h. cc h
  find_database-name name db (d ∷ ds) =
      pick-lem (λ (r : Option (OpenedDatabase types)). r ≡ some db → equal db.name name ≡ true)
        (equal d.name name) _ _ (λ same h. cc (same, h))
        (λ other h. find_database-name name db ds h)

  register_database-find :
      (name : Bytes) (must_exist : Bool) (m : Manager types) (db : OpenedDatabase types)
      → (register_database types name must_exist m).0.0 ≡ some db
      → find_database types name (register_database types name must_exist m).1.databases ≡ some db
  unfolding register_database find_database
  register_database-find name must_exist m db =
      pick-lem
        (λ (r : (Option (OpenedDatabase types) × ℕ) × Manager types).
          r.0.0 ≡ some db → find_database types name r.1.databases ≡ some db)
        (not (is_valid_database_name name)) _ _ (λ e h. cc h)
        (λ e.
          pick-lem
            (λ (r : (Option (OpenedDatabase types) × ℕ) × Manager types).
              r.0.0 ≡ some db → find_database types name r.1.databases ≡ some db)
            (must_exist
              && not
                  (file_exists types m.dir (path_for_database_named types m.dir name) m.contents))
            _ _ (λ e' h. cc h) (λ e' h. rw (equal_refl name) h))

  found_or_registered-find :
      (name : Bytes) (must_exist : Bool) (m : Manager types) (o : Option (OpenedDatabase types))
      → find_database types name m.databases ≡ o
      → (db : OpenedDatabase types) → (found_or_registered types name must_exist m o).0.0 ≡ some db
      → find_database types name (found_or_registered types name must_exist m o).1.databases
        ≡ some db
  found_or_registered-find name must_exist m none e db h =
      register_database-find name must_exist m db h
  found_or_registered-find name must_exist m (some found) e db h = e ∙ h

  -- The database that `_databaseNamed:` returns is the one that is registered under the name.
  database_named_-find :
      (name : Bytes) (must_exist : Bool) (m : Manager types) (db : OpenedDatabase types)
      → (database_named_ types name must_exist m).0.0 ≡ some db
      → find_database types name (database_named_ types name must_exist m).1.databases ≡ some db
  unfolding database_named_
  database_named_-find name must_exist m db =
      found_or_registered-find name (must_exist || m.options.read_only) m _ refl db

  module _ (open_with_options : DatabaseOptions types → Bytes → List Bytes → Option (List Bytes))
      (name : Bytes) where
    found_again :
        (options : DatabaseOptions types) (m : Manager types) (db : OpenedDatabase types)
        → find_database types name m.databases ≡ some db
        → db.is_open ≡ true
        → open_database_named types open_with_options name options m ≡ (some db, m)
    unfolding open_database_named database_named_
    found_again options m db h k = rw (open_database_named, database_named_, h, k) refl

    -- A database that is returned is registered under the name, and open.
    abbrev Stays : Option (OpenedDatabase types) × Manager types → Type 0
    Stays (o, m) =
        (db : OpenedDatabase types)
        → o ≡ some db
        → (find_database types name m.databases ≡ some db) × (db.is_open ≡ true)

    some_injective : {d e : OpenedDatabase types} → some d ≡ some e → d ≡ e
    some_injective h = cc h

    files_opened-Stays :
        (options : DatabaseOptions types) (db : OpenedDatabase types) (m : Manager types)
        (o : Option (List Bytes))
        → find_database types name m.databases ≡ some db
        → Stays (files_opened types open_with_options name options db m o)
    files_opened-Stays options db m none h = λ db' k. cc k
    files_opened-Stays options db m (some contents) h = λ db' k. (
      change_database-find name db (record db { is_open = true }) m.databases h
            (find_database-name name db m.databases h)
          ∙ k,
      sym (ap (λ (d : OpenedDatabase types). d.is_open) (some_injective k)),
    )

    open_found-Stays :
        (options : DatabaseOptions types) (m : Manager types) (o : Option (OpenedDatabase types))
        → ((db : OpenedDatabase types)
            → o ≡ some db
            → find_database types name m.databases ≡ some db)
        → Stays (open_found types open_with_options name options o m)
    unfolding open_files
    open_found-Stays options m none h = λ db' k. cc k
    open_found-Stays options m (some db) h =
        pick-lem Stays db.is_open _ _
          (λ e db' k.
            (h db' k, ap (λ (d : OpenedDatabase types). d.is_open) (sym (some_injective k)) ∙ e))
          (λ e. files_opened-Stays options db m _ (h db refl))

    open_database_named-Stays :
        (options : DatabaseOptions types) (m : Manager types)
        → Stays (open_database_named types open_with_options name options m)
    unfolding open_database_named
    open_database_named-Stays options m =
        open_found-Stays options _ _
          (λ db. database_named_-find name (not options.create || options.read_only) m db)

    -- When a call has returned a database, a second call with the same name returns the same database,
    -- whatever its options, and changes nothing.
    pub open_database_named_again :
        (options options' : DatabaseOptions types) (m : Manager types) (db : OpenedDatabase types)
        → (open_database_named types open_with_options name options m).0 ≡ some db
        → open_database_named types open_with_options name options'
            (open_database_named types open_with_options name options m).1
          ≡ (some db, (open_database_named types open_with_options name options m).1)
    open_database_named_again options options' m db h =
        let (registered, is_open) = open_database_named-Stays options m db h in
        found_again options' _ db registered is_open
