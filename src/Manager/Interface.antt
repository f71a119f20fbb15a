-- ===== src/Manager/Interface.antt =====
-- Source/API/CBLManager.h, "DATABASES": the public methods of a manager on its databases, and
-- Source/API/CBLManager.m as their implementation. An error that a method reports is left out.
use couchbase_lite_ios.Base.{Bool, false, Option, none, List}
use couchbase_lite_ios.Base.Bytes.{Bytes}
use couchbase_lite_ios.Manager.{
  ManagerTypes, Manager, OpenedDatabase, DatabaseOptions, open_database_named,
  existing_database_named, database_named, database_exists_named, all_database_names,
}
use mathlib.Core.Option

pub record Databases (M Database Options : Type 0) : Type 0 where
  pub database_named : Bytes → M → Option Database × M
  pub existing_database_named : Bytes → M → Option Database × M
  pub open_database_named : Bytes → Option Options → M → Option Database × M
  pub database_exists_named : Bytes → M → Bool
  pub object_for_keyed_subscript : Bytes → M → Option Database × M
  pub all_database_names : M → List Bytes

module _ (types : ManagerTypes)
    (open_with_options : DatabaseOptions types → Bytes → List Bytes → Option (List Bytes)) where
  -- "All properties default to NO or nil."
  abbrev pub no_options : DatabaseOptions types
  no_options = record {
    create = false;
    read_only = false;
    storage_type = none;
    encryption_key = none;
  }

  unfoldable pub manager_databases :
      Databases (Manager types) (OpenedDatabase types) (DatabaseOptions types)
  manager_databases = record {
    database_named = database_named types open_with_options;
    existing_database_named = existing_database_named types open_with_options;
    open_database_named = λ name options.
        open_database_named types open_with_options name (Option.get_or options no_options);
    database_exists_named = database_exists_named types;
    object_for_keyed_subscript = existing_database_named types open_with_options;
    all_database_names = λ m. all_database_names types m.contents;
  }
