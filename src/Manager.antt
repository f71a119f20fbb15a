-- ===== src/Manager.antt =====
-- Source/API/CBLManager.h and CBLManager.m: the names of databases, their paths, and the databases that a
-- manager has opened, with what Source/CBL_Shared.m keeps of them. A string is its UTF-8 bytes, `nil` is `none`,
-- and `nil` options are options whose fields are all NO or nil. A database object is its name, its path
-- and whether it is open. Replications and the copies of a manager on other threads are left out.
pub mod Names
pub mod Opened
pub mod Interface
use couchbase_lite_ios.Base.{
  ℕ, ◌+◌, Bool, true, false, not, ◌&&◌, ◌||◌, Option, none, some, List, [], ◌∷◌, map, ltb, leb,
  ◌==◌, if◌then◌else◌, length,
}
use couchbase_lite_ios.Base.Bytes.{Bytes, codes, equal}
use mathlib.Core.Option

abbrev pub status_bad_id : ℕ
status_bad_id = 494

abbrev pub legal_chars : Bytes
legal_chars = codes "abcdefghijklmnopqrstuvwxyz0123456789_$()+-/"

pub member_char : ℕ → Bytes → Bool
member_char c [] = false
member_char c (x ∷ xs) = c == x || member_char c xs

pub all_legal : Bytes → Bool
all_legal [] = true
all_legal (c ∷ cs) = member_char c legal_chars && all_legal cs

pub starts_lower : Bytes → Bool
starts_lower [] = false
starts_lower (c ∷ cs) = leb b'a' c && leb c b'z'

unfoldable pub is_valid_database_name : Bytes → Bool
unfolding all_legal member_char starts_lower
is_valid_database_name name =
    ltb 0 (length name) && ltb (length name) 240 && all_legal name && starts_lower name

-- `stringByReplacingOccurrencesOfString:` of one character by another.
pub replace_char : ℕ → ℕ → Bytes → Bytes
replace_char a b [] = []
replace_char a b (c ∷ cs) = (if c == a then b else c) ∷ replace_char a b cs

-- Methods of strings on paths, the keys of encryption, and the opening of a database, which may create its
-- directory among the files and is `none` on an error.
pub record ManagerTypes : Type 1 where
  pub Key : Type 0
  pub Protection : Type 0
  pub append_component : Bytes → Bytes → Bytes
  pub last_component : Bytes → Bytes
  pub append_extension : Bytes → Bytes → Bytes
  pub delete_extension : Bytes → Bytes
  pub has_extension : Bytes → Bytes → Bool
  pub symmetric_key : Key → Option Key

abbrev pub extension : Bytes
extension = codes "cblite2"

module _ (types : ManagerTypes) where
  open types use {
    Key, Protection, append_component, last_component, append_extension, delete_extension,
    has_extension, symmetric_key,
  }

  pub record ManagerOptions : Type 0 where
    pub read_only : Bool
    pub file_protection : Protection

  pub record DatabaseOptions : Type 0 where
    pub create : Bool
    pub read_only : Bool
    pub storage_type : Option Bytes
    pub encryption_key : Option Key

  pub record OpenedDatabase : Type 0 where
    pub name : Bytes
    pub dir : Bytes
    pub read_only : Bool
    pub is_open : Bool

  -- `opened` is the counted set of names, `keys` the values of type "encryptionKey".
  pub record Shared : Type 0 where
    pub opened : List Bytes
    pub keys : Bytes → Option Key

  -- `contents` are the names of the files in the manager's directory.
  pub record Manager : Type 0 where
    pub dir : Bytes
    pub options : ManagerOptions
    pub databases : List OpenedDatabase
    pub shared : Shared
    pub contents : List Bytes

  unfoldable pub name_of_database_at_path : Bytes → Bytes
  unfolding replace_char
  name_of_database_at_path path = replace_char b':' b'/' (delete_extension (last_component path))

  unfoldable pub file_name : Bytes → Bytes
  unfolding replace_char
  file_name name = append_extension (replace_char b'/' b':' name) extension

  unfoldable pub path_for_database_named : Bytes → Bytes → Bytes
  unfolding file_name
  path_for_database_named dir name = append_component dir (file_name name)

  -- `_databases[name]`
  unfoldable pub find_database : Bytes → List OpenedDatabase → Option OpenedDatabase
  find_database name [] = none
  find_database name (d ∷ ds) =
      let later = find_database name ds in if equal d.name name then some d else later

  -- The object under a name has changed.
  unfoldable pub change_database :
      Bytes → OpenedDatabase → List OpenedDatabase → List OpenedDatabase
  change_database name db [] = []
  change_database name db (d ∷ ds) =
      let rest = change_database name db ds in if equal d.name name then db ∷ rest else d ∷ rest

  -- `removeObjectForKey:`
  unfoldable pub remove_database : Bytes → List OpenedDatabase → List OpenedDatabase
  remove_database name [] = []
  remove_database name (d ∷ ds) =
      let rest = remove_database name ds in if equal d.name name then rest else d ∷ rest

  -- `fileExistsAtPath:` of a path in the manager's directory
  unfoldable pub file_exists : Bytes → Bytes → List Bytes → Bool
  file_exists dir path [] = false
  file_exists dir path (f ∷ fs) = equal (append_component dir f) path || file_exists dir path fs

  abbrev pub new_database : Bytes → Manager → OpenedDatabase
  new_database name m = record {
    name = name;
    dir = path_for_database_named m.dir name;
    read_only = m.options.read_only;
    is_open = false;
  }

  -- A name that is not registered; `none` is a refusal with the status.
  unfoldable pub register_database : Bytes → Bool → Manager → (Option OpenedDatabase × ℕ) × Manager
  unfolding path_for_database_named file_exists
  register_database name must_exist m =
      if not (is_valid_database_name name)
      then ((none, status_bad_id), m)
      else if must_exist && not (file_exists m.dir (path_for_database_named m.dir name) m.contents)
      then ((none, 404), m)
      else (
        (some (new_database name m), 200),
        record m {
          databases = new_database name m ∷ m.databases;
          shared = record m.shared { opened = name ∷ m.shared.opened };
        },
      )

  abbrev pub found_or_registered :
      Bytes → Bool → Manager → Option OpenedDatabase → (Option OpenedDatabase × ℕ) × Manager
  found_or_registered name must_exist m none = register_database name must_exist m
  found_or_registered name must_exist m (some db) = ((some db, 200), m)

  unfoldable pub database_named_ : Bytes → Bool → Manager → (Option OpenedDatabase × ℕ) × Manager
  unfolding find_database register_database
  database_named_ name must_exist m =
      found_or_registered name (must_exist || m.options.read_only) m
        (find_database name m.databases)

  unfoldable pub register_encryption_key : Option Key → Bytes → Shared → Bool × Shared
  register_encryption_key none name s =
      (true, record s { keys = λ n. if equal n name then none else s.keys n })
  register_encryption_key (some given) name s = elim (symmetric_key given) [
    | none ↦ (false, s)
    | some real ↦ (true, record s { keys = λ n. if equal n name then some real else s.keys n })
  ]

  unfoldable pub default_options : Bytes → Manager → DatabaseOptions
  default_options name m = record {
    create = false;
    read_only = false;
    storage_type = none;
    encryption_key = m.shared.keys name;
  }

  -- `open_with_options` is the database's method of this name on the files of the directory.
  module _ (open_with_options : DatabaseOptions → Bytes → List Bytes → Option (List Bytes)) where
    abbrev pub files_opened :
        Bytes
        → DatabaseOptions
        → OpenedDatabase
        → Manager
        → Option (List Bytes)
        → Option OpenedDatabase × Manager
    files_opened name options db m none = (none, m)
    files_opened name options db m (some contents) = (
      some (record db { is_open = true }),
      record m {
        databases = change_database name (record db { is_open = true }) m.databases;
        shared = (register_encryption_key options.encryption_key name m.shared).1;
        contents = contents;
      },
    )

    unfoldable pub open_files :
        Bytes → DatabaseOptions → OpenedDatabase → Manager → Option OpenedDatabase × Manager
    unfolding change_database register_encryption_key
    open_files name options db m =
        files_opened name options db m (open_with_options options db.dir m.contents)

    abbrev pub open_found :
        Bytes → DatabaseOptions → Option OpenedDatabase → Manager → Option OpenedDatabase × Manager
    open_found name options none m = (none, m)
    open_found name options (some db) m =
        if db.is_open then (some db, m) else open_files name options db m

    unfoldable pub open_database_named :
        Bytes → DatabaseOptions → Manager → Option OpenedDatabase × Manager
    unfolding database_named_ open_files
    open_database_named name options m =
        let found = database_named_ name (not options.create || options.read_only) m in
        open_found name options found.0.0 found.1

    unfoldable pub existing_database_named : Bytes → Manager → Option OpenedDatabase × Manager
    unfolding open_database_named default_options
    existing_database_named name m = open_database_named name (default_options name m) m

    unfoldable pub database_named : Bytes → Manager → Option OpenedDatabase × Manager
    unfolding open_database_named default_options
    database_named name m =
        open_database_named name (record (default_options name m) { create = true }) m

  unfoldable pub database_exists_named : Bytes → Manager → Bool
  unfolding find_database path_for_database_named file_exists
  database_exists_named name m = elim (find_database name m.databases) [
    | some db ↦ true
    | none ↦
        is_valid_database_name name
        && file_exists m.dir (path_for_database_named m.dir name) m.contents
  ]

  unfoldable pub all_database_names : List Bytes → List Bytes
  unfolding name_of_database_at_path
  all_database_names [] = []
  all_database_names (f ∷ fs) =
      let rest = all_database_names fs in
      if has_extension f extension then name_of_database_at_path f ∷ rest else rest

  unfoldable pub count_of : Bytes → List Bytes → ℕ
  count_of name [] = 0
  count_of name (n ∷ ns) = let rest = count_of name ns in if equal n name then rest + 1 else rest

  unfoldable pub remove_once : Bytes → List Bytes → List Bytes
  remove_once name [] = []
  remove_once name (n ∷ ns) =
      let rest = remove_once name ns in if equal n name then ns else n ∷ rest

  -- `closedDatabase:`
  unfoldable pub closed_database : Bytes → Shared → Shared
  unfolding count_of remove_once
  closed_database name s = record {
    opened = remove_once name s.opened;
    keys = λ n. if equal n name && (count_of name s.opened == 1) then none else s.keys n;
  }

  -- `_forgetDatabase:`
  unfoldable pub forget_database : Bytes → Manager → Manager
  unfolding find_database remove_database closed_database
  forget_database name m = elim (find_database name m.databases) [
    | none ↦ m
    | some db ↦ record m {
      databases = remove_database name m.databases;
      shared = closed_database name m.shared;
    }
  ]
