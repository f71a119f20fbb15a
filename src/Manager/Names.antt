-- ===== src/Manager/Names.antt =====
-- Source/API/CBLManager.m: a valid name is found again in the path of its database.
use couchbase_lite_ios.Base.{ℕ, ◌≡◌, ◌≢◌, refl, true, [], ◌∷◌, ◌++◌, All, arith}
use couchbase_lite_ios.Base.Bytes.{Bytes}
use couchbase_lite_ios.Manager.{
  ManagerTypes, legal_chars, member_char, all_legal, starts_lower, is_valid_database_name,
  replace_char, extension, name_of_database_at_path, path_for_database_named, file_name,
}
use mathlib.Core.Path.{subst}

abbrev pub HasNoSlash : Bytes → Type 0
HasNoSlash name = All (λ c. c ≢ b'/') name

abbrev HasNoColon : Bytes → Type 0
HasNoColon name = All (λ c. c ≢ b':') name

-- What is documented of the methods on paths, for a name that is one component: an extension is appended
-- after a dot and deleted again, and the last component is the one that was appended.
pub record ArePaths (types : ManagerTypes) : Type 0 where
  pub appended :
      (name : Bytes)
      → HasNoSlash name
      → name ≢ []
      → types.append_extension name extension ≡ name ++ (b'.' ∷ extension)
  pub deleted :
      (name : Bytes)
      → HasNoSlash name
      → name ≢ []
      → types.delete_extension (name ++ (b'.' ∷ extension)) ≡ name
  pub last :
      (dir file : Bytes)
      → HasNoSlash file
      → file ≢ []
      → types.last_component (types.append_component dir file) ≡ file

member_char-colon : (c : ℕ) → member_char c legal_chars ≡ true → c ≢ b':'
unfolding member_char
member_char-colon c h e = cc (subst (λ x. member_char x legal_chars ≡ true) e h)

all_legal-HasNoColon : (name : Bytes) → all_legal name ≡ true → HasNoColon name
unfolding all_legal
all_legal-HasNoColon [] h = tt
all_legal-HasNoColon (c ∷ cs) h =
    (member_char-colon c (ground (arith, h)), all_legal-HasNoColon cs (ground (arith, h)))

replace_char-HasNoSlash : (name : Bytes) → HasNoSlash (replace_char b'/' b':' name)
unfolding replace_char
replace_char-HasNoSlash [] = tt
replace_char-HasNoSlash (c ∷ cs) = (ground arith, replace_char-HasNoSlash cs)

replace_char-back :
    (name : Bytes) → HasNoColon name → replace_char b':' b'/' (replace_char b'/' b':' name) ≡ name
unfolding replace_char
replace_char-back [] h = refl
replace_char-back (c ∷ cs) h = ground (arith, h.0, replace_char-back cs h.1)

append-HasNoSlash : (a b : Bytes) → HasNoSlash a → HasNoSlash b → HasNoSlash (a ++ b)
append-HasNoSlash [] b h k = k
append-HasNoSlash (c ∷ cs) b h k = (h.0, append-HasNoSlash cs b h.1 k)

extension-HasNoSlash : HasNoSlash (b'.' ∷ extension)
extension-HasNoSlash = (
  omega arith,
  (
    omega arith,
    (omega arith, (omega arith, (omega arith, (omega arith, (omega arith, (omega arith, tt)))))),
  ),
)

replace_char-not_empty :
    (name : Bytes) → starts_lower name ≡ true → replace_char b'/' b':' name ≢ []
unfolding replace_char starts_lower
replace_char-not_empty [] h e = cc h
replace_char-not_empty (c ∷ cs) h e = cc e

append_not_empty : (a b : Bytes) (c : ℕ) → a ++ (c ∷ b) ≢ []
append_not_empty [] b c e = cc e
append_not_empty (d ∷ a) b c e = cc e

module _ (types : ManagerTypes) (paths : ArePaths types) where
  -- The name of a database is read back from the path of its directory, when the name is valid.
  pub name_of_database_at_path-path_for_database_named :
      (dir name : Bytes)
      → is_valid_database_name name ≡ true
      → name_of_database_at_path types (path_for_database_named types dir name) ≡ name
  unfolding name_of_database_at_path path_for_database_named file_name is_valid_database_name
  name_of_database_at_path-path_for_database_named dir name h =
      let legal : all_legal name ≡ true = ground (arith, h) in
      let lower : starts_lower name ≡ true = ground (arith, h) in
      let plain = replace_char-HasNoSlash name in
      let given = replace_char-not_empty name lower in
      rw
        (
          name_of_database_at_path,
          path_for_database_named,
          file_name,
          paths.appended (replace_char b'/' b':' name) plain given,
          paths.last dir (replace_char b'/' b':' name ++ (b'.' ∷ extension))
              (append-HasNoSlash _ _ plain extension-HasNoSlash) (append_not_empty _ _ _),
          paths.deleted (replace_char b'/' b':' name) plain given,
        )
        (replace_char-back name (all_legal-HasNoColon name legal))
