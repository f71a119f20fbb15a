-- ===== src/Tests/Locals.antt =====
-- Source/CBL_SQLiteStorage.m: local documents and the storage protocol at concrete inputs.
use couchbase_lite_ios.Base.{
  ℕ, ◌≡◌, refl, sym, ◌∙◌, inl, inr, false, Option, none, some, List, [], ◌∷◌, ◌==◌, if◌then◌else◌,
}
use couchbase_lite_ios.Base.Bytes.{Bytes, codes, equal, memchr, memcmp}
use couchbase_lite_ios.RevId.{parse_digits, collate_rev_ids}
use couchbase_lite_ios.Revision.{Revision}
use couchbase_lite_ios.Storage.Table.{where_rows, revid_eq}
use couchbase_lite_ios.Storage.Put.{Environment}
use couchbase_lite_ios.Storage.Local.{
  Database, LocalRow, JsonTypes, Properties, put_local_mvcc, local_row,
}
use couchbase_lite_ios.Storage.LocalRows.{IsOneEach}
use couchbase_lite_ios.Storage.LocalConflicts.{is_current, IsRefused, put_local_mvcc-IsRefused}
use couchbase_lite_ios.Storage.Rows.{In}
use couchbase_lite_ios.Storage.Divergences.{branched}
use couchbase_lite_ios.Storage.Sqlite.{sqlite_storage}
use couchbase_lite_ios.Storage.Contract.{IsStorage, sqlite_storage-IsStorage}

first_byte : Bytes → ℕ
first_byte [] = 0
first_byte (c ∷ cs) = c

-- An encoder of dictionaries with the key "a" only.
toy_encoding : List (Bytes × Bytes) → Option Bytes
toy_encoding [] = some (codes "{}")
toy_encoding ((k, v) ∷ []) = if equal k (codes "a") then some (b'a' ∷ v) else none
toy_encoding (_ ∷ _ ∷ _) = none

toy_parse : Bytes → Option (List (Bytes × Bytes))
toy_parse [] = none
toy_parse (c ∷ v) = if c == b'a' then some ((codes "a", v) ∷ []) else some []

abbrev toy_types : JsonTypes
toy_types = record {
  Value = Bytes;
  string = λ s. s;
  canonical_encoding = toy_encoding;
  parse = toy_parse;
}

abbrev row : LocalRow
row = record { docid = codes "_local/a"; revid = codes "1-local"; json = codes "{}" }

abbrev database : Database
database = record { store = branched; localdocs = row ∷ []; info = [] }

database-IsOneEach : IsOneEach database.localdocs
database-IsOneEach = record { one = one }
  where
    one :
        (r s : LocalRow)
        → In r database.localdocs
        → In s database.localdocs
        → r.docid ≡ s.docid
        → r ≡ s
    one r s (inl h) (inl k) e = h ∙ sym k
    one r s (inl h) (inr k) e = absurd k
    one r s (inr h) k e = absurd h

abbrev revision : Revision (Properties toy_types)
revision = record {
  body = some ((codes "a", codes "x") ∷ []);
  doc_id = some (codes "_local/a");
  rev_id = none;
  sequence = 0;
  deleted = false;
  missing = false;
}

put_local_mvcc-IsRefused_example :
    IsRefused database
      (put_local_mvcc toy_types revision (codes "_local/a") (some (codes "2-local")) database)
unfolding is_current local_row where_rows revid_eq collate_rev_ids parse_digits memchr memcmp equal
put_local_mvcc-IsRefused_example =
    put_local_mvcc-IsRefused (codes "_local/a") database database-IsOneEach toy_types revision
      (some (codes "2-local")) refl

abbrev environment : Environment
environment = record {
  canonical_json = λ p. some p.others;
  md5 = λ _. 171 ∷ [];
  enumerate = λ xs. xs;
  uuid = codes "uuid";
}

sqlite_storage-IsStorage_example : IsStorage (sqlite_storage environment toy_types)
sqlite_storage-IsStorage_example = sqlite_storage-IsStorage environment toy_types
