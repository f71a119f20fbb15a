-- ===== src/Storage/LocalReads.antt =====
-- Source/CBL_SQLiteStorage.m: a local document that was put is the one that is read.
use couchbase_lite_ios.Base.{◌≡◌, false, none, some, ◌==◌, length}
use couchbase_lite_ios.Base.Bytes.{Bytes, codes}
use couchbase_lite_ios.RevId.{TreeRevId}
use couchbase_lite_ios.Revision.{Revision}
use couchbase_lite_ios.Storage.Local.{
  JsonTypes, Properties, LocalOutcome, local_row, encode_document_json, is_reserved,
  get_local_document, lookup,
}

module _ (types : JsonTypes) where
  open types use {Value, string, canonical_encoding, parse}

  -- What a PUT with status 201 has done.
  pub record IsWritten (rev : Revision (Properties types)) (docid : Bytes)
      (o : LocalOutcome (Properties types)) : Type 0 where
    pub revid : TreeRevId
    pub json : Bytes
    pub encoded : encode_document_json types rev.body ≡ some json
    pub row_is :
        local_row docid o.database ≡ some (record { docid = docid; revid = revid; json = json })
    pub returned : o.revision ≡ some (record rev { doc_id = some docid; rev_id = some revid })

  -- What is documented of the JSON classes: the text of a dictionary is not empty, it is read back as
  -- a dictionary with the same entries, and `{}` is the text of the empty one.
  pub record IsJson : Type 0 where
    pub reads_back :
        (d : Properties types) (json : Bytes)
        → canonical_encoding d ≡ some json
        → (e : Properties types) × (parse json ≡ some e)
          × ((key : Bytes) → lookup types key e ≡ lookup types key d)
    pub not_empty :
        (d : Properties types) (json : Bytes)
        → canonical_encoding d ≡ some json
        → (length json == 0) ≡ false
    pub braces :
        (d : Properties types)
        → canonical_encoding d ≡ some (codes "{}")
        → (key : Bytes) → lookup types key d ≡ none

  -- A document read after a PUT: its revision is the one that was returned, its own keys have the
  -- values that were put.
  pub record ReadsBack (rev : Revision (Properties types)) (docid : Bytes)
      (o : LocalOutcome (Properties types)) : Type 0 where
    pub revid : TreeRevId
    pub read : Revision (Properties types)
    pub properties : Properties types
    pub body : Properties types
    pub given : rev.body ≡ some properties
    pub returned : o.revision ≡ some (record rev { doc_id = some docid; rev_id = some revid })
    pub got : get_local_document types docid none o.database ≡ some read
    pub rev_is : read.rev_id ≡ some revid
    pub body_is : read.body ≡ some body
    pub keys :
        (key : Bytes)
        → is_reserved key ≡ false
        → lookup types key body ≡ lookup types key properties
