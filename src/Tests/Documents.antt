-- ===== src/Tests/Documents.antt =====
-- Source/API/CBLDocument.m, CBLRevision.m, CBLDatabase.m and Source/CBLDatabase+Insertion.m at concrete inputs.
use couchbase_lite_ios.Base.{
  ◌≡◌, ◌≢◌, ◌↔◌, refl, sym, ◌∙◌, Bool, true, false, Option, none, some, List, [], ◌∷◌,
  if◌then◌else◌, arith,
}
use couchbase_lite_ios.Base.Bytes.{Bytes, codes, equal}
use couchbase_lite_ios.RevId.{TreeRevId, as_string}
use couchbase_lite_ios.Revision.{Revision, is_given}
use couchbase_lite_ios.Document.Properties.{
  PropertyTypes, Properties, object_for, set_user_properties, is_reserved_key, keep_metadata,
  set_object, remove_object,
}
use couchbase_lite_ios.Document.Properties.User.{merged, set_user_properties-object_for}
use couchbase_lite_ios.Document.Access.{Put, DocumentDatabase, Document, UnsavedRevision}
use couchbase_lite_ios.Document.Saving.{status_from_error, out_of_fuel, update}
use couchbase_lite_ios.Document.Saving.Quiet.{IsQuiet}
use couchbase_lite_ios.Document.Saving.Update.{update-HasEnded}
use couchbase_lite_ios.Cache.{Resource, init_with_retain_limit, add_resource, object_for_key}
use couchbase_lite_ios.DatabaseApi.Documents.{
  DocumentCache, get_document, cached, with_cached, new_document, new_object,
}
use couchbase_lite_ios.DatabaseApi.Instances.{get_document_again}
use couchbase_lite_ios.DatabaseApi.Validation.{
  ValidationBlock, init_with_database, reject, validate_revision, run_blocks,
}
use couchbase_lite_ios.DatabaseApi.Verdict.{AllAccept, validate_revision-AllAccept}
use mathlib.Core.Option

-- Objects are texts, and there are no attachments.
abbrev texts : PropertyTypes
texts = record {
  Object = Bytes;
  Attachment = Unit {0};
  string_of = λ v. some v;
  bool_of = λ v. false;
  dictionary_of = λ v. none;
  attachment_of = λ v. none;
  string_object = λ v. v;
  true_object = codes "true";
  dictionary_object = λ entries. [];
  attachment_object = λ a. [];
  metadata = λ a. [];
}

abbrev old_properties : Properties texts
old_properties = (codes "_id", codes "doc") ∷ (codes "size", codes "big") ∷ []

abbrev new_properties : Properties texts
new_properties = (codes "size", codes "small") ∷ []

new_properties_run :
    set_user_properties texts (some new_properties) old_properties
    ≡ (codes "_id", codes "doc") ∷ (codes "size", codes "small") ∷ []
unfolding set_user_properties keep_metadata set_object remove_object is_reserved_key equal
new_properties_run = refl

set_user_properties-object_for_example :
    object_for texts (codes "_id") (set_user_properties texts (some new_properties) old_properties)
    ≡ merged texts
        (is_reserved_key texts (codes "_id"))
        (object_for texts (codes "_id") (Option.get_or (some new_properties) []))
        (object_for texts (codes "_id") old_properties)
set_user_properties-object_for_example =
    set_user_properties-object_for texts (some new_properties) old_properties (codes "_id")

-- A database with one document, which has its first revision or its second one.
abbrev id_at : Bool → TreeRevId
id_at false = codes "1-aa"
id_at true = codes "2-bb"

abbrev revision_at : Bool → Revision (Properties texts)
revision_at st = record {
  body = some old_properties;
  doc_id = some (codes "doc");
  rev_id = some (id_at st);
  sequence = 1;
  deleted = false;
  missing = false;
}

abbrev put_below : Option TreeRevId → Bool → Put texts Bytes Bool × Bool
put_below none st = (record { revision = none; error = some 409 }, st)
put_below (some parent) st =
    if equal parent (id_at st)
    then (record { revision = some (revision_at true); error = none }, true)
    else (record { revision = none; error = some 409 }, st)

abbrev small_database : DocumentDatabase texts Bytes Bool
small_database = record {
  get_document = λ doc_id revid with_body st. (some (revision_at st), 200);
  load_body = λ rev st. (some rev, 200);
  add_basic_metadata = λ rev. rev;
  get_parent_revision = λ rev st. none;
  get_revision_history = λ rev ancestors st. [];
  get_all_revisions = λ doc_id current deleted st. revision_at st ∷ [];
  put_doc_id = λ doc_id properties prev allow_conflict st. put_below prev st;
  force_insert = λ rev history source st. (200, st);
  register_attachments = λ attachments rev st. (none, st);
  save_attachment = λ attachment st. (none, st);
  purge_revisions = λ doc_id st. (200, st);
  expiration_of_document = λ doc_id st. 0;
  set_expiration = λ seconds doc_id st. st;
}

put_below_current : (st : Bool) → status_from_error (put_below (some (id_at st)) st).0.error ≡ 500
unfolding equal
put_below_current false = refl
put_below_current true = refl

id_at-as_string : (st : Bool) → as_string (id_at st) ≡ some (id_at st)
unfolding as_string
id_at-as_string false = refl
id_at-as_string true = refl

small_database-IsQuiet : IsQuiet texts Bytes Bool small_database
unfolding Option.bind
small_database-IsQuiet = record {
  put_current = λ doc_id properties st e. absurd (omega (arith, sym e ∙ put_below_current st));
  attachment_error = λ attachment st e. absurd (omega (arith, e));
  attachment_kept = λ attachment doc_id st. refl;
  ids_are_texts = λ doc_id st. id_at-as_string st;
}

-- A document that has the first revision cached.
abbrev stale_document : Document texts Bytes Bool
stale_document = record {
  doc_id = codes "doc";
  current =
      some (record { rev = revision_at false; checked_properties = false; parent_rev_id = none });
  known = true;
}

abbrev shrink : UnsavedRevision texts Bytes Bool → Option (Properties texts)
shrink unsaved = some new_properties

update-HasEnded_example :
    (update texts Bytes Bool small_database 2 shrink stale_document true).0.0 ≢ out_of_fuel
update-HasEnded_example =
    update-HasEnded texts Bytes Bool small_database small_database-IsQuiet shrink 0 stale_document
      true

abbrev no_documents : DocumentCache texts Bytes Bool small_database
no_documents = record { cache = none; objects = λ i. stale_document; next_object = 3 }

abbrev doc_resource : Resource
doc_resource = record { cache_key = codes "doc"; object = 3 }

first_get :
    (get_document texts Bytes Bool small_database (codes "doc") false true no_documents true).0
    ≡ some doc_resource
unfolding get_document cached with_cached new_document new_object add_resource object_for_key
    init_with_retain_limit
first_get = refl

get_document_again_example :
    (get_document texts Bytes Bool small_database
      (codes "doc")
      false
      false
      (get_document texts Bytes Bool small_database (codes "doc") false true no_documents true).1
      false).0
    ≡ some doc_resource
get_document_again_example =
    get_document_again texts Bytes Bool small_database (codes "doc") false true false no_documents
      true false doc_resource first_get

-- A validation function that wants a document to have a size.
abbrev wants_size : ValidationBlock texts Bytes equal
wants_size rev context = some (
    if is_given (object_for texts (codes "size") context.new_properties)
    then context
    else reject texts Bytes equal context)

abbrev validations : List (Bytes × ValidationBlock texts Bytes equal)
validations = (codes "sizes", wants_size) ∷ []

validation_run :
    (validate_revision texts Bytes equal validations (revision_at true) none none).0 ≡ 200
unfolding validate_revision run_blocks init_with_database object_for equal
validation_run = refl

validate_revision-AllAccept_example :
    ((validate_revision texts Bytes equal validations (revision_at true) none none).0 ≡ 200)
    ↔ AllAccept texts Bytes equal validations
        (revision_at true)
        (init_with_database texts Bytes equal none (Option.get_or (some old_properties) []) none)
validate_revision-AllAccept_example =
    validate_revision-AllAccept texts Bytes equal validations (revision_at true) none none
