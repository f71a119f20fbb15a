-- ===== src/Tests/Puts.antt =====
-- Source/CBL_SQLiteStorage.m: insertions at concrete inputs.
use couchbase_lite_ios.Base.{
  ℕ, ◌≡◌, refl, inl, inr, true, false, Option, none, some, List, [], ◌∷◌, arith,
}
use couchbase_lite_ios.Base.Bytes.{Bytes, codes, memchr, memcmp, equal}
use couchbase_lite_ios.RevId.{
  TreeRevId, generation, parse_digits, collate_rev_ids, rev_id_for_json, append_decimal, append_hex,
}
use couchbase_lite_ios.Storage.Table.{
  Row, Store, where_rows, order_by, insert_row, any_row, revid_eq, insert_by,
}
use couchbase_lite_ios.Storage.Docs.{find_doc, read_doc_numeric_id, create_or_get_doc_numeric_id}
use couchbase_lite_ios.Storage.Queries.{
  get_sequence_of_document, winning_row, exists_document, get_all_revisions,
}
use couchbase_lite_ios.Storage.Insert.{
  Incoming, in_transaction, insert_revision, force_insert, force_insert_block, force_insert_at,
  common_ancestor, insert_history, insert_stubs, is_error,
}
use couchbase_lite_ios.Storage.Put.{
  Environment, Request, add_doc_id, put_steps, lookups, find_parent, find_prev, prepare,
  edit_revpos, insert_new, fix_parent, replace_parent, limit_tree,
}
use couchbase_lite_ios.Storage.Rows.{In}
use couchbase_lite_ios.Storage.WellFormed.{IsWellFormed, Links}
use couchbase_lite_ios.Storage.Preserved.{force_insert-IsWellFormed}
use couchbase_lite_ios.Storage.PutPreserved.{add_doc_id-IsWellFormed}
use couchbase_lite_ios.Storage.Conflicts.{Replaces, doc_of, add_doc_id-Replaces}

abbrev pub first : Row
first = record {
  sequence = 1;
  doc_id = 1;
  revid = codes "1-aa";
  parent = none;
  current = true;
  deleted = false;
  json = none;
  no_attachments = true;
  doc_type = none;
}

abbrev one_doc : Store
one_doc = record {
  docs = record { doc_id = 1; docid = codes "doc" } ∷ [];
  rows = first ∷ [];
  last_sequence = 1;
  cached_ids = [];
  max_rev_tree_depth = 20;
}

one_doc-IsWellFormed : IsWellFormed 0 one_doc.rows one_doc.last_sequence
one_doc-IsWellFormed = record {
  counted =
      λ r h. elim h [ inl e ↦ rw e ((omega arith), omega arith) | inr nowhere ↦ absurd nowhere ];
  one_sequence = λ r s h k e. same r s h k;
  one_revid = λ r s h k d e. same r s h k;
  linked =
      λ r p h e. elim h [ inl is_first ↦ no_parent r p is_first e | inr nowhere ↦ absurd nowhere ];
}
  where
    same : (r s : Row) → In r one_doc.rows → In s one_doc.rows → r ≡ s
    same r s (inl e) (inl e') = rw (e, e')
    same r s (inr nowhere) k = absurd nowhere
    same r s h (inr nowhere) = absurd nowhere

    no_parent : (r : Row) (p : ℕ) → r ≡ first → r.parent ≡ some p → Links 0 one_doc.rows r p
    no_parent r p e is_some = absurd (cc (rw e at is_some))

abbrev environment : Environment
environment = record {
  canonical_json = λ p. some p.others;
  md5 = λ _. 171 ∷ [];
  enumerate = λ xs. xs;
  uuid = codes "uuid";
}

abbrev put : TreeRevId → Request
put prev = record {
  docid = some (codes "doc");
  prev_revid = some prev;
  properties = some (record { attachments = none; type = none; others = codes "{}" });
  deleting = false;
  allow_conflict = false;
  validation = none;
}

add_doc_id-IsWellFormed_example :
    IsWellFormed 0
      (add_doc_id environment (put (codes "1-aa")) one_doc).store.rows
      (add_doc_id environment (put (codes "1-aa")) one_doc).store.last_sequence
add_doc_id-IsWellFormed_example =
    add_doc_id-IsWellFormed environment (put (codes "1-aa")) one_doc one_doc-IsWellFormed

put_run : (add_doc_id environment (put (codes "1-aa")) one_doc).new_revid ≡ some (codes "2-ab")
unfolding add_doc_id in_transaction put_steps lookups find_parent find_prev prepare edit_revpos
    insert_new fix_parent replace_parent limit_tree insert_revision create_or_get_doc_numeric_id
    find_doc read_doc_numeric_id get_sequence_of_document where_rows revid_eq collate_rev_ids
    parse_digits memchr memcmp equal rev_id_for_json generation append_decimal append_hex insert_row
    any_row
put_run = refl

put_wrong : is_error (add_doc_id environment (put (codes "1-zz")) one_doc).status ≡ true
unfolding add_doc_id in_transaction put_steps lookups find_parent find_prev prepare
    create_or_get_doc_numeric_id find_doc read_doc_numeric_id get_sequence_of_document where_rows
    revid_eq collate_rev_ids parse_digits memchr memcmp equal exists_document winning_row order_by
put_wrong = refl

add_doc_id-Replaces_example : Replaces one_doc (doc_of (codes "doc") one_doc) (codes "1-aa") false
add_doc_id-Replaces_example =
    add_doc_id-Replaces environment (put (codes "1-aa")) one_doc (codes "doc") (codes "1-aa")
      (codes "2-ab") refl refl put_run

abbrev pulled : Option Bytes → Incoming
pulled json = record {
  revid = codes "3-cc";
  deleted = false;
  has_attachments = false;
  json = json;
  doc_type = none;
}

abbrev history : List TreeRevId
history = codes "3-cc" ∷ codes "2-bb" ∷ codes "1-aa" ∷ []

force_insert-IsWellFormed_example :
    IsWellFormed 0
      (force_insert
        (λ xs. xs)
        (codes "doc")
        (pulled (some (codes "{}")))
        history
        none
        one_doc).store.rows
      (force_insert
        (λ xs. xs)
        (codes "doc")
        (pulled (some (codes "{}")))
        history
        none
        one_doc).store.last_sequence
force_insert-IsWellFormed_example =
    force_insert-IsWellFormed (λ xs. xs) (codes "doc") (pulled (some (codes "{}"))) history none
      one_doc one_doc-IsWellFormed

pull_wrong :
    is_error (force_insert (λ xs. xs) (codes "doc") (pulled none) history none one_doc).status
    ≡ true
unfolding force_insert force_insert_block force_insert_at in_transaction
    create_or_get_doc_numeric_id find_doc read_doc_numeric_id get_all_revisions where_rows order_by
    insert_by common_ancestor insert_history insert_stubs insert_revision insert_row any_row
    revid_eq collate_rev_ids parse_digits memchr memcmp equal
pull_wrong = refl
