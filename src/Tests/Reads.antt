-- ===== src/Tests/Reads.antt =====
-- Source/CBL_SQLiteStorage.m: reads, the changes feed and local documents at concrete inputs.
use couchbase_lite_ios.Base.{◌≡◌, refl, inl, true, false, ◌↔◌, none, some, [], ◌∷◌, ◌<◌, arith}
use couchbase_lite_ios.Base.Bytes.{Bytes, codes, equal, memchr, memcmp}
use couchbase_lite_ios.RevId.{
  TreeRevId, generation, parse_digits, collate_rev_ids, append_decimal, format_int,
}
use couchbase_lite_ios.Revision.{Revision, rev_with_ids, remove_rev, is_equal}
use couchbase_lite_ios.Storage.Table.{
  where_rows, order_by, insert_by, any_row, revid_eq, revid_lt, member,
}
use couchbase_lite_ios.Storage.Docs.{find_doc, read_doc_numeric_id, get_doc_numeric_id}
use couchbase_lite_ios.Storage.Queries.{winning_row, wins}
use couchbase_lite_ios.Storage.Documents.{
  select_document, read_document, get_document, document_count, count_distinct, ancestors_of_kind,
  ancestors_in, get_possible_ancestors, generation_bound, listed,
}
use couchbase_lite_ios.Storage.Changes.{
  join_row, join, doc_listed, stored_among, remove_found, find_missing_revisions,
}
use couchbase_lite_ios.Storage.Divergences.{branched}
use couchbase_lite_ios.Storage.Missing.{IsStored, find_missing_revisions_iff}
use couchbase_lite_ios.Storage.Ancestors.{IsCandidate, get_possible_ancestors-IsCandidate}
use couchbase_lite_ios.Storage.Rows.{In}

abbrev wanted : TreeRevId → Revision Bytes
wanted revid = record {
  body = none;
  doc_id = some (codes "doc");
  rev_id = some revid;
  sequence = 0;
  deleted = false;
  missing = false;
}

find_missing_revisions_iff_example :
    In
      (wanted (codes "3-cc"))
      (find_missing_revisions (wanted (codes "2-aa") ∷ wanted (codes "3-cc") ∷ []) branched)
    ↔ (In (wanted (codes "3-cc")) (wanted (codes "2-aa") ∷ wanted (codes "3-cc") ∷ [])
        × (¬ IsStored (codes "doc") (codes "3-cc") branched))
find_missing_revisions_iff_example =
    find_missing_revisions_iff (codes "doc") (codes "3-cc") (wanted (codes "3-cc"))
      (wanted (codes "2-aa") ∷ wanted (codes "3-cc") ∷ []) branched
      (record { doc_is = refl; rev_is = refl })

missing_run :
    find_missing_revisions (wanted (codes "2-aa") ∷ wanted (codes "3-cc") ∷ []) branched
    ≡ wanted (codes "3-cc") ∷ []
unfolding find_missing_revisions stored_among remove_found where_rows join join_row listed
    doc_listed revid_eq collate_rev_ids parse_digits memchr equal rev_with_ids remove_rev is_equal
    memcmp
missing_run = refl

read_run :
    ((get_document (codes "doc") none false branched).0.1 ≡ 200)
    × ((get_document (codes "no") none false branched).0 ≡ (none, 404))
    × (document_count branched ≡ 1)
    × ((get_possible_ancestors (codes "doc") (codes "2-cc") 0 branched).0
        ≡ (codes "1-aa" ∷ [], some true))
unfolding get_document select_document read_document get_doc_numeric_id read_doc_numeric_id find_doc
    equal winning_row wins where_rows order_by insert_by document_count count_distinct member
    get_possible_ancestors ancestors_in ancestors_of_kind revid_lt collate_rev_ids parse_digits
    memchr generation format_int append_decimal any_row memcmp
read_run = (refl, refl, refl, refl)

get_possible_ancestors-IsCandidate_example :
    IsCandidate branched.rows
      (get_doc_numeric_id (codes "doc") branched).0
      (generation_bound (generation (codes "2-cc")))
      (codes "1-aa")
    × (1 < generation (codes "2-cc"))
unfolding get_possible_ancestors ancestors_in ancestors_of_kind get_doc_numeric_id
    read_doc_numeric_id find_doc where_rows order_by insert_by revid_lt collate_rev_ids parse_digits
    memchr memcmp equal generation format_int append_decimal any_row
get_possible_ancestors-IsCandidate_example =
    get_possible_ancestors-IsCandidate (codes "doc") (codes "2-cc") 0 branched (codes "1-aa")
      (ground arith)
      (record {
        number = codes "1";
        digits = ground arith;
        short = omega arith;
        value_is = refl;
        gen_pos = omega arith;
        shape = refl;
      })
      (inl refl)
