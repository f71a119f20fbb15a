-- ===== src/Tests/Revisions.antt =====
-- Source/CBL_Revision.m: revisions and their list.
use couchbase_lite_ios.Base.{ℕ, ◌≡◌, refl, true, false, none, some, [], ◌∷◌}
use couchbase_lite_ios.Base.Bytes.{codes, equal}
use couchbase_lite_ios.Revision.{
  Revision, RevisionList, init_with_doc_id, set_sequence, known_sequence, forget_sequence, is_equal,
  rev_with_doc_id, rev_with_ids, add_rev, remove_rev, index_of, remove_object_at_index,
  remove_and_return_rev, limit,
}

abbrev revision : ℕ → Revision ℕ
revision n = record {
  body = none;
  doc_id = some (codes "doc");
  rev_id = some (n ∷ []);
  sequence = 0;
  deleted = false;
  missing = false;
}

abbrev three : RevisionList ℕ
three = revision 1 ∷ revision 2 ∷ revision 1 ∷ []

list_run :
    (remove_rev ℕ (revision 1) three ≡ revision 2 ∷ [])
    × (remove_and_return_rev ℕ (revision 1) three
        ≡ (some (revision 1), revision 2 ∷ revision 1 ∷ []))
    × (rev_with_ids ℕ (some (codes "doc")) (some (2 ∷ [])) three ≡ some (revision 2))
    × (rev_with_doc_id ℕ none three ≡ none)
    × (limit ℕ 1 (add_rev ℕ (revision 3) three) ≡ revision 1 ∷ [])
unfolding remove_rev is_equal equal remove_and_return_rev index_of remove_object_at_index
    rev_with_ids rev_with_doc_id limit add_rev
list_run = (refl, refl, refl, refl, refl)

sequence_run :
    (set_sequence ℕ 4 (revision 1) ≡ some (record (revision 1) { sequence = 4 }))
    × (set_sequence ℕ 5 (record (revision 1) { sequence = 4 }) ≡ none)
    × (known_sequence ℕ (forget_sequence ℕ (record (revision 1) { sequence = 4 })) ≡ none)
    × (init_with_doc_id ℕ none none true none ≡ none)
unfolding set_sequence known_sequence forget_sequence init_with_doc_id
sequence_run = (refl, refl, refl, refl)
