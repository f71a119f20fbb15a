-- ===== src/Storage/Steps.antt =====
-- Source/CBL_SQLiteStorage.m: each step of the two insertion methods keeps the invariant of `revs`.
use mathlib.Core.Path.{subst}
use mathlib.Core.Option.{some-injective}
use couchbase_lite_ios.Base.{
  ℕ, ◌+◌, ◌≡◌, ◌≢◌, refl, sym, ◌∙◌, ◌⊎◌, inl, inr, Bool, true, false, not, Option, none, some, List,
  [], ◌∷◌, map, leb, if◌then◌else◌, length, arith, Bool-cases, Option-cases,
}
use couchbase_lite_ios.Base.Bytes.{Bytes}
use couchbase_lite_ios.Base.Results.{Result, ok, err, ◌>>=◌}
use couchbase_lite_ios.RevId.{TreeRevId}
use couchbase_lite_ios.Storage.Table.{Row, Store, insert_row}
use couchbase_lite_ios.Storage.Docs.{create_or_get_doc_numeric_id}
use couchbase_lite_ios.Storage.Queries.{leaves_of}
use couchbase_lite_ios.Storage.Prune.{prune_trunk, prune_branches, prune_document, purge_sequences}
use couchbase_lite_ios.Storage.Insert.{
  NewRow, sequence_of, sequence_or_null, insert_revision, stub, insert_stubs, Incoming, leaf_row,
  insert_leaf, insert_history, replace_ancestor, limit_depth,
}
use couchbase_lite_ios.Storage.Rows.{In, append-In_right}
use couchbase_lite_ios.Storage.WellFormed.{
  Links, IsWellFormed, insert_row-IsWellFormed, insert_row-eq, clear_current-IsWellFormed,
  delete_where-IsWellFormed,
}

abbrev pub WellFormed : ℕ → Store → Type 0
WellFormed exempt st = IsWellFormed exempt st.rows st.last_sequence

-- A sequence that a new row of the document may have for its parent, 0 for none.
abbrev pub ParentOk : ℕ → Store → ℕ → ℕ → Type 0
ParentOk exempt st doc p =
    (p ≡ 0)
    ⊎ ((row : Row) × In row st.rows
        × (row.sequence ≡ p)
        × (row.doc_id ≡ doc)
        × ((row.current ≡ false) ⊎ (p ≡ exempt)))

pub create_or_get-rows :
    (docid : Bytes) (is_new : Bool) (st : Store)
    → ((create_or_get_doc_numeric_id docid is_new st).store.rows ≡ st.rows)
      × ((create_or_get_doc_numeric_id docid is_new st).store.last_sequence ≡ st.last_sequence)
unfolding create_or_get_doc_numeric_id
create_or_get-rows docid is_new st = ground arith

pub prune_document-WellFormed :
    (enumerate : List ℕ → List ℕ) (depth doc min_gen : ℕ) (rows : List Row) (last : ℕ)
    → IsWellFormed 0 rows last
    → IsWellFormed 0 (prune_document enumerate depth doc min_gen rows) last
unfolding prune_document prune_trunk prune_branches purge_sequences
prune_document-WellFormed enumerate depth doc min_gen rows last f =
    elim (Bool-cases (leb (length (map (λ (r : Row). r.sequence) (leaves_of doc rows))) 1)) [
      | inl trunk ↦ rw trunk (delete_where-IsWellFormed rows last _ f)
      | inr branches ↦ rw branches (delete_where-IsWellFormed rows last _ f)
    ]

abbrev row_of : NewRow → ℕ → ℕ → Row
row_of r doc parent = record {
  sequence = 0;
  doc_id = doc;
  revid = r.revid;
  parent = sequence_or_null parent;
  current = r.current;
  deleted = r.deleted;
  json = r.json;
  no_attachments = not r.has_attachments;
  doc_type = r.doc_type;
}

insert_revision-eq :
    (r : NewRow) (doc parent : ℕ) (st : Store) {seq : ℕ} {st' : Store}
    → insert_revision r doc parent st ≡ some (seq, st')
    → (insert_row (row_of r doc parent) st ≡ some st') × (st'.last_sequence ≡ seq)
unfolding insert_revision
insert_revision-eq r doc parent st e = elim (Option-cases (insert_row (row_of r doc parent) st)) [
  | inl failed ↦ cc (rw (insert_revision, failed) at e)
  | inr (st1, made) ↦ let e' = rw (insert_revision, made) at e in (cc e', cc e')
]

sequence_or_null-some :
    (parent p : ℕ) → sequence_or_null parent ≡ some p → (parent ≡ p) × (parent ≢ 0)
sequence_or_null-some parent p e = ground arith

parent-Links :
    (exempt : ℕ) (st : Store) (new : Row) (parent p : ℕ)
    → ParentOk exempt st new.doc_id parent
    → new.parent ≡ sequence_or_null parent
    → new.parent ≡ some p
    → Links exempt st.rows new p
parent-Links exempt st new parent p (inl none_given) is e =
    absurd ((sequence_or_null-some parent p (sym is ∙ e)).1 none_given)
parent-Links exempt st new parent p (inr (row, place, at_p, d, left)) is e =
    let same = (sequence_or_null-some parent p (sym is ∙ e)).0 in
    record {
      row = row;
      place = place;
      sequence_is = at_p ∙ same;
      doc_is = d;
      replaced = elim left [ inl c ↦ inl c | inr x ↦ inr (sym same ∙ x) ];
    }

-- A new row that is not current can be the parent of the next one.
abbrev Inserted : ℕ → ℕ → ℕ → Bool → Store → Type 0
Inserted exempt doc seq current st' =
    WellFormed exempt st'
    × ((row : Row) × In row st'.rows
        × (row.sequence ≡ seq)
        × (row.doc_id ≡ doc)
        × (row.current ≡ current))

pub insert_revision-WellFormed :
    (exempt : ℕ) (r : NewRow) (doc parent : ℕ) (st : Store) {seq : ℕ} {st' : Store}
    → WellFormed exempt st
    → ParentOk exempt st doc parent
    → insert_revision r doc parent st ≡ some (seq, st')
    → Inserted exempt doc seq r.current st'
insert_revision-WellFormed exempt r doc parent st {seq} {st'} f parent_ok e =
    let (made, is_last) = insert_revision-eq r doc parent st e in
    let new = row_of r doc parent in
    let (_, rows_are, last_is) = insert_row-eq new st made in
    (
      insert_row-IsWellFormed exempt new st f
          (λ p h. parent-Links exempt st new parent p parent_ok refl h) made,
      (
        record new { sequence = st.last_sequence + 1 },
        subst (In (record new { sequence = st.last_sequence + 1 })) (sym rows_are)
            (append-In_right _ st.rows _ (inl refl)),
        sym last_is ∙ is_last,
        refl,
        refl,
      ),
    )

pub WellFormed-weaken : (exempt : ℕ) (st : Store) → WellFormed 0 st → WellFormed exempt st
WellFormed-weaken exempt st f = record {
  counted = f.counted;
  one_sequence = f.one_sequence;
  one_revid = f.one_revid;
  linked = λ r p h e.
      let l = f.linked r p h e in
      record {
        row = l.row;
        place = l.place;
        sequence_is = l.sequence_is;
        doc_is = l.doc_is;
        replaced = elim l.replaced [
          | inl c ↦ inl c
          | inr is_zero ↦ absurd (omega (arith, f.counted l.row l.place, l.sequence_is, is_zero))
        ];
      };
}

-- The state in which the next revision of a branch can be inserted.
abbrev pub Ready : ℕ → ℕ → ℕ × Store → Type 0
Ready exempt doc (seq, st) = WellFormed exempt st × ParentOk exempt st doc seq

insert_stub-Ready :
    (exempt doc parent : ℕ) (revid : TreeRevId) (st : Store) (seq : ℕ) (st' : Store)
    → Ready exempt doc (parent, st)
    → insert_revision (stub revid) doc parent st ≡ some (seq, st')
    → Ready exempt doc (seq, st')
insert_stub-Ready exempt doc parent revid st seq st' (f, parent_ok) e =
    let (f', (row, place, at_seq, d, c)) =
      insert_revision-WellFormed exempt (stub revid) doc parent st f parent_ok e in
    (f', inr (row, place, at_seq, d, inl c))

insert_stubs-Ready :
    (exempt doc parent : ℕ) (revids : List TreeRevId) (st : Store) (seq : ℕ) (st' : Store)
    → Ready exempt doc (parent, st)
    → insert_stubs doc parent revids st ≡ some (seq, st')
    → Ready exempt doc (seq, st')
unfolding insert_stubs
insert_stubs-Ready exempt doc parent [] st seq st' ready e =
    subst (Ready exempt doc) (some-injective _ _ e) ready
insert_stubs-Ready exempt doc parent (revid ∷ older) st seq st' ready e =
    elim (Option-cases (insert_stubs doc parent older st)) [
      | inl failed ↦ cc (rw (insert_stubs, failed) at e)
      | inr ((seq1, st1), made) ↦
          insert_stub-Ready exempt doc seq1 revid st1 seq st'
            (insert_stubs-Ready exempt doc parent older st seq1 st1 ready made)
            (rw (insert_stubs, made) at e)
    ]

-- A property of the value, if there is one.
pub data Holds {A : Type 0} (P : A → Type 0) : Result A → Type 0 where
  held : {a : A} → P a → Holds P (ok a)
  returned : {status : ℕ} → Holds P (err status)

pub Holds->>= :
    {A B : Type 0} (P : A → Type 0) (Q : B → Type 0) (m : Result A) (k : A → Result B)
    → Holds P m
    → ((a : A) → P a → Holds Q (k a))
    → Holds Q (m >>= k)
Holds->>= P Q (ok a) k (held h) step = step a h
Holds->>= P Q (err status) k returned step = returned

abbrev pub FirstWellFormed : ℕ → ℕ × Store → Type 0
FirstWellFormed exempt (seq, st) = WellFormed exempt st

insert_leaf-WellFormed :
    (exempt : ℕ) (rev : Incoming) (doc : ℕ) (stubs : Option (ℕ × Store))
    → ((seq : ℕ) (st : Store) → stubs ≡ some (seq, st) → Ready exempt doc (seq, st))
    → Holds (FirstWellFormed exempt) (insert_leaf rev doc stubs)
unfolding insert_history
insert_leaf-WellFormed exempt rev doc none ready = returned
insert_leaf-WellFormed exempt rev doc (some (seq, st)) ready = elim (Option-cases rev.json) [
  | inl none_given ↦ rw (insert_leaf, none_given) returned
  | inr (json, given) ↦ elim (Option-cases (insert_revision (leaf_row rev json) doc seq st)) [
    | inl failed ↦ rw (insert_leaf, given, failed) returned
    | inr ((seq1, st1), made) ↦
        let (f, parent_ok) = ready seq st refl in
        rw (insert_leaf, given, made)
          (held
            (insert_revision-WellFormed exempt (leaf_row rev json) doc seq st f parent_ok made).0)
  ]
]

pub insert_history-WellFormed :
    (exempt : ℕ) (rev : Incoming) (doc parent : ℕ) (history : List TreeRevId) (st : Store)
    → Ready exempt doc (parent, st)
    → Holds (FirstWellFormed exempt) (insert_history rev doc parent history st)
unfolding insert_history
insert_history-WellFormed exempt rev doc parent [] st ready = held ready.0
insert_history-WellFormed exempt rev doc parent (_ ∷ older) st ready =
    insert_leaf-WellFormed exempt rev doc (insert_stubs doc parent older st)
      (λ seq st' e. insert_stubs-Ready exempt doc parent older st seq st' ready e)

pub replace_ancestor-WellFormed :
    (ancestor : Option Row) (in_conflict : Bool) (st : Store)
    → WellFormed (sequence_of ancestor) st
    → WellFormed 0 (replace_ancestor ancestor in_conflict st).1
unfolding replace_ancestor
replace_ancestor-WellFormed none in_conflict st f = f
replace_ancestor-WellFormed (some a) in_conflict st f =
    clear_current-IsWellFormed a.sequence st.rows st.last_sequence _ (λ r h e. ground arith) f

pub if-WellFormed :
    (condition : Bool) (rows : List Row) (st : Store)
    → WellFormed 0 st
    → IsWellFormed 0 rows st.last_sequence
    → WellFormed 0 (if condition then record st { rows = rows } else st)
if-WellFormed true rows st f g = g
if-WellFormed false rows st f g = f

pub limit_depth-WellFormed :
    (enumerate : List ℕ → List ℕ) (doc : ℕ) (revid : TreeRevId) (history : List TreeRevId)
    (local : List Row) (st : Store)
    → WellFormed 0 st
    → WellFormed 0 (limit_depth enumerate doc revid history local st)
unfolding limit_depth
limit_depth-WellFormed enumerate doc revid history local st f =
    if-WellFormed _ _ st f
      (prune_document-WellFormed enumerate st.max_rev_tree_depth doc _ st.rows st.last_sequence f)
