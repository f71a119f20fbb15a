-- ===== src/Storage/Pruning.antt =====
-- Source/CBL_SQLiteStorage.m, `pruneDocument:numericID:generationsBelow:`: what it keeps and what it
-- deletes.
use couchbase_lite_ios.Base.{
  ℕ, zero, suc, ◌+◌, ◌^◌, ◌≤◌, ◌<◌, ◌≡◌, ◌≢◌, refl, sym, ◌⊎◌, ◌↔◌, inl, inr, Bool, true, false, not,
  ◌&&◌, Option, none, some, List, [], ◌∷◌, map, ltb, leb, ◌==◌, if◌then◌else◌, length, arith,
  Bool-cases, ==_iff, Option-cases, Ordering,
}
use couchbase_lite_ios.Base.Bytes.{Bytes, lex}
use couchbase_lite_ios.RevId.{format_int, generation}
use couchbase_lite_ios.RevId.Digits.{append_decimal-IsDecimal, append_decimal_total}
use couchbase_lite_ios.RevId.Collate.{IsProper, collate-proper}
use couchbase_lite_ios.RevId.Order.{generation-proper}
use couchbase_lite_ios.Storage.Table.{
  Row, is_doc, revid_lt, where_rows, delete_where, forget_parent, member,
}
use couchbase_lite_ios.Storage.Queries.{leaves_of}
use couchbase_lite_ios.Storage.Prune.{
  Link, find_link, remove_link, unlink_ancestors, unlink_leaves, purge_sequences, tree_links,
  min_revid, prune_trunk, prune_branches, prune_document,
}
use couchbase_lite_ios.Storage.Rows.{
  In, In-where_rows, In-map, map-In, In-delete_where, delete_where-In,
}
use couchbase_lite_ios.Storage.Winning.{HasProperId, AllProper}

min_revid-IsProper : (n : ℕ) → 0 < n → n < 10 ^ 8 → IsProper (min_revid n) n []
unfolding format_int
min_revid-IsProper n h lt =
    let (number, printed, short) = append_decimal_total 7 n lt (omega arith) in
    let d = append_decimal-IsDecimal n printed in
    record {
      number = number;
      digits = d.digits;
      short = short;
      value_is = d.value_is;
      gen_pos = h;
      shape = rw printed;
    }

lex-nil : (rest : Bytes) → lex rest [] ≢ Ordering.lt
lex-nil [] h = cc
lex-nil (x ∷ xs) h = cc

-- The test `revid < "n-"` is one of the generation.
revid_lt-generation :
    (r : Row) (n : ℕ)
    → HasProperId r
    → 0 < n
    → n < 10 ^ 8
    → revid_lt r.revid (min_revid n) ≡ ltb (generation r.revid) n
unfolding revid_lt
revid_lt-generation r n p h lt = ground (
  arith,
  collate-proper p.proper (min_revid-IsProper n h lt),
  generation-proper p.proper,
  lex-nil p.rest,
)

-- Two rows that differ in the column `parent` at most.
pub record SameRow (r s : Row) : Type 0 where
  pub sequence_is : r.sequence ≡ s.sequence
  pub doc_is : r.doc_id ≡ s.doc_id
  pub revid_is : r.revid ≡ s.revid
  pub current_is : r.current ≡ s.current
  pub deleted_is : r.deleted ≡ s.deleted
  pub json_is : r.json ≡ s.json

pub forget_parent-SameRow : (gone : List ℕ) (r : Row) → SameRow (forget_parent gone r) r
unfolding forget_parent
forget_parent-SameRow gone r = ground arith

pub In-delete :
    (test : Row → Bool) (rows : List Row) (y : Row)
    → In y (delete_where test rows)
    → (x : Row) × In x rows × SameRow y x
In-delete test rows y h =
    let (x, place, _, e) = In-delete_where test y rows h in
    (x, place, rw e (forget_parent-SameRow _ x))

-- Which revisions `prune_trunk` keeps.
abbrev pub Survives : ℕ → ℕ → Row → Type 0
Survives doc min_gen r =
    (is_doc doc r ≡ false) ⊎ ((r.current ≡ true) ⊎ (min_gen ≤ generation r.revid))

module _ (doc min_gen : ℕ) (rows : List Row) (proper : AllProper doc rows) (pos_gen : 0 < min_gen)
    (gen_lt : min_gen < 10 ^ 8) where
  abbrev test : Row → Bool
  test r = is_doc doc r && revid_lt r.revid (min_revid min_gen) && not r.current

  test-Survives : (x : Row) → In x rows → (test x ≡ false) ↔ Survives doc min_gen x
  test-Survives x h = (
    (λ e. ground (
      arith,
      λ (d : is_doc doc x ≡ true). revid_lt-generation x min_gen (proper x h d) pos_gen gen_lt,
    )),
    (λ s. ground (
      arith,
      λ (d : is_doc doc x ≡ true). revid_lt-generation x min_gen (proper x h d) pos_gen gen_lt,
    )),
  )

  kept :
      (y : Row)
      → In y (prune_trunk doc min_gen rows)
      → (x : Row) × In x rows × SameRow y x × Survives doc min_gen x
  unfolding prune_trunk
  kept y h =
      let (x, place, stays, e) = In-delete_where test y rows h in
      (x, place, rw e (forget_parent-SameRow _ x), (test-Survives x place).0 stays)

  keeps :
      (x : Row)
      → In x rows
      → Survives doc min_gen x
      → (y : Row) × In y (prune_trunk doc min_gen rows) × SameRow y x
  unfolding prune_trunk
  keeps x h s =
      (_, delete_where-In test x rows h ((test-Survives x h).1 s), forget_parent-SameRow _ x)

  -- If every revision of the document has a proper ID and the generation is one of at most eight
  -- digits, the one statement that prunes a document without branches leaves the rows of other
  -- documents, the current revisions and the revisions of that generation or a later one, these
  -- rows only, and changes nothing of them but the link to a parent that it deletes.
  pub prune_trunk-Survives :
      ((y : Row)
        → In y (prune_trunk doc min_gen rows)
        → (x : Row) × In x rows × SameRow y x × Survives doc min_gen x)
      × ((x : Row)
          → In x rows
          → Survives doc min_gen x
          → (y : Row) × In y (prune_trunk doc min_gen rows) × SameRow y x)
  prune_trunk-Survives = (kept, keeps)

-- A row's sequence is no key of the dictionary.
abbrev Unlinked : ℕ → List Link → Type 0
Unlinked seq revs = (l : Link) → In l revs → l.seq ≢ seq

In-remove_link :
    (seq : ℕ) (revs : List Link) (l : Link)
    → In l (remove_link seq revs)
    → In l revs × (l.seq ≢ seq)
unfolding remove_link
In-remove_link seq [] l h = absurd h
In-remove_link seq (m ∷ ms) l h = elim (Bool-cases (m.seq == seq)) [
  | inl gone ↦ let (place, ne) = In-remove_link seq ms l (rw gone at h) in (inr place, ne)
  | inr stays ↦ elim (rw stays at h) [
    | inl e ↦ (inl e, rw e (ground arith))
    | inr later ↦ let (place, ne) = In-remove_link seq ms l later in (inr place, ne)
  ]
]

unlink_ancestors-cases :
    (left seq : ℕ) (revs : List Link)
    → (unlink_ancestors (suc left) seq revs ≡ remove_link seq revs)
      ⊎ ((parent : ℕ) × (unlink_ancestors (suc left) seq revs
            ≡ unlink_ancestors left parent (remove_link seq revs)))
unfolding unlink_ancestors
unlink_ancestors-cases left seq revs = elim (Option-cases (find_link seq revs)) [
  | inl e ↦ inl (rw (e, unlink_ancestors))
  | inr (parent, e) ↦ elim (Bool-cases (parent == 0)) [
    | inl root ↦ inl (rw (e, unlink_ancestors, root))
    | inr more ↦ inr (parent, rw (e, unlink_ancestors, more))
  ]
]

-- The walk only removes entries, and removes that of the leaf where it starts.
In-unlink_ancestors :
    (left seq : ℕ) (revs : List Link) (l : Link) → In l (unlink_ancestors left seq revs) → In l revs
In-unlink_ancestors zero seq revs l h = unfold unlink_ancestors in h
In-unlink_ancestors (suc left) seq revs l h = elim (unlink_ancestors-cases left seq revs) [
  | inl e ↦ (In-remove_link seq revs l (rw e at h)).0
  | inr (parent, e) ↦
      (In-remove_link seq revs l
        (In-unlink_ancestors left parent (remove_link seq revs) l (rw e at h))).0
]

unlink_ancestors_start :
    (left seq : ℕ) (revs : List Link) → Unlinked seq (unlink_ancestors (suc left) seq revs)
unlink_ancestors_start left seq revs l h = elim (unlink_ancestors-cases left seq revs) [
  | inl e ↦ (In-remove_link seq revs l (rw e at h)).1
  | inr (parent, e) ↦
      (In-remove_link seq revs l
        (In-unlink_ancestors left parent (remove_link seq revs) l (rw e at h))).1
]

In-unlink_leaves :
    (depth : ℕ) (leaves : List ℕ) (revs : List Link) (l : Link)
    → In l (unlink_leaves depth leaves revs)
    → In l revs
unfolding unlink_leaves
In-unlink_leaves depth [] revs l h = h
In-unlink_leaves depth (leaf ∷ leaves) revs l h =
    In-unlink_ancestors depth leaf revs l
      (In-unlink_leaves depth leaves (unlink_ancestors depth leaf revs) l h)

unlink_leaves_start :
    (depth : ℕ) (leaves : List ℕ) (revs : List Link) (leaf : ℕ)
    → In leaf leaves
    → Unlinked leaf (unlink_leaves (suc depth) leaves revs)
unfolding unlink_leaves
unlink_leaves_start depth [] revs leaf h l place = absurd h
unlink_leaves_start depth (x ∷ xs) revs leaf (inl e) l place = rw e (
    unlink_ancestors_start depth x revs l
      (In-unlink_leaves (suc depth) xs (unlink_ancestors (suc depth) x revs) l place))
unlink_leaves_start depth (x ∷ xs) revs leaf (inr h) l place =
    unlink_leaves_start depth xs (unlink_ancestors (suc depth) x revs) leaf h l place

pub member-In : (n : ℕ) (xs : List ℕ) → member n xs ≡ true → In n xs
unfolding member
member-In n [] h = cc
member-In n (x ∷ xs) h = elim (Bool-cases (n == x)) [
  | inl e ↦ inl ((==_iff n x).0 e)
  | inr ne ↦ inr (member-In n xs (rw ne at h))
]

member-false :
    (seq : ℕ) (revs : List Link)
    → Unlinked seq revs
    → member seq (map (λ (l : Link). l.seq) revs) ≡ false
member-false seq revs un = elim (Bool-cases (member seq (map (λ (l : Link). l.seq) revs))) [
  | inl m ↦
      let (l, place, e) = In-map (λ (l : Link). l.seq) seq revs (member-In seq _ m) in
      absurd (un l place (sym e))
  | inr m ↦ m
]

-- `enumerate` gives each member of the set.
pub record Enumerates (enumerate : List ℕ → List ℕ) : Type 0 where
  pub complete : (n : ℕ) (xs : List ℕ) → In n xs → In n (enumerate xs)

module _ (depth doc min_gen : ℕ) {enumerate : List ℕ → List ℕ} (e : Enumerates enumerate)
    (rows : List Row) where
  abbrev leaf_sequences : List ℕ
  leaf_sequences = map (λ (r : Row). r.sequence) (leaves_of doc rows)

  leaf-kept_branches :
      (x : Row)
      → In x (leaves_of doc rows)
      → (y : Row) × In y (prune_branches (suc depth) doc (enumerate leaf_sequences) rows)
        × SameRow y x
  unfolding prune_branches purge_sequences
  leaf-kept_branches x h =
      let revs = unlink_leaves (suc depth) (enumerate leaf_sequences) (tree_links doc rows) in
      let listed =
        e.complete x.sequence leaf_sequences
          (map-In (λ (r : Row). r.sequence) x (leaves_of doc rows) h) in
      let kept = member-false x.sequence revs (
        unlink_leaves_start depth (enumerate leaf_sequences) (tree_links doc rows) x.sequence
          listed) in
      (
        _,
        delete_where-In (λ r. member r.sequence (map (λ (l : Link). l.seq) revs)) x rows
            (In-where_rows _ x rows h).0 kept,
        forget_parent-SameRow _ x,
      )

  leaf-kept_trunk :
      (x : Row)
      → In x (leaves_of doc rows)
      → (y : Row) × In y (prune_trunk doc min_gen rows) × SameRow y x
  unfolding prune_trunk
  leaf-kept_trunk x h =
      let (place, leaf) = In-where_rows (λ r. is_doc doc r && r.current) x rows h in
      (_, delete_where-In _ x rows place (ground arith), forget_parent-SameRow _ x)

  -- Pruning to a depth of at least 1 deletes no current revision of the document.
  pub leaf-prune_document :
      (x : Row)
      → In x (leaves_of doc rows)
      → (y : Row) × In y (prune_document enumerate (suc depth) doc min_gen rows) × SameRow y x
  unfolding prune_document
  leaf-prune_document x h = elim (Bool-cases (leb (length leaf_sequences) 1)) [
    | inl trunk ↦ rw trunk (leaf-kept_trunk x h)
    | inr branches ↦ rw branches (leaf-kept_branches x h)
  ]

  -- Pruning adds no revision, and changes nothing of one that it keeps but the link to a parent
  -- that it deletes.
  pub In-prune_document :
      (y : Row)
      → In y (prune_document enumerate depth doc min_gen rows)
      → (x : Row) × In x rows × SameRow y x
  unfolding prune_document prune_trunk prune_branches purge_sequences
  In-prune_document y h = elim (Bool-cases (leb (length leaf_sequences) 1)) [
    | inl trunk ↦ In-delete _ rows y (rw trunk at h)
    | inr branches ↦ In-delete _ rows y (rw branches at h)
  ]

-- The ancestor `k` steps up.
abbrev pub ancestor : ℕ → ℕ → List Link → Option ℕ
ancestor zero seq links = some seq
ancestor (suc k) seq links = elim (find_link seq links) [
  | none ↦ none
  | some parent ↦ if parent == 0 then none else ancestor k parent links
]

abbrev plain : ℕ → ℕ → Option ℕ → Bool → Row
plain seq gen parent current = record {
  sequence = seq;
  doc_id = 1;
  revid = (b'0' + gen) ∷ b'-' ∷ (b'a' + seq) ∷ [];
  parent = parent;
  current = current;
  deleted = false;
  json = none;
  no_attachments = true;
  doc_type = none;
}

-- Revision 3 has the children 4, with the leaf 5 below it, and 6.
abbrev pub forked : List Row
forked =
    plain 1 1 none false
    ∷ plain 2 2 (some 1) false
    ∷ plain 3 3 (some 2) false
    ∷ plain 4 4 (some 3) false
    ∷ plain 5 5 (some 4) true
    ∷ plain 6 4 (some 3) true
    ∷ []

-- "Keep the ancestors of all the leaves, down to _maxRevTreeDepth" is not what happens: there is a
-- tree in which an ancestor within that depth of a leaf is deleted.
pub not-prune_branches_keeps : ¬ (
    (depth doc : ℕ) (leaves : List ℕ) (rows : List Row) (leaf k a : ℕ)
    → In leaf leaves
    → k < depth
    → ancestor k leaf (tree_links doc rows) ≡ some a
    → (y : Row) × In y (prune_branches depth doc leaves rows) × (y.sequence ≡ a))
unfolding prune_branches where_rows unlink_leaves unlink_ancestors find_link remove_link
    purge_sequences delete_where forget_parent member
not-prune_branches_keeps all =
    let (y, place, e) = all 3 1 (5 ∷ 6 ∷ []) forked 6 2 2 (inr (inl refl)) (omega arith) refl in
    ground arith
