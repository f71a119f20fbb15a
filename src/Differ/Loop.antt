-- ===== src/Differ/Loop.antt =====
-- Source/Differ.cc: the positions in the loop of `changes`.
use couchbase_lite_ios.Base.{
  ℕ, suc, ◌+◌, ◌-◌, ◌^◌, ◌≡◌, ◌≤◌, ◌<◌, ◌≢◌, refl, ap, sym, ◌∙◌, Bool, true, arith,
}
use couchbase_lite_ios.Differ.{
  Op, uninitialized, nop, del, sub, ins, mov, op_index, ChangeVector, Cell, uint_max, pred_64,
  succ_64, BaseDiffer, size_of_stripe, get_cell, setup,
}
use couchbase_lite_ios.Differ.Changes.{step}
use couchbase_lite_ios.Differ.Table.{IsTable}
use couchbase_lite_ios.Differ.Compute.{IsOp, IsCell, IsResult, IsState}
use couchbase_lite_ios.Differ.Setup.{setup-IsSetup}

pub pred_64-lem : (n : ℕ) → 0 < n → n < 2 ^ 64 → pred_64 n ≡ n - 1
pred_64-lem n h k = omega arith

pub succ_64-pred_64 : (n : ℕ) → n < 2 ^ 64 → succ_64 (pred_64 n) ≡ n
succ_64-pred_64 n h = omega arith

module _ (items_equal : ℕ → ℕ → Bool) where
  IsCell-moved :
      (d e : BaseDiffer) (x y : ℕ) (c : Cell)
      → d.prefix_len ≡ e.prefix_len
      → IsCell items_equal d x y c
      → IsCell items_equal e x y c
  IsCell-moved d e x y c same h = record {
    op_in = record {
      op_in = h.op_in.op_in;
      nop_equal =
          λ n. ap (λ p. items_equal (p + y - 1) (p + x - 1)) (sym same) ∙ h.op_in.nop_equal n;
    };
    distance_in = h.distance_in;
  }

  -- The state after a call is one to start from, whatever the list of changes.
  pub rebase :
      (d d' : BaseDiffer) (cs : ChangeVector)
      → IsState items_equal d d'
      → IsState items_equal (record d' { changes = cs }) (record d' { changes = cs })
  unfolding get_cell size_of_stripe
  rebase d d' cs s = record {
    old_len_same = refl;
    nuu_len_same = refl;
    prefix_len_same = refl;
    changes_same = refl;
    detects_moves_same = refl;
    table_in =
        λ a b. record { stripes_in = (table a b).stripes_in; sizes_in = (table a b).sizes_in };
    cells_in = λ x y a b.
        IsCell-moved d (record d' { changes = cs }) (suc x) (suc y) (get_cell d' x y)
          (sym s.prefix_len_same)
          (s.cells_in x y (let e = s.nuu_len_same in omega arith)
            (let e = s.old_len_same in omega arith));
  }
    where
      table : 0 < d'.nuu_len → 0 < d'.old_len → IsTable d'
      table = λ (a : 0 < d'.nuu_len) (b : 0 < d'.old_len).
          s.table_in (let e = s.nuu_len_same in omega arith) (let e = s.old_len_same in omega arith)

  -- An operation that can stand at two positions behind a prefix.
  abbrev pub Legal : ℕ → Op → ℕ → ℕ → Type 0
  Legal prefix nop n o = (0 < n) × (0 < o) × (items_equal (prefix + o - 1) (prefix + n - 1) ≡ true)
  Legal prefix del n o = 0 < o
  Legal prefix ins n o = 0 < n
  Legal prefix sub n o = (0 < n) × (0 < o)
  Legal prefix _ n o = ⊥

  pub IsResult-Legal :
      (d : BaseDiffer) (n o : ℕ) (c : Cell)
      → n < 2 ^ 24
      → o < 2 ^ 24
      → 0 < n + o
      → IsResult items_equal d n o uint_max c
      → Legal d.prefix_len c.op n o
  IsResult-Legal d n o c hn ho some_left h =
      legal c.op (λ e. let l = h.stopped e in let b = h.distance_in in ground arith) h.op_in
        (λ a b. ap op_index (h.del_in a b)) (λ a b. ap op_index (h.ins_in a b))
    where
      legal :
          (op : Op)
          → op ≢ uninitialized
          → (0 < n → 0 < o → IsOp items_equal d n o op)
          → (n ≡ 0 → 0 < o → op_index op ≡ 2)
          → (o ≡ 0 → 0 < n → op_index op ≡ 4)
          → Legal d.prefix_len op n o
      legal uninitialized known i del_in ins_in = known refl
      legal nop known i del_in ins_in =
          (ground arith, ground arith, (i (ground arith) (ground arith)).nop_equal refl)
      legal del known i del_in ins_in = ground arith
      legal sub known i del_in ins_in = (ground arith, ground arith)
      legal ins known i del_in ins_in = ground arith
      legal mov known i del_in ins_in =
          let k = λ (a : 0 < n) (b : 0 < o). (i a b).op_in in ground arith

  -- The operation that a step takes is the one of its change.
  pub step-op : (op : Op) (prefix n o : ℕ) → (step items_equal op prefix n o).2.op ≡ op
  step-op nop prefix n o = refl
  step-op del prefix n o = refl
  step-op sub prefix n o = refl
  step-op ins prefix n o = refl
  step-op mov prefix n o = refl
  step-op uninitialized prefix n o = refl

  pub Legal-known : (op : Op) (prefix n o : ℕ) → Legal prefix op n o → op_index op < 5
  Legal-known nop prefix n o h = omega arith
  Legal-known del prefix n o h = omega arith
  Legal-known sub prefix n o h = omega arith
  Legal-known ins prefix n o h = omega arith
  Legal-known mov prefix n o excluded = elim excluded [ ]
  Legal-known uninitialized prefix n o excluded = elim excluded [ ]

  -- A step goes down.
  pub step-less :
      (op : Op) (prefix n o : ℕ)
      → n < 2 ^ 64
      → o < 2 ^ 64
      → Legal prefix op n o
      → let (n', o', ch) = step items_equal op prefix n o in (n' ≤ n) × (o' ≤ o) × (n' + o' < n + o)
  step-less nop prefix n o hn ho (pn, po, same) =
      let e = pred_64-lem n pn hn in
      let f = pred_64-lem o po ho in (omega arith, omega arith, omega arith)
  step-less del prefix n o hn ho po =
      let f = pred_64-lem o po ho in (omega arith, omega arith, omega arith)
  step-less ins prefix n o hn ho pn =
      let e = pred_64-lem n pn hn in (omega arith, omega arith, omega arith)
  step-less sub prefix n o hn ho (pn, po) =
      let e = pred_64-lem n pn hn in
      let f = pred_64-lem o po ho in (omega arith, omega arith, omega arith)
  step-less mov prefix n o hn ho excluded = elim excluded [ ]
  step-less uninitialized prefix n o hn ho excluded = elim excluded [ ]

  -- What the loop finds at each pass: the positions within arrays of less than 2 ^ 24 items.
  pub record IsRunning (d : BaseDiffer) (n o : ℕ) : Type 0 where
    pub is_state : IsState items_equal d d
    pub prefix_in : d.prefix_len < 2 ^ 24
    pub nuu_in : d.nuu_len < 2 ^ 24
    pub old_in : d.old_len < 2 ^ 24
    pub n_in : n ≤ d.nuu_len
    pub o_in : o ≤ d.old_len

  -- One pass, with what the call of `compute` returned: the operation is legal, the positions go
  -- down, and the loop can go on, whatever the list of changes.
  pub pass-IsRunning :
      (d d' : BaseDiffer) (c : Cell) (n o : ℕ) (cs : ChangeVector)
      → 0 < n + o
      → IsRunning d n o
      → IsState items_equal d d'
      → IsResult items_equal d n o uint_max c
      → let (n', o', ch) = step items_equal c.op d.prefix_len n o in
        Legal d.prefix_len c.op n o
        × IsRunning (record d' { changes = cs }) n' o'
        × (n' + o' < n + o)
  pass-IsRunning d d' c n o cs some_left h s r =
      let a = h.nuu_in in
      let b = h.old_in in
      let p = h.prefix_in in
      let i = h.n_in in
      let j = h.o_in in
      let e = s.nuu_len_same in
      let f = s.old_len_same in
      let g = s.prefix_len_same in
      let legal = IsResult-Legal d n o c (omega arith) (omega arith) some_left r in
      let (n_less, o_less, less) =
        step-less c.op d.prefix_len n o (omega arith) (omega arith) legal in
      (
        legal,
        record {
          is_state = rebase d d' cs s;
          prefix_in = omega arith;
          nuu_in = omega arith;
          old_in = omega arith;
          n_in = omega arith;
          o_in = omega arith;
        },
        less,
      )

  pub setup-IsRunning :
      (old_len new_len : ℕ) (d : BaseDiffer) (cs : ChangeVector)
      → old_len < 2 ^ 24
      → new_len < 2 ^ 24
      → let e = record (setup items_equal old_len new_len d) { changes = cs } in
        IsRunning e e.nuu_len e.old_len
  setup-IsRunning old_len new_len d cs old_in new_in =
      let (suffix, is_setup) = setup-IsSetup items_equal old_len new_len d in
      let a = is_setup.old_len_in in
      let b = is_setup.nuu_len_in in
      record {
        is_state = rebase _ _ cs is_setup.is_state;
        prefix_in = omega arith;
        nuu_in = omega arith;
        old_in = omega arith;
        n_in = omega arith;
        o_in = omega arith;
      }
