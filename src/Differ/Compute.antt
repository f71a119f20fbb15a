-- ===== src/Differ/Compute.antt =====
-- Source/Differ.cc: what `compute` returns and leaves in the table.
use couchbase_lite_ios.Base.{
  ℕ, zero, suc, ◌+◌, ◌-◌, ◌^◌, ◌≡◌, ◌≤◌, ◌<◌, ◌⊎◌, inl, inr, refl, ap, sym, ◌∙◌, min, Bool, true,
  false, not, ◌||◌, ◌&&◌, ltb, ◌==◌, if◌then◌else◌, arith,
}
use mathlib.Core.Path.{subst}
use couchbase_lite_ios.Differ.{
  Op, uninitialized, nop, del, ins, op_index, ◌is◌, Cell, cell, BaseDiffer, pred_32, abs_diff,
  size_of_stripe, get_cell, set_cell, least, unless_stopped, then_with, compute,
}
use couchbase_lite_ios.Differ.Table.{IsTable, InTable, get_cell-set_cell, set_cell-IsTable}
use couchbase_lite_ios.Differ.Steps.{
  Between, if-lem, pick-lem, then_with-lem, IsEdit, Steps, least-Between,
}

module _ (items_equal : ℕ → ℕ → Bool) (d0 : BaseDiffer) where
  -- What an operation says of the items before x and y.
  pub record IsOp (x y : ℕ) (op : Op) : Type 0 where
    pub op_in : op_index op ≤ 4
    pub nop_equal : op ≡ nop → items_equal (d0.prefix_len + y - 1) (d0.prefix_len + x - 1) ≡ true

  -- A cell of the table.
  pub record IsCell (x y : ℕ) (c : Cell) : Type 0 where
    pub op_in : IsOp x y c.op
    pub distance_in : ((c.op ≡ uninitialized) × (c.distance ≡ 0)) ⊎ Between x y c.distance

  -- A result under a limit.
  pub record IsResult (x y limit : ℕ) (c : Cell) : Type 0 where
    pub op_in : 0 < x → 0 < y → IsOp x y c.op
    pub distance_in : Between x y c.distance
    pub stopped : c.op ≡ uninitialized → limit < c.distance
    pub del_in : x ≡ 0 → 0 < y → c.op ≡ del
    pub ins_in : y ≡ 0 → 0 < x → c.op ≡ ins

  -- The object during the calls of `compute`: only the table and the counter change.
  pub record IsState (d : BaseDiffer) : Type 0 where
    pub old_len_same : d.old_len ≡ d0.old_len
    pub nuu_len_same : d.nuu_len ≡ d0.nuu_len
    pub prefix_len_same : d.prefix_len ≡ d0.prefix_len
    pub changes_same : d.changes ≡ d0.changes
    pub detects_moves_same : d.detects_moves ≡ d0.detects_moves
    pub table_in : 0 < d0.nuu_len → 0 < d0.old_len → IsTable d
    pub cells_in :
        (x y : ℕ) → x < d0.nuu_len → y < d0.old_len → IsCell (suc x) (suc y) (get_cell d x y)

  set_cell-IsState :
      (d : BaseDiffer) (x y : ℕ) (c : Cell)
      → IsState d
      → x < d0.nuu_len
      → y < d0.old_len
      → IsCell (suc x) (suc y) c
      → IsState (set_cell d x y c).0
  unfolding set_cell
  set_cell-IsState d x y c s hx hy hc = record {
    old_len_same = s.old_len_same;
    nuu_len_same = s.nuu_len_same;
    prefix_len_same = s.prefix_len_same;
    changes_same = s.changes_same;
    detects_moves_same = s.detects_moves_same;
    table_in = λ _ _. set_cell-IsTable d x y c table (inside x y hx hy);
    cells_in = λ x' y' hx' hy'.
        subst (IsCell (suc x') (suc y'))
          (sym (get_cell-set_cell d x y x' y' c table (inside x y hx hy) (inside x' y' hx' hy')))
          (pick-lem (IsCell (suc x') (suc y')) ((x == x') && (y == y')) c (get_cell d x' y')
            (λ hit.
              subst (λ i. IsCell (suc i) (suc y') c) (same_x x' y' hit)
                (subst (λ j. IsCell (suc x) (suc j) c) (same_y x' y' hit) hc))
            (λ _. s.cells_in x' y' hx' hy'));
  }
    where
      table : IsTable d
      table = s.table_in (omega arith) (omega arith)

      inside : (x y : ℕ) → x < d0.nuu_len → y < d0.old_len → InTable d x y
      inside x y hx hy = record {
        x_in = let e = s.nuu_len_same in omega arith;
        y_in = let e = s.old_len_same in omega arith;
      }

      same_x : (x' y' : ℕ) → ((x == x') && (y == y')) ≡ true → x ≡ x'
      same_x x' y' h = ground arith

      same_y : (x' y' : ℕ) → ((x == x') && (y == y')) ≡ true → y ≡ y'
      same_y x' y' h = ground arith

  abbrev Returns : ℕ → ℕ → ℕ → BaseDiffer × Cell → Type 0
  Returns x y limit (d, c) = IsState d × IsResult x y limit c

  IsResult-cell :
      (x y limit n : ℕ) (op : Op)
      → Between (suc x) (suc y) n
      → n < 2 ^ 24
      → IsOp (suc x) (suc y) op
      → (op ≡ uninitialized → limit < n)
      → IsResult (suc x) (suc y) limit (cell n op)
  IsResult-cell x y limit n op b h i stop = record {
    op_in = λ _ _. i;
    distance_in = omega arith;
    stopped = λ e. let l = stop e in omega arith;
    del_in = λ e. ground arith;
    ins_in = λ e. ground arith;
  }

  set_cell-Returns :
      (d : BaseDiffer) (x y limit n : ℕ) (op : Op)
      → d0.nuu_len < 2 ^ 24
      → d0.old_len < 2 ^ 24
      → IsState d
      → x < d0.nuu_len
      → y < d0.old_len
      → Between (suc x) (suc y) n
      → IsOp (suc x) (suc y) op
      → (op ≡ uninitialized → limit < n)
      → Returns (suc x) (suc y) limit (set_cell d x y (cell n op))
  unfolding set_cell
  set_cell-Returns d x y limit n op hn ho s hx hy b i stop = (
    set_cell-IsState d x y (cell n op) s hx hy
        (record { op_in = i; distance_in = inr (omega arith) }),
    IsResult-cell x y limit n op b (omega arith) i stop,
  )

  IsOp-edit : (x y : ℕ) (op : Op) → IsEdit op → IsOp x y op
  IsOp-edit x y op h = record {
    op_in = h.1;
    nop_equal = λ e. let i = ap op_index e in ground arith;
  }

  set_cell-least :
      (d : BaseDiffer) (x y limit : ℕ) (c result : Cell)
      → d0.nuu_len < 2 ^ 24
      → d0.old_len < 2 ^ 24
      → IsState d
      → x < d0.nuu_len
      → y < d0.old_len
      → ltb limit c.distance ≡ false
      → Steps (Between (suc x) (suc y)) result
      → Returns (suc x) (suc y) limit (set_cell d x y (unless_stopped c limit result))
  set_cell-least d x y limit c result hn ho s hx hy known (n, op, e, b, edit) =
      subst (λ r. Returns (suc x) (suc y) limit (set_cell d x y r))
        (sym (ap (λ b. if b then record result { op = uninitialized } else result) known ∙ e))
        (set_cell-Returns d x y limit n op hn ho s hx hy b (IsOp-edit (suc x) (suc y) op edit)
          (λ u. let i = ap op_index u in ground arith))

  count-IsState : (d : BaseDiffer) (n : ℕ) → IsState d → IsState (record d { comparisons = n })
  unfolding get_cell size_of_stripe
  count-IsState d n s = record {
    old_len_same = s.old_len_same;
    nuu_len_same = s.nuu_len_same;
    prefix_len_same = s.prefix_len_same;
    changes_same = s.changes_same;
    detects_moves_same = s.detects_moves_same;
    table_in = λ h h'. record {
      stripes_in = (s.table_in h h').stripes_in;
      sizes_in = (s.table_in h h').sizes_in;
    };
    cells_in = s.cells_in;
  }

  IsResult-known :
      (x y limit : ℕ) (c : Cell)
      → IsCell x y c
      → 0 < x
      → 0 < y
      → (not (c.op is uninitialized) || ltb limit c.distance) ≡ true
      → IsResult x y limit c
  IsResult-known x y limit c h px py known = record {
    op_in = λ _ _. h.op_in;
    distance_in = elim h.distance_in [
      | inl (unset, zero_there) ↦ let i = ap op_index unset in ground arith
      | inr b ↦ b
    ];
    stopped = λ e. let i = ap op_index e in ground arith;
    del_in = λ e. ground arith;
    ins_in = λ e. ground arith;
  }

  pub IsOp-uninitialized : (x y : ℕ) → IsOp x y uninitialized
  IsOp-uninitialized x y = record { op_in = omega arith; nop_equal = λ e. cc }

  IsOp-nop :
      (d : BaseDiffer) (x y : ℕ)
      → IsState d
      → items_equal (d.prefix_len + y) (d.prefix_len + x) ≡ true
      → IsOp (suc x) (suc y) nop
  IsOp-nop d x y s same = record {
    op_in = omega arith;
    nop_equal = λ _.
        ap (λ i. items_equal i (d0.prefix_len + suc x - 1)) (before y)
        ∙ ap (items_equal (d.prefix_len + y)) (before x)
        ∙ same;
  }
    where
      before : (i : ℕ) → d0.prefix_len + suc i - 1 ≡ d.prefix_len + i
      before i = let e = s.prefix_len_same in omega arith

  nop-Between : (x y n : ℕ) → Between x y n → Between (suc x) (suc y) n
  nop-Between x y n h = omega arith

  not_stopped :
      (c : Cell) (limit : ℕ)
      → (not (c.op is uninitialized) || ltb limit c.distance) ≡ false
      → ltb limit c.distance ≡ false
  not_stopped c limit h = ground arith

  less : {m n : ℕ} → suc m ≤ n → m ≤ n
  less h = omega arith

  not_zero : (n : ℕ) → false ≡ (suc n == 0)
  not_zero n = ground arith

  -- From a table whose cells are right, `compute` returns, within the lengths, a number of steps
  -- between the difference of the two positions and the greater one; an operation that
  -- is not known only for more steps than the limit, and `nop` only where the items are equal; and
  -- leaves the table right and all but the table and the counter as it was.
  pub compute-Returns :
      (d : BaseDiffer) (x y limit : ℕ)
      → d0.nuu_len < 2 ^ 24
      → d0.old_len < 2 ^ 24
      → IsState d
      → x ≤ d0.nuu_len
      → y ≤ d0.old_len
      → Returns x y limit (compute items_equal d x y limit)
  unfolding compute
  compute-Returns d zero zero limit hn ho s hx hy = (
    s,
    record {
      op_in = λ h _. ground arith;
      distance_in = omega arith;
      stopped = λ e. cc;
      del_in = λ _ h. ground arith;
      ins_in = λ _ h. ground arith;
    },
  )
  compute-Returns d (suc x) zero limit hn ho s hx hy =
      subst (λ op. Returns (suc x) 0 limit (d, cell (suc x) op))
        (ap (λ b. if b then nop else ins) (not_zero x))
        (
          s,
          record {
            op_in = λ _ h. ground arith;
            distance_in = omega arith;
            stopped = λ e. cc;
            del_in = λ e. ground arith;
            ins_in = λ _ _. refl;
          },
        )
  compute-Returns d zero (suc y) limit hn ho s hx hy = (
    s,
    record {
      op_in = λ h _. ground arith;
      distance_in = omega arith;
      stopped = λ e. cc;
      del_in = λ _ _. refl;
      ins_in = λ e. ground arith;
    },
  )
  compute-Returns d (suc x) (suc y) limit hn ho s hx hy =
      let c = get_cell d x y in
      let P = Returns (suc x) (suc y) limit in
      let fd = abs_diff (suc x) (suc y) in
      let d1 = record d { comparisons = suc d.comparisons } in
      let s1 = count-IsState d (suc d.comparisons) s in
      let maxd = pred_32 limit in
      let after_up = λ (upleft left : Cell) (d4 : BaseDiffer) (up : Cell).
        set_cell d4 x y (unless_stopped c limit (least upleft left up)) in
      let after_left = λ (upleft : Cell) (d3 : BaseDiffer) (left : Cell).
        then_with
          (compute items_equal d3 (suc x) y
            (min (min maxd upleft.distance) (pred_32 left.distance)))
          (after_up upleft left) in
      let after_upleft = λ (d2 : BaseDiffer) (upleft : Cell).
        then_with (compute items_equal d2 x (suc y) (min maxd upleft.distance))
          (after_left upleft) in
      let hx' = less hx in
      let hy' = less hy in
      if-lem P (not (c.op is uninitialized) || ltb limit c.distance) _ _
        (λ known. (
          s,
          IsResult-known (suc x) (suc y) limit c (s.cells_in x y hx hy) (omega arith) (omega arith)
              known,
        ))
        (λ unknown.
          if-lem P (ltb limit fd) _ _
            (λ far. (
              s,
              IsResult-cell x y limit fd uninitialized (omega arith) (omega arith)
                  (IsOp-uninitialized (suc x) (suc y)) (λ _. ground arith),
            ))
            (λ near.
              if-lem P (items_equal (d.prefix_len + y) (d.prefix_len + x)) _ _
                (λ same.
                  then_with-lem (Returns x y limit) P _ _
                    (compute-Returns d1 x y limit hn ho s1 hx' hy')
                    (λ d2 r (s2, h).
                      set_cell-Returns d2 x y limit r.distance nop hn ho s2 hx hy
                        (nop-Between x y r.distance h.distance_in) (IsOp-nop d x y s same)
                        (λ e. cc)))
                (λ differ.
                  if-lem P (ltb limit (fd + 1)) _ _
                    (λ far.
                      set_cell-Returns d1 x y limit (fd + 1) uninitialized hn ho s1 hx hy
                        (omega arith) (IsOp-uninitialized (suc x) (suc y)) (λ _. ground arith))
                    (λ go.
                      then_with-lem (Returns x y maxd) P (compute items_equal d1 x y maxd)
                        after_upleft (compute-Returns d1 x y maxd hn ho s1 hx' hy')
                        (λ d2 upleft (s2, h2).
                          let maxd' = min maxd upleft.distance in
                          then_with-lem (Returns x (suc y) maxd') P
                            (compute items_equal d2 x (suc y) maxd') (after_left upleft)
                            (compute-Returns d2 x (suc y) maxd' hn ho s2 hx' hy)
                            (λ d3 left (s3, h3).
                              let maxd'' = min maxd' (pred_32 left.distance) in
                              then_with-lem (Returns (suc x) y maxd'') P
                                (compute items_equal d3 (suc x) y maxd'') (after_up upleft left)
                                (compute-Returns d3 (suc x) y maxd'' hn ho s3 hx hy')
                                (λ d4 up (s4, h4).
                                  set_cell-least d4 x y limit c (least upleft left up) hn ho s4 hx
                                    hy (not_stopped c limit unknown)
                                    (least-Between x y upleft left up h2.distance_in h3.distance_in
                                      h4.distance_in))))))))
