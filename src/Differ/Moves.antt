-- ===== src/Differ/Moves.antt =====
-- Source/Differ.cc: `changes` with or without the detection of moves: it returns, and each of its
-- moves is between equal items.
use couchbase_lite_ios.Base.{
  ℕ, zero, suc, ◌+◌, ◌^◌, ◌≡◌, ◌≤◌, ◌<◌, refl, ap, sym, Bool, true, false, ◌||◌, ◌&&◌, Option, none,
  some, [], ◌∷◌, ◌++◌, ◌==◌, if◌then◌else◌, length, All, arith,
}
use couchbase_lite_ios.Differ.{
  Op, uninitialized, nop, del, sub, ins, mov, op_index, ◌is◌, Change, change, ChangeVector,
  uint_max, succ_64, BaseDiffer, compute, setup,
}
use couchbase_lite_ios.Differ.Changes.{
  behind, take_source, take_destination, add_deletion, add_arrival, step, add_change, record_change,
  changes_loop, all_changes,
}
use couchbase_lite_ios.Differ.Compute.{compute-Returns}
use couchbase_lite_ios.Differ.Steps.{if-lem, pick-lem}
use couchbase_lite_ios.Differ.Loop.{
  step-op, Legal-known, IsRunning, pass-IsRunning, setup-IsRunning,
}
use mathlib.Core.List.{reverse, reverse-cons}
use mathlib.Core.Option
use mathlib.Core.Path.{subst}

-- The changes that a deletion can still make into moves.
abbrev is_arrival : Op → Bool
is_arrival op = (op is ins) || (op is sub)

abbrev arrivals : ChangeVector → ℕ
arrivals [] = 0
arrivals (ch ∷ rest) = if is_arrival ch.op then suc (arrivals rest) else arrivals rest

arrivals-length : (cs : ChangeVector) → arrivals cs ≤ length cs
arrivals-length [] = omega arith
arrivals-length (ch ∷ rest) = let h = arrivals-length rest in ground arith

module _ (items_equal : ℕ → ℕ → Bool) where
  -- A move is between equal items.
  abbrev pub IsMoved : Change → Type 0
  IsMoved ch = ch.op ≡ mov → items_equal ch.old_pos ch.new_pos ≡ true

  IsMoved-other : (ch : Change) → op_index ch.op < 5 → IsMoved ch
  IsMoved-other ch h e = let i = ap op_index e in ground arith

  All-append :
      (cs : ChangeVector) (ch : Change)
      → All IsMoved cs
      → IsMoved ch
      → All IsMoved (cs ++ (ch ∷ []))
  All-append [] ch h k = (k, tt)
  All-append (c ∷ cs) ch (h, hs) k = (h, All-append cs ch hs k)

  All-reverse : (cs : ChangeVector) → All IsMoved cs → All IsMoved (reverse cs)
  All-reverse [] h = tt
  All-reverse (c ∷ cs) (h, hs) =
      subst (All IsMoved) (sym (reverse-cons c cs))
        (All-append (reverse cs) c (All-reverse cs hs) h)

  -- A found destination becomes a move: one arrival less.
  abbrev Moves : ChangeVector → Option (Change × ChangeVector) → Type 0
  Moves cs none = Unit
  Moves cs (some (dst, changed)) = (arrivals cs ≡ suc (arrivals changed)) × All IsMoved changed

  Moves-behind :
      (ch : Change) (cs : ChangeVector) (found : Option (Change × ChangeVector))
      → IsMoved ch
      → Moves cs found
      → Moves (ch ∷ cs) (behind ch found)
  Moves-behind ch cs none h m = tt
  Moves-behind ch cs (some (dst, changed)) h (less, moved) = (ground arith, (h, moved))

  take_destination-Moves :
      (old_pos : ℕ) (cs : ChangeVector)
      → All IsMoved cs
      → Moves cs (take_destination items_equal old_pos cs)
  unfolding take_destination
  take_destination-Moves old_pos [] h = tt
  take_destination-Moves old_pos (dst ∷ rest) (h, hs) =
      pick-lem (Moves (dst ∷ rest)) (is_arrival dst.op && items_equal old_pos dst.new_pos) _ _
        (λ found. (ground arith, ((λ _. ground arith), hs)))
        (λ _. Moves-behind dst rest _ h (take_destination-Moves old_pos rest hs))

  -- A found source leaves the list with equal items moved.
  abbrev Leaves : ℕ → Option (ℕ × ChangeVector) → Type 0
  Leaves new_pos none = Unit
  Leaves new_pos (some (source, changed)) =
      (items_equal source new_pos ≡ true) × All IsMoved changed

  Leaves-behind :
      (ch : Change) (new_pos : ℕ) (found : Option (ℕ × ChangeVector))
      → IsMoved ch
      → Leaves new_pos found
      → Leaves new_pos (behind ch found)
  Leaves-behind ch new_pos none h m = tt
  Leaves-behind ch new_pos (some (source, changed)) h (same, moved) = (same, (h, moved))

  take_source-Leaves :
      (new_pos : ℕ) (cs : ChangeVector)
      → All IsMoved cs
      → Leaves new_pos (take_source items_equal new_pos cs)
  unfolding take_source
  take_source-Leaves new_pos [] h = tt
  take_source-Leaves new_pos (src ∷ rest) (h, hs) =
      pick-lem (Leaves new_pos)
        (((src.op is del) || (src.op is sub)) && items_equal src.old_pos new_pos) _ _
        (λ found. (
          ground arith,
          pick-lem (All IsMoved) (src.op is sub) _ _ (λ _. ((λ e. cc), hs)) (λ _. hs),
        ))
        (λ _. Leaves-behind src new_pos _ h (take_source-Leaves new_pos rest hs))

  -- A list is returned, and its moves are between equal items.
  record Grows (r : Option ChangeVector) : Type 0 where
    changed : ChangeVector
    returned : r ≡ some changed
    moved : All IsMoved changed

  Grows-append :
      (ch : Change) (cs : ChangeVector)
      → IsMoved ch
      → All IsMoved cs
      → Grows (some (cs ++ (ch ∷ [])))
  Grows-append ch cs h hs = record {
    changed = cs ++ (ch ∷ []);
    returned = refl;
    moved = All-append cs ch hs h;
  }

  add_deletion-Grows :
      (fuel : ℕ) (ch : Change) (cs : ChangeVector)
      → op_index ch.op < 5
      → arrivals cs < fuel
      → All IsMoved cs
      → Grows (add_deletion items_equal fuel ch cs)
  unfolding add_deletion
  add_deletion-Grows zero ch cs known enough h = ground arith
  add_deletion-Grows (suc fuel) ch cs known enough h =
      found (take_destination items_equal ch.old_pos cs) (take_destination-Moves ch.old_pos cs h)
        (λ c ds a b e. add_deletion-Grows fuel c ds a b e)
    where
      found :
          (found : Option (Change × ChangeVector))
          → Moves cs found
          → ((c : Change) (ds : ChangeVector)
              → op_index c.op < 5
              → arrivals ds < fuel
              → All IsMoved ds
              → Grows (add_deletion items_equal fuel c ds))
          → Grows (elim found [
            | none ↦ some (cs ++ (ch ∷ []))
            | some (orig, changed) ↦ elim (orig.op is sub) [
              | true ↦ add_deletion items_equal fuel (change del orig.old_pos orig.new_pos) changed
              | false ↦ some changed
            ]
          ])
      found none m recurse = Grows-append ch cs (IsMoved-other ch known) h
      found (some (orig, changed)) (less, moved) recurse =
          if-lem Grows (orig.op is sub) _ _
            (λ _.
              recurse (change del orig.old_pos orig.new_pos) changed (omega arith) (omega arith)
                moved)
            (λ _. record { changed = changed; returned = refl; moved = moved })

  add_arrival-Grows :
      (ch : Change) (cs : ChangeVector)
      → op_index ch.op < 5
      → All IsMoved cs
      → Grows (add_arrival items_equal ch cs)
  unfolding add_arrival
  add_arrival-Grows ch cs known h =
      found (take_source items_equal ch.new_pos cs) (take_source-Leaves ch.new_pos cs h)
    where
      moved_last :
          (source : ℕ) (r : Option ChangeVector)
          → items_equal source ch.new_pos ≡ true
          → Grows r
          → Grows (Option.map (λ cs. cs ++ (change mov source ch.new_pos ∷ [])) r)
      moved_last source r same g = record {
        changed = g.changed ++ (change mov source ch.new_pos ∷ []);
        returned = ap (Option.map (λ cs. cs ++ (change mov source ch.new_pos ∷ []))) g.returned;
        moved = All-append g.changed (change mov source ch.new_pos) g.moved (λ _. same);
      }

      found :
          (found : Option (ℕ × ChangeVector))
          → Leaves ch.new_pos found
          → Grows (elim found [
            | none ↦ some (cs ++ (ch ∷ []))
            | some (source, changed) ↦
                let moved = change mov source ch.new_pos in
                elim (ch.op is sub) [
                  | true ↦
                      Option.map
                        (λ cs. cs ++ (moved ∷ []))
                        (add_deletion items_equal
                          (suc (length changed))
                          (change del ch.old_pos (succ_64 ch.new_pos))
                          changed)
                  | false ↦ some (changed ++ (moved ∷ []))
                ]
          ])
      found none m = Grows-append ch cs (IsMoved-other ch known) h
      found (some (source, changed)) (same, moved) =
          if-lem Grows (ch.op is sub) _ _
            (λ _. moved_last source _ same (
              add_deletion-Grows (suc (length changed)) (change del ch.old_pos (succ_64 ch.new_pos))
                changed (omega arith) (let l = arrivals-length changed in omega arith) moved))
            (λ _. Grows-append (change mov source ch.new_pos) changed (λ _. same) moved)

  -- For a change that is not a move.
  add_change-Grows :
      (detects_moves : Bool) (ch : Change) (cs : ChangeVector)
      → op_index ch.op < 5
      → All IsMoved cs
      → Grows (add_change items_equal detects_moves ch cs)
  unfolding add_change
  add_change-Grows false ch cs known h = Grows-append ch cs (IsMoved-other ch known) h
  add_change-Grows true ch cs known h = by_op ch.op
    where
      by_op :
          (op : Op)
          → Grows (elim op [
            | ins ↦ add_arrival items_equal ch cs
            | sub ↦ add_arrival items_equal ch cs
            | del ↦ add_deletion items_equal (suc (length cs)) ch cs
            | _ ↦ some (cs ++ (ch ∷ []))
          ])
      by_op ins = add_arrival-Grows ch cs known h
      by_op sub = add_arrival-Grows ch cs known h
      by_op del =
          add_deletion-Grows (suc (length cs)) ch cs known
            (let l = arrivals-length cs in omega arith) h
      by_op nop = Grows-append ch cs (IsMoved-other ch known) h
      by_op mov = Grows-append ch cs (IsMoved-other ch known) h
      by_op uninitialized = Grows-append ch cs (IsMoved-other ch known) h

  abbrev Records : BaseDiffer → Option BaseDiffer → Type 0
  Records d r = (cs : ChangeVector) × (r ≡ some (record d { changes = cs })) × All IsMoved cs

  record_change-Records :
      (ch : Change) (d : BaseDiffer)
      → op_index ch.op < 5
      → All IsMoved d.changes
      → Records d (record_change items_equal ch d)
  unfolding record_change
  record_change-Records ch d known h =
      pick-lem (Records d) (ch.op is nop) _ _ (λ _. (d.changes, refl, h))
        (λ _.
          let g = add_change-Grows d.detects_moves ch d.changes known h in
          (g.changed, ap (Option.map (λ cs. record d { changes = cs })) g.returned, g.moved))

  record Ends (r : Option BaseDiffer) : Type 0 where
    last : BaseDiffer
    returned : r ≡ some last
    moved : All IsMoved last.changes

  changes_loop-Ends :
      (fuel n o : ℕ) (d : BaseDiffer)
      → n + o ≤ fuel
      → IsRunning items_equal d n o
      → All IsMoved d.changes
      → Ends (changes_loop items_equal fuel n o d)
  unfolding changes_loop
  changes_loop-Ends zero n o d enough h moved =
      pick-lem Ends ((n == 0) && (o == 0)) (some d) none
        (λ _. record { last = d; returned = refl; moved = moved }) (λ more. ground arith)
  changes_loop-Ends (suc fuel) n o d enough h moved =
      if-lem Ends ((n == 0) && (o == 0)) (some d) _
        (λ _. record { last = d; returned = refl; moved = moved })
        (λ more.
          let (s, r) =
            compute-Returns items_equal d d n o uint_max h.nuu_in h.old_in h.is_state h.n_in
              h.o_in in
          let d' = (compute items_equal d n o uint_max).0 in
          let c = (compute items_equal d n o uint_max).1 in
          let (n', o', ch) = step items_equal c.op d.prefix_len n o in
          let (legal, _, less) = pass-IsRunning items_equal d d' c n o [] (ground arith) h s r in
          let (cs, recorded, moved') =
            record_change-Records ch d'
              (subst (λ op. op_index op < 5) (sym (step-op items_equal c.op d.prefix_len n o))
                (Legal-known items_equal c.op d.prefix_len n o legal))
              (subst (All IsMoved) (sym s.changes_same) moved) in
          let d'' = record d' { changes = cs } in
          let (_, running, _) = pass-IsRunning items_equal d d' c n o cs (ground arith) h s r in
          subst
            (λ found.
              Ends (elim found [ none ↦ none | some e ↦ changes_loop items_equal fuel n' o' e ]))
            (sym recorded) (changes_loop-Ends fuel n' o' d'' (omega arith) running moved'))

  -- For arrays of less than 2 ^ 24 items, whatever the test of items, and with moves detected or not,
  -- `changes` on an object just set up returns, and each move of the changes returned has an old and
  -- a new position whose items are equal.
  pub all_changes-IsMoved :
      (old_len new_len : ℕ) (d : BaseDiffer)
      → old_len < 2 ^ 24
      → new_len < 2 ^ 24
      → (d' : BaseDiffer) × (cs : ChangeVector) × (all_changes items_equal
            (setup items_equal old_len new_len d)
          ≡ some (d', cs))
        × All IsMoved cs
  unfolding all_changes
  all_changes-IsMoved old_len new_len d old_in new_in =
      let e = setup items_equal old_len new_len d in
      let f =
        changes_loop-Ends (e.nuu_len + e.old_len) e.nuu_len e.old_len (record e { changes = [] })
          (omega arith) (setup-IsRunning items_equal old_len new_len d [] old_in new_in) tt in
      (
        record f.last { changes = reverse f.last.changes },
        reverse f.last.changes,
        ap (Option.map (λ d'. let cs = reverse d'.changes in (record d' { changes = cs }, cs)))
            f.returned,
        All-reverse f.last.changes f.moved,
      )
