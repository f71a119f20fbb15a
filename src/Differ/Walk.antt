-- ===== src/Differ/Walk.antt =====
-- Source/Differ.cc: `changes` without the detection of moves.
use couchbase_lite_ios.Base.{
  ℕ, zero, suc, ◌+◌, ◌-◌, ◌^◌, ◌≡◌, ◌≤◌, ◌<◌, inl, inr, refl, ap, sym, ◌∙◌, Bool, true, false, ◌&&◌,
  Option, none, some, List, [], ◌∷◌, ◌++◌, ◌==◌, if◌then◌else◌, get_elem?, drop, length, arith,
  Bool-cases,
}
use couchbase_lite_ios.Differ.{
  Op, uninitialized, nop, del, sub, ins, mov, ◌is◌, Change, change, ChangeVector, Cell, uint_max,
  BaseDiffer, compute, setup,
}
use couchbase_lite_ios.Differ.Changes.{step, add_change, record_change, changes_loop, all_changes}
use couchbase_lite_ios.Differ.Compute.{IsResult, IsState, compute-Returns}
use couchbase_lite_ios.Differ.Steps.{if-lem, pick-lem}
use couchbase_lite_ios.Differ.Setup.{setup-IsSetup}
use couchbase_lite_ios.Differ.Loop.{
  step-op, pred_64-lem, succ_64-pred_64, Legal, IsRunning, pass-IsRunning, setup-IsRunning,
}
use couchbase_lite_ios.Differ.Script.{
  to_list, item, apply_from, StartsAt, drop-item, apply_from-item, apply_from-del, apply_from-ins,
  apply_from-sub, apply_from-prefix, drop-suffix,
}
use mathlib.Core.List.{reverse, reverse-append}
use mathlib.Core.Option
use mathlib.Core.Path.{subst}

module _ (items_equal : ℕ → ℕ → Bool) where
  -- With moves not detected, a change is put at the end of the list, unless it is none.
  abbrev recorded : Change → ChangeVector → ChangeVector
  recorded ch cs = if ch.op is nop then cs else cs ++ (ch ∷ [])

  record_change-recorded :
      (ch : Change) (d : BaseDiffer)
      → d.detects_moves ≡ false
      → record_change items_equal ch d ≡ some (record d { changes = recorded ch d.changes })
  unfolding record_change add_change
  record_change-recorded ch d h = elim (Bool-cases (ch.op is nop)) [
    | inl none_there ↦ rw (none_there, record_change) refl
    | inr some_there ↦ rw (some_there, h, record_change) refl
  ]

  module _ {A : Type 0} (old nuu : List A)
      (sound : (i j : ℕ) → items_equal i j ≡ true → get_elem? old i ≡ get_elem? nuu j) where
    -- The changes make the rest of the new array, from j on, of the rest of the old one, from i on.
    pub record IsWritten (j i : ℕ) (cs : ChangeVector) : Type 0 where
      pub starts : StartsAt i cs
      pub writes : apply_from old nuu i cs ≡ drop j nuu

    StartsAt-suc : (i : ℕ) (cs : ChangeVector) → StartsAt (suc i) cs → StartsAt i cs
    StartsAt-suc i [] s = tt
    StartsAt-suc i (ch ∷ rest) s = omega arith

    IsWritten-nop :
        (j i : ℕ) (cs : ChangeVector)
        → items_equal i j ≡ true
        → IsWritten (suc j) (suc i) cs
        → IsWritten j i cs
    IsWritten-nop j i cs same h = record {
      starts = StartsAt-suc i cs h.starts;
      writes =
          apply_from-item old nuu i cs h.starts
          ∙ ap (λ r. item old i ++ r) h.writes
          ∙ ap (λ o. to_list o ++ drop (suc j) nuu) (sound i j same)
          ∙ sym (drop-item nuu j);
    }

    IsWritten-del :
        (j i k : ℕ) (cs : ChangeVector)
        → IsWritten j (suc i) cs
        → IsWritten j i (change del i k ∷ cs)
    IsWritten-del j i k cs h = record {
      starts = omega arith;
      writes = apply_from-del old nuu i k cs ∙ h.writes;
    }

    IsWritten-ins :
        (j i : ℕ) (cs : ChangeVector) → IsWritten (suc j) i cs → IsWritten j i (change ins i j ∷ cs)
    IsWritten-ins j i cs h = record {
      starts = omega arith;
      writes =
          apply_from-ins old nuu i j cs
          ∙ ap (λ r. item nuu j ++ r) h.writes
          ∙ sym (drop-item nuu j);
    }

    IsWritten-sub :
        (j i : ℕ) (cs : ChangeVector)
        → IsWritten (suc j) (suc i) cs
        → IsWritten j i (change sub i j ∷ cs)
    IsWritten-sub j i cs h = record {
      starts = omega arith;
      writes =
          apply_from-sub old nuu i j cs
          ∙ ap (λ r. item nuu j ++ r) h.writes
          ∙ sym (drop-item nuu j);
    }

    IsWritten-same :
        (j i j' i' : ℕ) (cs : ChangeVector)
        → j ≡ j'
        → i ≡ i'
        → IsWritten j i cs
        → IsWritten j' i' cs
    IsWritten-same j i j' i' cs e f h =
        subst (λ j. IsWritten j i' cs) e (subst (λ i. IsWritten j i cs) f h)

    -- The same positions and change, written in another way.
    IsWritten-change :
        (op : Op) (j i b a j' i' b' a' : ℕ) (cs : ChangeVector)
        → j ≡ j'
        → i ≡ i'
        → b ≡ b'
        → a ≡ a'
        → IsWritten j i (change op a b ∷ cs)
        → IsWritten j' i' (change op a' b' ∷ cs)
    IsWritten-change op j i b a j' i' b' a' cs e f g k h =
        subst (λ c. IsWritten j' i' (c ∷ cs)) (ap (λ a. change op a b) k ∙ ap (change op a') g)
          (IsWritten-same j i j' i' (change op a b ∷ cs) e f h)

    -- A step of the loop, with the change it records.
    step-IsWritten :
        (op : Op) (prefix n o : ℕ) (cs : ChangeVector)
        → prefix + n < 2 ^ 64
        → prefix + o < 2 ^ 64
        → Legal items_equal prefix op n o
        → IsWritten (prefix + n) (prefix + o) cs
        → let (n', o', ch) = step items_equal op prefix n o in
          IsWritten (prefix + n') (prefix + o') (if op is nop then cs else ch ∷ cs)
    step-IsWritten nop prefix n o cs hn ho (pn, po, same) h =
        let e = pred_64-lem n pn (omega arith) in
        let f = pred_64-lem o po (omega arith) in
        IsWritten-same (prefix + n - 1) (prefix + o - 1) _ _ cs (omega arith) (omega arith) (
          IsWritten-nop (prefix + n - 1) (prefix + o - 1) cs same
            (IsWritten-same (prefix + n) (prefix + o) _ _ cs (omega arith) (omega arith) h))
    step-IsWritten del prefix n o cs hn ho po h =
        let f = pred_64-lem o po (omega arith) in
        let g = pred_64-lem (prefix + o) (omega arith) ho in
        IsWritten-change del (prefix + n) (prefix + o - 1) (prefix + n) (prefix + o - 1) _ _ _ _ cs
          refl (omega arith) (sym (succ_64-pred_64 (prefix + n) hn)) (sym g)
          (IsWritten-del (prefix + n) (prefix + o - 1) (prefix + n) cs
            (IsWritten-same (prefix + n) (prefix + o) _ _ cs refl (omega arith) h))
    step-IsWritten ins prefix n o cs hn ho pn h =
        let e = pred_64-lem n pn (omega arith) in
        let g = pred_64-lem (prefix + n) (omega arith) hn in
        IsWritten-change ins (prefix + n - 1) (prefix + o) (prefix + n - 1) (prefix + o) _ _ _ _ cs
          (omega arith) refl (sym g) (sym (succ_64-pred_64 (prefix + o) ho))
          (IsWritten-ins (prefix + n - 1) (prefix + o) cs
            (IsWritten-same (prefix + n) (prefix + o) _ _ cs (omega arith) refl h))
    step-IsWritten sub prefix n o cs hn ho (pn, po) h =
        let e = pred_64-lem n pn (omega arith) in
        let f = pred_64-lem o po (omega arith) in
        let g = pred_64-lem (prefix + n) (omega arith) hn in
        let k = pred_64-lem (prefix + o) (omega arith) ho in
        IsWritten-change sub (prefix + n - 1) (prefix + o - 1) (prefix + n - 1) (prefix + o - 1) _ _
          _ _ cs (omega arith) (omega arith) (sym g) (sym k)
          (IsWritten-sub (prefix + n - 1) (prefix + o - 1) cs
            (IsWritten-same (prefix + n) (prefix + o) _ _ cs (omega arith) (omega arith) h))
    step-IsWritten mov prefix n o cs hn ho excluded h = elim excluded [ ]
    step-IsWritten uninitialized prefix n o cs hn ho excluded h = elim excluded [ ]

    -- What the loop finds at each pass, with moves not detected.
    record IsReady (d : BaseDiffer) (n o : ℕ) : Type 0 where
      running : IsRunning items_equal d n o
      no_moves : d.detects_moves ≡ false
      written : IsWritten (d.prefix_len + n) (d.prefix_len + o) (reverse d.changes)

    reverse-recorded :
        (ch : Change) (cs : ChangeVector)
        → reverse (recorded ch cs) ≡ (if ch.op is nop then reverse cs else ch ∷ reverse cs)
    reverse-recorded ch cs =
        pick-lem (λ r. reverse r ≡ (if ch.op is nop then reverse cs else ch ∷ reverse cs))
          (ch.op is nop) cs (cs ++ (ch ∷ []))
          (λ h. ap (λ b. if b then reverse cs else ch ∷ reverse cs) (sym h))
          (λ h.
            reverse-append cs (ch ∷ [])
            ∙ ap (λ b. if b then reverse cs else ch ∷ reverse cs) (sym h))

    -- One pass, with what the call of `compute` returned.
    pass-IsReady :
        (d d' : BaseDiffer) (c : Cell) (n o : ℕ)
        → 0 < n + o
        → IsReady d n o
        → IsState items_equal d d'
        → IsResult items_equal d n o uint_max c
        → let (n', o', ch) = step items_equal c.op d.prefix_len n o in
          IsReady (record d' { changes = recorded ch d'.changes }) n' o' × (n' + o' < n + o)
    pass-IsReady d d' c n o some_left h s r =
        let P = d.prefix_len in
        let g = s.prefix_len_same in
        let ch = (step items_equal c.op P n o).2 in
        let k = h.running in
        let a = k.prefix_in in
        let b = k.nuu_in in
        let b' = k.old_in in
        let n_le = k.n_in in
        let o_le = k.o_in in
        let (legal, running, less) =
          pass-IsRunning items_equal d d' c n o (recorded ch d'.changes) some_left k s r in
        (
          record {
            running = running;
            no_moves = s.detects_moves_same ∙ h.no_moves;
            written =
                subst
                  (IsWritten (d'.prefix_len + (step items_equal c.op P n o).0)
                    (d'.prefix_len + (step items_equal c.op P n o).1))
                  (sym (
                    reverse-recorded ch d'.changes
                    ∙ ap (λ op. if op is nop then reverse d'.changes else ch ∷ reverse d'.changes)
                        (step-op items_equal c.op P n o)
                    ∙ ap (λ cs. if c.op is nop then reverse cs else ch ∷ reverse cs)
                        s.changes_same))
                  (IsWritten-same _ _ _ _ _ (omega arith) (omega arith) (
                    step-IsWritten c.op P n o (reverse d.changes) (omega arith) (omega arith) legal
                      h.written));
          },
          less,
        )

    -- The result of the loop: the changes make all of the new array behind the prefix.
    record IsFinished (prefix : ℕ) (r : Option BaseDiffer) : Type 0 where
      last : BaseDiffer
      returned : r ≡ some last
      finished : IsWritten prefix prefix (reverse last.changes)

    IsFinished-start :
        (d : BaseDiffer) (n o : ℕ)
        → n ≡ 0
        → o ≡ 0
        → IsReady d n o
        → IsFinished d.prefix_len (some d)
    IsFinished-start d n o e f h = record {
      last = d;
      returned = refl;
      finished = IsWritten-same _ _ _ _ _ (omega arith) (omega arith) h.written;
    }

    changes_loop-IsFinished :
        (fuel n o : ℕ) (d : BaseDiffer)
        → n + o ≤ fuel
        → IsReady d n o
        → IsFinished d.prefix_len (changes_loop items_equal fuel n o d)
    unfolding changes_loop
    changes_loop-IsFinished zero n o d enough h =
        pick-lem (IsFinished d.prefix_len) ((n == 0) && (o == 0)) (some d) none
          (λ _. IsFinished-start d n o (omega arith) (omega arith) h) (λ more. ground arith)
    changes_loop-IsFinished (suc fuel) n o d enough h =
        if-lem (IsFinished d.prefix_len) ((n == 0) && (o == 0)) (some d) _
          (λ at_end. IsFinished-start d n o (ground arith) (ground arith) h)
          (λ more.
            let k = h.running in
            let (s, r) =
              compute-Returns items_equal d d n o uint_max k.nuu_in k.old_in k.is_state k.n_in
                k.o_in in
            let d' = (compute items_equal d n o uint_max).0 in
            let c = (compute items_equal d n o uint_max).1 in
            let (ready, less) = pass-IsReady d d' c n o (ground arith) h s r in
            let (n', o', ch) = step items_equal c.op d.prefix_len n o in
            let d'' = record d' { changes = recorded ch d'.changes } in
            subst
              (λ found.
                IsFinished d.prefix_len
                  (elim found [ none ↦ none | some e ↦ changes_loop items_equal fuel n' o' e ]))
              (sym (record_change-recorded ch d' (s.detects_moves_same ∙ h.no_moves)))
              (subst (λ p. IsFinished p (changes_loop items_equal fuel n' o' d'')) s.prefix_len_same
                (changes_loop-IsFinished fuel n' o' d'' (omega arith) ready)))

    setup-detects_moves :
        (m n : ℕ) (d : BaseDiffer) → (setup items_equal m n d).detects_moves ≡ d.detects_moves
    unfolding setup
    setup-detects_moves m n d = refl

    setup-IsReady :
        (d : BaseDiffer)
        → d.detects_moves ≡ false
        → length old < 2 ^ 24
        → length nuu < 2 ^ 24
        → let e = record (setup items_equal (length old) (length nuu) d) { changes = [] } in
          IsReady e e.nuu_len e.old_len
    setup-IsReady d no_moves old_in nuu_in =
        let (suffix, is_setup) = setup-IsSetup items_equal (length old) (length nuu) d in
        let a = is_setup.old_len_in in
        let b = is_setup.nuu_len_in in
        record {
          running = setup-IsRunning items_equal (length old) (length nuu) d [] old_in nuu_in;
          no_moves = setup-detects_moves (length old) (length nuu) d ∙ no_moves;
          written = record {
            starts = tt;
            writes =
                drop-suffix old nuu suffix _ _ a b (λ k h. sound _ _ (is_setup.suffix_equal k h));
          };
        }

    -- Where the test of items holds only for equal items, the arrays have less than 2 ^ 24 items and
    -- moves are not detected, `changes` on the object set up for the two arrays returns, and the changes
    -- returned make the new array of the old one.
    pub all_changes-apply_from :
        (d : BaseDiffer)
        → d.detects_moves ≡ false
        → length old < 2 ^ 24
        → length nuu < 2 ^ 24
        → (d' : BaseDiffer) × (cs : ChangeVector) × (all_changes items_equal
              (setup items_equal (length old) (length nuu) d)
            ≡ some (d', cs))
          × (apply_from old nuu 0 cs ≡ nuu)
    unfolding all_changes
    all_changes-apply_from d no_moves old_in nuu_in =
        let e = setup items_equal (length old) (length nuu) d in
        let (suffix, is_setup) = setup-IsSetup items_equal (length old) (length nuu) d in
        let f =
          changes_loop-IsFinished (e.nuu_len + e.old_len) e.nuu_len e.old_len
            (record e { changes = [] }) (omega arith) (setup-IsReady d no_moves old_in nuu_in) in
        let P = e.prefix_len in
        let at_prefix =
          IsWritten-same P P (0 + P) (0 + P) (reverse f.last.changes) (omega arith) (omega arith)
            f.finished in
        (
          record f.last { changes = reverse f.last.changes },
          reverse f.last.changes,
          ap (Option.map (λ d'. let cs = reverse d'.changes in (record d' { changes = cs }, cs)))
              f.returned,
          apply_from-prefix old nuu e.prefix_len 0 (reverse f.last.changes) at_prefix.starts
              (λ k _ h. sound k k (is_setup.prefix_equal k (omega arith))) at_prefix.writes,
        )
