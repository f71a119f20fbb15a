-- ===== src/Differ/Changes.antt =====
-- Source/Differ.cc: `distance`, `changes` and `addChange`. The positions of the loop of `changes` shrink
-- at each pass, and the calls of `addChange` within itself each turn an insertion or a substitution
-- of the list into a move, so that the fuel given is enough.
use couchbase_lite_ios.Base.{
  ℕ, zero, suc, ◌+◌, Bool, true, false, ◌&&◌, ◌||◌, Option, none, some, [], ◌∷◌, ◌++◌, ◌==◌,
  if◌then◌else◌, length,
}
use couchbase_lite_ios.Differ.{
  Op, nop, del, sub, ins, mov, ◌is◌, Change, change, ChangeVector, uint_max, pred_64, succ_64,
  BaseDiffer, compute,
}
use mathlib.Core.List.{reverse}
use mathlib.Core.Option

-- A list with a first item, if there is one.
abbrev pub behind : {B : Type 0} → Change → Option (B × ChangeVector) → Option (B × ChangeVector)
behind c none = none
behind c (some (b, cs)) = some (b, c ∷ cs)

module _ (items_equal : ℕ → ℕ → Bool) where
  -- The first loop of `addChange`: the position the item comes from, and the list with its source
  -- changed.
  unfoldable pub take_source : ℕ → ChangeVector → Option (ℕ × ChangeVector)
  take_source new_pos [] = none
  take_source new_pos (src ∷ rest) =
      let later = behind src (take_source new_pos rest) in
      if ((src.op is del) || (src.op is sub)) && items_equal src.old_pos new_pos
      then some (src.old_pos, (if src.op is sub then record src { op = ins } ∷ rest else rest))
      else later

  -- The second loop: `origDst`, and the list with the destination changed.
  unfoldable pub take_destination : ℕ → ChangeVector → Option (Change × ChangeVector)
  take_destination old_pos [] = none
  take_destination old_pos (dst ∷ rest) =
      let later = behind dst (take_destination old_pos rest) in
      if ((dst.op is ins) || (dst.op is sub)) && items_equal old_pos dst.new_pos
      then some (dst, record dst { op = mov; old_pos = old_pos } ∷ rest)
      else later

  -- The case of a deletion.
  unfoldable pub add_deletion : ℕ → Change → ChangeVector → Option ChangeVector
  unfolding take_destination
  add_deletion zero ch changes = none
  add_deletion (suc fuel) ch changes = elim (take_destination ch.old_pos changes) [
    | none ↦ some (changes ++ (ch ∷ []))
    | some (orig, changed) ↦ elim (orig.op is sub) [
      | true ↦ add_deletion fuel (change del orig.old_pos orig.new_pos) changed
      | false ↦ some changed
    ]
  ]

  -- The case of an insertion or a substitution.
  unfoldable pub add_arrival : Change → ChangeVector → Option ChangeVector
  unfolding take_source add_deletion
  add_arrival ch changes = elim (take_source ch.new_pos changes) [
    | none ↦ some (changes ++ (ch ∷ []))
    | some (source, changed) ↦
        let moved = change mov source ch.new_pos in
        elim (ch.op is sub) [
          | true ↦
              Option.map (λ cs. cs ++ (moved ∷ []))
                (add_deletion (suc (length changed)) (change del ch.old_pos (succ_64 ch.new_pos))
                  changed)
          | false ↦ some (changed ++ (moved ∷ []))
        ]
  ]

  unfoldable pub add_change : Bool → Change → ChangeVector → Option ChangeVector
  unfolding add_arrival add_deletion
  add_change false ch changes = some (changes ++ (ch ∷ []))
  add_change true ch changes = elim ch.op [
    | ins ↦ add_arrival ch changes
    | sub ↦ add_arrival ch changes
    | del ↦ add_deletion (suc (length changes)) ch changes
    | _ ↦ some (changes ++ (ch ∷ []))
  ]

  unfoldable pub distance : BaseDiffer → BaseDiffer × ℕ
  unfolding compute
  distance d = let (d', c) = compute items_equal d d.nuu_len d.old_len uint_max in (d', c.distance)

  -- `addChange` on the object.
  unfoldable pub record_change : Change → BaseDiffer → Option BaseDiffer
  unfolding add_change
  record_change ch d =
      if ch.op is nop
      then some d
      else Option.map (λ cs. record d { changes = cs }) (add_change d.detects_moves ch d.changes)

  -- A change before the switch, and the positions and change after it.
  abbrev pub step : Op → ℕ → ℕ → ℕ → ℕ × ℕ × Change
  step op prefix new_pos old_pos =
      let ch = change op (pred_64 (prefix + old_pos)) (pred_64 (prefix + new_pos)) in
      elim op [
        | del ↦ (new_pos, pred_64 old_pos, record ch { new_pos = succ_64 ch.new_pos })
        | ins ↦ (pred_64 new_pos, old_pos, record ch { old_pos = succ_64 ch.old_pos })
        | _ ↦ (pred_64 new_pos, pred_64 old_pos, ch)
      ]

  -- The loop of `changes`, with the passes it may take.
  unfoldable pub changes_loop : ℕ → ℕ → ℕ → BaseDiffer → Option BaseDiffer
  unfolding compute record_change
  changes_loop zero new_pos old_pos d = if (new_pos == 0) && (old_pos == 0) then some d else none
  changes_loop (suc fuel) new_pos old_pos d = elim ((new_pos == 0) && (old_pos == 0)) [
    | true ↦ some d
    | false ↦
        let (d', c) = compute items_equal d new_pos old_pos uint_max in
        let (new_pos', old_pos', ch) = step c.op d.prefix_len new_pos old_pos in
        elim (record_change ch d') [
          | none ↦ none
          | some d'' ↦ changes_loop fuel new_pos' old_pos' d''
        ]
  ]

  unfoldable pub all_changes : BaseDiffer → Option (BaseDiffer × ChangeVector)
  unfolding changes_loop
  all_changes d =
      Option.map (λ d'. let cs = reverse d'.changes in (record d' { changes = cs }, cs))
        (changes_loop (d.nuu_len + d.old_len) d.nuu_len d.old_len (record d { changes = [] }))
