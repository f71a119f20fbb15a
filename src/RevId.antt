-- ===== src/RevId.antt =====
-- Source/CBL_RevID.m, with `CBLAppendDecimal` and `CBLAppendHex` of Source/CBLMisc.m.
--
-- A `CBL_TreeRevID` is its one instance variable, the bytes `_data`. NULL and nil are `none`. The
-- `int` that a comparison returns is an `Ordering`: -1, 0, 1 are lt, eq, gt. `unsigned` arithmetic
-- keeps its wrap-around.
pub mod Digits
pub mod Collate
pub mod Order
pub mod Canonical
pub mod History
pub mod Next
pub mod Interface
use couchbase_lite_ios.Base.{
  ℕ, zero, suc, ◌+◌, ◌-◌, ◌*◌, ◌/◌, ◌%◌, ◌^◌, min, Ordering, Bool, true, ◌&&◌, ◌||◌, Option, none,
  some, List, [], ◌∷◌, ◌++◌, map, ltb, ◌==◌, if◌then◌else◌, ◌or_else◌, length, take, drop,
}
use couchbase_lite_ios.Base.Int.{ℤ, pos, negsuc, sub_ℕ, pred_ℤ, ◌elvis◌, eq_ℤ}
use couchbase_lite_ios.Base.Bytes.{Bytes, memchr, memcmp, is_digit, digit_to_int}
use couchbase_lite_ios.Base.Collections.{CollectionUtils}
use mathlib.Core.Option

abbrev pub TreeRevId : Type 0
TreeRevId = Bytes

abbrev pub unsigned : ℕ → ℕ
unsigned n = n % 2 ^ 32

-- The loop of `parseDigits` with `result` so far.
parse_from : ℕ → Bytes → ℕ
parse_from result [] = result
parse_from result (c ∷ cs) =
    if is_digit c then parse_from (unsigned (10 * result + digit_to_int c)) cs else 0

unfoldable pub parse_digits : Bytes → ℕ
unfolding parse_from
parse_digits str = parse_from 0 str

unfoldable pub generation : TreeRevId → ℕ
generation r = elim (memchr r b'-') [
  | none ↦ 0
  | some dash ↦ if ltb 9 dash then 0 else parse_digits (take dash r)
]

all_ascii : Bytes → Bool
all_ascii [] = true
all_ascii (c ∷ cs) = ltb c 128 && all_ascii cs

-- A string of `NSASCIIStringEncoding`, which is strict: a byte over 127 gives nil.
unfoldable pub ascii_string : Bytes → Option Bytes
unfolding all_ascii
ascii_string s = if all_ascii s then some s else none

unfoldable pub as_string : TreeRevId → Option Bytes
unfolding ascii_string
as_string r = ascii_string r

unfoldable pub suffix : TreeRevId → Option Bytes
suffix r = elim (memchr r b'-') [
  | none ↦ none
  | some dash ↦ if length (drop (dash + 1) r) == 0 then none else ascii_string (drop (dash + 1) r)
]

-- The loop of `CBLAppendDecimal`: digits are written in front of `dst`, 20 at most.
decimal_from : ℕ → ℕ → Bytes → Option Bytes
decimal_from zero n dst = none
decimal_from (suc room) n dst =
    let more = decimal_from room (n / 10) ((b'0' + n % 10) ∷ dst) in
    if n / 10 == 0 then some ((b'0' + n % 10) ∷ dst) else more

-- `none` would be a write below `temp`.
unfoldable pub append_decimal : ℕ → Option Bytes
unfolding decimal_from
append_decimal n = if ltb n 10 then some ((b'0' + n) ∷ []) else decimal_from 20 n []

abbrev hex_digit : ℕ → ℕ
hex_digit d = if ltb d 10 then b'0' + d else b'a' + (d - 10)

unfoldable pub append_hex : Bytes → Bytes
append_hex [] = []
append_hex (c ∷ cs) = hex_digit (c / 16) ∷ hex_digit (c % 16) ∷ append_hex cs

-- What `revIDForJSON:` feeds to MD5, one `MD5_Update` after the other.
pub digest_input : Bytes → Bool → Option TreeRevId → Bytes
digest_input json deleted none = (if deleted then 1 else 0) ∷ json
digest_input json deleted (some prev) =
    length prev % 256 ∷ (prev ++ ((if deleted then 1 else 0) ∷ json))

abbrev pub prev_generation : Option TreeRevId → Option ℕ
prev_generation none = some 0
prev_generation (some prev) = if generation prev == 0 then none else some (generation prev)

-- `md5` is the system's digest.
unfoldable pub rev_id_for_json :
    (md5 : Bytes → Bytes) → Bytes → Bool → Option TreeRevId → Option TreeRevId
unfolding digest_input
rev_id_for_json md5 json deleted prev = elim (prev_generation prev) [
  | none ↦ none
  | some gen ↦
      Option.map (λ digits. digits ++ (b'-' ∷ append_hex (md5 (digest_input json deleted prev))))
        (append_decimal (unsigned (gen + 1)))
]

-- An object of a JSON array: a string, or anything else.
pub data Item : Type 0 where
  string : Bytes → Item
  other : Item

-- A `_revisions` dictionary. A value of another class, or none, is `none`.
pub record HistoryDict : Type 0 where
  pub start : Option ℤ
  pub ids : Option (List Item)

-- The loop of `makeRevisionHistoryDict:`, with its variables `suffixes`, `start`, `lastRevNo`.
pub make_from : List Bytes → Option ℕ → ℤ → List TreeRevId → Option ℕ × List Bytes
make_from suffixes start last [] = (start, suffixes)
make_from suffixes start last (r ∷ rs) =
    let rev_no = generation r in
    elim (suffix r) [
      | none ↦ (none, suffixes)
      | some s ↦
          let rest =
            make_from (suffixes ++ s ∷ []) (some (Option.get_or start rev_no)) (pos rev_no) rs in
          if rev_no == 0 then (none, suffixes) else elim start [
            | none ↦ rest
            | some _ ↦ if eq_ℤ (pos rev_no) (pred_ℤ last) then rest else (none, suffixes)
          ]
    ]

module _ (u : CollectionUtils) where
  open u use {my_map}

  history_dict : List TreeRevId → Option ℕ × List Bytes → HistoryDict
  history_dict history (some start, suffixes) = record {
    start = some (pos start);
    ids = some (map string suffixes);
  }
  history_dict history (none, _) = record {
    start = none;
    ids =
        some (
          my_map (Unit {0}) TreeRevId Item (λ t r. (t, Option.map string (as_string r))) tt
            history);
  }

  unfoldable pub make_revision_history_dict : Option (List TreeRevId) → Option HistoryDict
  unfolding make_from history_dict
  make_revision_history_dict none = none
  make_revision_history_dict (some history) =
      some (history_dict history (make_from [] none (negsuc 0) history))

-- `%d` of an `int`; its at most 10 digits fit the room of `CBLAppendDecimal`.
unfoldable pub format_int : ℤ → Bytes
format_int (pos n) = Option.get_or (append_decimal n) []
format_int (negsuc n) = b'-' ∷ Option.get_or (append_decimal (n + 1)) []

abbrev is_zero : ℤ → Bool
is_zero z = eq_ℤ z (pos 0)

-- The block of `parseRevisionHistoryDict:`, with the variable `start` that it counts down.
parse_item : ℤ → Item → ℤ × Option TreeRevId
parse_item start other = (start, none)
parse_item start (string s) =
    if is_zero start then (start, some s) else (pred_ℤ start, some (format_int start ++ (b'-' ∷ s)))

module _ (u : CollectionUtils) where
  open u use {my_map}

  unfoldable pub parse_revision_history_dict : Option HistoryDict → Option (List TreeRevId)
  unfolding parse_item format_int
  parse_revision_history_dict none = none
  parse_revision_history_dict (some dict) =
      Option.map (my_map ℤ Item TreeRevId parse_item (Option.get_or dict.start (pos 0))) dict.ids

pub sgn : ℤ → Ordering
sgn (pos zero) = Ordering.eq
sgn (pos (suc n)) = Ordering.gt
sgn (negsuc n) = Ordering.lt

pub default_collate : Bytes → Bytes → Ordering
default_collate str1 str2 =
    sgn (memcmp str1 str2 (min (length str1) (length str2)) elvis sub_ℕ (length str1) (length str2))

-- The condition of the first `if` of `CBLCollateRevIDs` when both dashes are there.
pub compare_as_text : ℕ → ℕ → Bool
compare_as_text dash1 dash2 = (dash1 == 1 && dash2 == 1) || ltb 8 dash1 || ltb 8 dash2

pub collate_generations : ℕ → ℕ → Bytes → Bytes → Ordering
collate_generations dash1 dash2 rev1 rev2 =
    let gen1 = parse_digits (take dash1 rev1) in
    let gen2 = parse_digits (take dash2 rev2) in
    if gen1 == 0 || gen2 == 0
    then default_collate rev1 rev2
    else sgn (sub_ℕ gen1 gen2)
      or_else default_collate (drop (dash1 + 1) rev1) (drop (dash2 + 1) rev2)

pub collate_dashes : Option ℕ → Option ℕ → Bytes → Bytes → Ordering
collate_dashes (some dash1) (some dash2) rev1 rev2 =
    if compare_as_text dash1 dash2
    then default_collate rev1 rev2
    else collate_generations dash1 dash2 rev1 rev2
collate_dashes _ _ rev1 rev2 = default_collate rev1 rev2

unfoldable pub collate_rev_ids : Bytes → Bytes → Ordering
unfolding sgn default_collate compare_as_text collate_generations collate_dashes
collate_rev_ids rev1 rev2 = collate_dashes (memchr rev1 b'-') (memchr rev2 b'-') rev1 rev2
