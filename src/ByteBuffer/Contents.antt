-- ===== src/ByteBuffer/Contents.antt =====
-- Source/CBLByteBuffer.m: the buffer behaves as the list of its bytes that are available.
use couchbase_lite_ios.Base.{
  ℕ, zero, suc, ◌+◌, ◌-◌, ◌/◌, ◌%◌, ◌^◌, ◌≤◌, ◌<◌, ◌≡◌, refl, sym, ap, ◌∙◌, Bool, true, false, ◌&&◌,
  Option, none, some, List, [], ◌∷◌, ◌++◌, ltb, leb, if◌then◌else◌, length, drop, length-drop,
  length-append, arith, All,
}
use couchbase_lite_ios.Base.Bytes.{Bytes}
use couchbase_lite_ios.ByteBuffer.{
  ByteBuffer, compaction_length, advance, make_room, append_bytes, compact, reset, bytes_of,
  search_for,
}
use couchbase_lite_ios.Differ.Steps.{pick-lem}
use mathlib.Core.Option
use native.Mathlib.Nat.{mod-eq_of_lt}

-- The offset is in the array, and `room` bytes can be appended before a length reaches 2 ^ 63.
pub record IsBuffer (b : ByteBuffer) (room : ℕ) : Type 0 where
  pub offset_le : b.offset ≤ length b.stored
  pub length_lt : length b.stored + room < 2 ^ 63

drop-append :
    {A : Type 0} (n : ℕ) (xs ys : List A) → n ≤ length xs → drop n (xs ++ ys) ≡ drop n xs ++ ys
drop-append zero xs ys h = refl
drop-append (suc n) [] ys h = absurd (omega (arith, h))
drop-append (suc n) (x ∷ xs) ys h = drop-append n xs ys (omega (arith, h))

drop_nil : {A : Type 0} (n : ℕ) → drop {A = A} n [] ≡ []
drop_nil zero = refl
drop_nil (suc n) = refl

suc-add : (m n : ℕ) → suc m + n ≡ suc (m + n)
suc-add m n = omega arith

drop-drop : {A : Type 0} (m n : ℕ) (xs : List A) → drop n (drop m xs) ≡ drop (m + n) xs
drop-drop zero n xs = ap (λ k. drop k xs) (omega arith)
drop-drop (suc m) n [] = drop_nil n ∙ sym (drop_nil (suc m + n))
drop-drop (suc m) n (x ∷ xs) = drop-drop m n xs ∙ sym (ap (λ k. drop k (x ∷ xs)) (suc-add m n))

make_room-bytes_of : (amount : ℕ) (b : ByteBuffer) → bytes_of (make_room amount b) ≡ bytes_of b
unfolding bytes_of make_room
make_room-bytes_of amount b =
    pick-lem (λ (b' : ByteBuffer). drop b'.offset b'.stored ≡ drop b.offset b.stored)
      (ltb compaction_length b.offset && ltb (length b.stored / 2) b.offset) _ _ (λ e. refl)
      (λ e. refl)

make_room-offset_le :
    (amount : ℕ) (b : ByteBuffer)
    → b.offset ≤ length b.stored
    → (make_room amount b).offset ≤ length (make_room amount b).stored
unfolding make_room
make_room-offset_le amount b h =
    pick-lem (λ (b' : ByteBuffer). b'.offset ≤ length b'.stored)
      (ltb compaction_length b.offset && ltb (length b.stored / 2) b.offset) _ _ (λ e. omega arith)
      (λ e. h)

make_room-length :
    (amount : ℕ) (b : ByteBuffer) → length (make_room amount b).stored ≤ length b.stored
unfolding make_room
make_room-length amount b =
    pick-lem (λ (b' : ByteBuffer). length b'.stored ≤ length b.stored)
      (ltb compaction_length b.offset && ltb (length b.stored / 2) b.offset) _ _
      (λ e. omega (arith, length-drop b.offset b.stored)) (λ e. omega arith)

append_bytes-bytes_of :
    (bytes : Bytes) (b : ByteBuffer)
    → b.offset ≤ length b.stored
    → bytes_of (append_bytes bytes b) ≡ bytes_of b ++ bytes
unfolding bytes_of append_bytes
append_bytes-bytes_of bytes b h =
    drop-append _ (make_room (length bytes) b).stored bytes (make_room-offset_le (length bytes) b h)
    ∙ ap (λ xs. xs ++ bytes) (make_room-bytes_of (length bytes) b)

append_bytes-IsBuffer :
    (bytes : Bytes) (b : ByteBuffer) (room : ℕ)
    → IsBuffer b (length bytes + room)
    → IsBuffer (append_bytes bytes b) room
unfolding append_bytes
append_bytes-IsBuffer bytes b room w = record {
  offset_le = omega (
    arith,
    length-append (make_room (length bytes) b).stored bytes,
    make_room-offset_le (length bytes) b w.offset_le,
  );
  length_lt = omega (
    arith,
    length-append (make_room (length bytes) b).stored bytes,
    make_room-length (length bytes) b,
    w.length_lt,
  );
}

make_room-IsBuffer :
    (amount : ℕ) (b : ByteBuffer) (room : ℕ) → IsBuffer b room → IsBuffer (make_room amount b) room
make_room-IsBuffer amount b room w = record {
  offset_le = make_room-offset_le amount b w.offset_le;
  length_lt = omega (arith, make_room-length amount b, w.length_lt);
}

-- A call on the buffer; `advances` is a call that fails when there are too few bytes.
pub data Call : Type 0 where
  appends : Bytes → Call
  advances : ℕ → Call
  compacts resets : Call

-- The calls on the buffer, and on a list of bytes.
unfoldable pub run : List Call → ByteBuffer → Option ByteBuffer
run [] b = some b
run (appends bytes ∷ calls) b = run calls (append_bytes bytes b)
run (advances amount ∷ calls) b = Option.bind (advance amount b) (run calls)
run (compacts ∷ calls) b = run calls (compact b)
run (resets ∷ calls) b = run calls (reset b)

abbrev pub advance_list : ℕ → Bytes → Option Bytes
advance_list amount queue = if leb amount (length queue) then some (drop amount queue) else none

unfoldable pub run_list : List Call → Bytes → Option Bytes
run_list [] queue = some queue
run_list (appends bytes ∷ calls) queue = run_list calls (queue ++ bytes)
run_list (advances amount ∷ calls) queue = Option.bind (advance_list amount queue) (run_list calls)
run_list (compacts ∷ calls) queue = run_list calls queue
run_list (resets ∷ calls) queue = run_list calls []

-- How many bytes the calls append.
abbrev pub appended : List Call → ℕ
appended [] = 0
appended (appends bytes ∷ calls) = length bytes + appended calls
appended (advances amount ∷ calls) = appended calls
appended (compacts ∷ calls) = appended calls
appended (resets ∷ calls) = appended calls

abbrev pub IsShort : Call → Type 0
IsShort (advances amount) = amount < 2 ^ 63
IsShort _ = Unit

pick_both :
    {A B : Type 0} (P : A → B → Type 0) (t : Bool) (x x' : A) (y y' : B)
    → (t ≡ true → P x y)
    → (t ≡ false → P x' y')
    → P (if t then x else x') (if t then y else y')
pick_both P true x x' y y' h h' = h refl
pick_both P false x x' y y' h h' = h' refl

same_test :
    (amount : ℕ) (b : ByteBuffer)
    → b.offset ≤ length b.stored
    → leb amount (length (drop b.offset b.stored)) ≡ leb (b.offset + amount) (length b.stored)
same_test amount b h = ground (arith, h, length-drop b.offset b.stored)

-- `advance` on the buffer and on its bytes, when there are enough of them and when not.
advance-bytes_of :
    (amount room : ℕ) (b : ByteBuffer) (P : Option ByteBuffer → Option Bytes → Type 0)
    → IsBuffer b room
    → amount < 2 ^ 63
    → ((b' : ByteBuffer)
        → IsBuffer b' room
        → bytes_of b' ≡ drop amount (bytes_of b)
        → P (some b') (some (drop amount (bytes_of b))))
    → P none none
    → P (advance amount b) (advance_list amount (bytes_of b))
unfolding advance bytes_of
advance-bytes_of amount room b P w short enough few =
    let no_wrap : (b.offset + amount) % 2 ^ 64 ≡ b.offset + amount =
      mod-eq_of_lt (omega (arith, w.offset_le, w.length_lt, short)) in
    rw (no_wrap, same_test amount b w.offset_le)
      (pick_both P (leb (b.offset + amount) (length b.stored)) _ _ _ _
        (λ e.
          enough (record b { offset = b.offset + amount })
            (record { offset_le = ground (arith, e); length_lt = w.length_lt })
            (sym (drop-drop b.offset amount b.stored)))
        (λ e. few))

-- Whether the calls come to their end, and which bytes are then available, is as for the list of the
-- available bytes, when no length and no amount reaches 2 ^ 63.
pub run-run_list :
    (calls : List Call) (b : ByteBuffer)
    → IsBuffer b (appended calls)
    → All IsShort calls
    → Option.map bytes_of (run calls b) ≡ run_list calls (bytes_of b)
unfolding run run_list reset compact bytes_of Option.bind
run-run_list [] b w h = refl
run-run_list (appends bytes ∷ calls) b w h =
    run-run_list calls (append_bytes bytes b) (append_bytes-IsBuffer bytes b (appended calls) w) h.1
    ∙ ap (run_list calls) (append_bytes-bytes_of bytes b w.offset_le)
run-run_list (advances amount ∷ calls) b w h =
    advance-bytes_of amount (appended calls) b
      (λ o o'. Option.map bytes_of (Option.bind o (run calls)) ≡ Option.bind o' (run_list calls)) w
      h.0 (λ b' w' e. run-run_list calls b' w' h.1 ∙ ap (run_list calls) e) refl
run-run_list (compacts ∷ calls) b w h =
    run-run_list calls (compact b) (make_room-IsBuffer 0 b (appended calls) w) h.1
    ∙ ap (run_list calls) (make_room-bytes_of 0 b)
run-run_list (resets ∷ calls) b w h =
    run-run_list calls (reset b)
      (record { offset_le = omega arith; length_lt = omega (arith, w.length_lt) }) h.1

shifted :
    (start offset : ℕ) (o : Option ℕ)
    → Option.map (λ found. start + offset + found - offset) o
      ≡ Option.map (λ found. start + found) o
shifted start offset none = refl
shifted start offset (some found) = ap some (omega arith)

add_swap : (m n : ℕ) → m + n ≡ n + m
add_swap m n = omega arith

-- A search in the buffer finds what a search in the available bytes finds.
pub search_for-bytes_of :
    (range_of : Bytes → Bytes → Option ℕ) (pattern : Bytes) (start : ℕ) (b : ByteBuffer)
    → search_for range_of pattern start b
      ≡ Option.map (λ found. start + found) (range_of pattern (drop start (bytes_of b)))
unfolding search_for bytes_of
search_for-bytes_of range_of pattern start b =
    shifted start b.offset (range_of pattern (drop (start + b.offset) b.stored))
    ∙ ap (λ bytes. Option.map (λ found. start + found) (range_of pattern bytes))
        (ap (λ k. drop k b.stored) (add_swap start b.offset)
          ∙ sym (drop-drop b.offset start b.stored))
