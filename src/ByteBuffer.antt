-- ===== src/ByteBuffer.antt =====
-- Source/CBLByteBuffer.h and CBLByteBuffer.m: a queue of bytes in an array with an offset. A failed
-- assertion is `none`; lengths are of type NSUInteger, which wraps around at 2 ^ 64. `range_of` is the
-- search of NSData for the first occurrence of a byte string, `none` where there is none.
pub mod Contents
use couchbase_lite_ios.Base.{
  ℕ, ◌+◌, ◌-◌, ◌/◌, ◌%◌, ◌^◌, max, Bool, ◌&&◌, Option, none, some, [], ◌++◌, ltb, leb,
  if◌then◌else◌, length, take, drop,
}
use couchbase_lite_ios.Base.Bytes.{Bytes}
use mathlib.Core.Option

pub record ByteBuffer : Type 0 where
  pub stored : Bytes
  pub offset : ℕ
  pub capacity : ℕ

abbrev pub initial_capacity : ℕ
initial_capacity = 32768

abbrev pub compaction_length : ℕ
compaction_length = 4096

unfoldable pub init : ByteBuffer
init = record { stored = []; offset = 0; capacity = initial_capacity }

unfoldable pub bytes_available : ByteBuffer → ℕ
bytes_available b = length b.stored - b.offset

unfoldable pub has_bytes_available : ByteBuffer → Bool
has_bytes_available b = ltb b.offset (length b.stored)

unfoldable pub advance : ℕ → ByteBuffer → Option ByteBuffer
advance amount b =
    if leb ((b.offset + amount) % 2 ^ 64) (length b.stored)
    then some (record b { offset = (b.offset + amount) % 2 ^ 64 })
    else none

-- The bytes slide down in the array, or into a new one.
unfoldable pub make_room : ℕ → ByteBuffer → ByteBuffer
unfolding bytes_available
make_room amount b =
    let new_length = bytes_available b + amount in
    if ltb compaction_length b.offset && ltb (length b.stored / 2) b.offset
    then record {
      stored = drop b.offset b.stored;
      offset = 0;
      capacity = if leb new_length b.capacity then b.capacity else new_length + 1024;
    }
    else b

unfoldable pub append_bytes : Bytes → ByteBuffer → ByteBuffer
unfolding make_room
append_bytes bytes b =
    let room = make_room (length bytes) b in
    record room {
      stored = room.stored ++ bytes;
      capacity = max room.capacity (length (room.stored ++ bytes));
    }

unfoldable pub compact : ByteBuffer → ByteBuffer
unfolding make_room
compact b = make_room 0 b

unfoldable pub reset : ByteBuffer → ByteBuffer
reset b = record b { stored = []; offset = 0 }

-- `bytes` and `mutableBytes`, up to the end of the array
unfoldable pub bytes_of : ByteBuffer → Bytes
bytes_of b = drop b.offset b.stored

unfoldable pub data_of : ByteBuffer → Option Bytes
unfolding has_bytes_available bytes_of
data_of b = if has_bytes_available b then some (bytes_of b) else none

unfoldable pub subdata : ℕ → ℕ → ByteBuffer → Option Bytes
unfolding bytes_available
subdata location len b =
    if leb (location + len) (bytes_available b)
    then some (take len (drop (b.offset + location) b.stored))
    else none

unfoldable pub search_for : (Bytes → Bytes → Option ℕ) → Bytes → ℕ → ByteBuffer → Option ℕ
search_for range_of pattern start b =
    Option.map (λ found. start + b.offset + found - b.offset)
      (range_of pattern (drop (start + b.offset) b.stored))

-- The methods of the header, on a state `B`.
pub record ByteQueue (B : Type 0) : Type 0 where
  pub advance : ℕ → B → Option B
  pub has_bytes_available : B → Bool
  pub bytes_available : B → ℕ
  pub append_data : Bytes → B → B
  pub append_bytes : Bytes → B → B
  pub reset : B → B
  pub bytes : B → Bytes
  pub mutable_bytes : B → Bytes
  pub data_of : B → Option Bytes
  pub subdata : ℕ → ℕ → B → Option Bytes
  pub search_for : Bytes → ℕ → B → Option ℕ

unfoldable pub byte_buffer : (range_of : Bytes → Bytes → Option ℕ) → ByteQueue ByteBuffer
byte_buffer range_of = record {
  advance = advance;
  has_bytes_available = has_bytes_available;
  bytes_available = bytes_available;
  append_data = append_bytes;
  append_bytes = append_bytes;
  reset = reset;
  bytes = bytes_of;
  mutable_bytes = bytes_of;
  data_of = data_of;
  subdata = subdata;
  search_for = search_for range_of;
}
