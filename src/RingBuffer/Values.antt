-- ===== src/RingBuffer/Values.antt =====
-- The typed transfers of include/SFBRingBuffer.hpp, and the vectors of SFBRingBuffer.cpp that
-- they use. A trivially copyable value is the block of its bytes.
pub mod Single
pub mod Vectors
pub mod Reads
pub mod Writes
pub mod Split
use cxxaudio_utilities.Base.{
  ℕ, ◌+◌, ◌%◌, Bool, true, false, Option, none, some, List, [], ◌∷◌, length, min, bit_and, ltb,
  ◌==◌, if◌then◌else◌, add32, sub32, u32_mod, ◌>>=◌, memcpy,
}
use cxxaudio_utilities.RingBuffer.{
  RingBuffer, bytes_available_to_read, bytes_available_to_write, advance_read_position,
  advance_write_position, peek, read, write,
}

-- The value after a transfer; the destination of a value is never null.
abbrev pub block_or : Option (List ℕ) → List ℕ → List ℕ
block_or none value = value
block_or (some value') value = value'

-- `ReadValue(T&)`: whether it was read, the value, and the object.
unfoldable pub read_value : RingBuffer → List ℕ → Option (Bool × List ℕ × RingBuffer)
read_value r value = do
  (n, value', r') ← read r (some value) (length value % u32_mod) false
  some (n == length value % u32_mod, block_or value' value, r')

-- `ReadValue()`, where `initial` is `T{}`.
unfoldable pub read_value? : RingBuffer → List ℕ → Option (Option (List ℕ) × RingBuffer)
read_value? r initial = do
  (ok, value, r') ← read_value r initial
  some (if ok then some value else none, r')

unfoldable pub peek_value : RingBuffer → List ℕ → Option (Bool × List ℕ)
peek_value r value = do
  (n, value') ← peek r (some value) (length value % u32_mod) false
  some (n == length value % u32_mod, block_or value' value)

unfoldable pub peek_value? : RingBuffer → List ℕ → Option (Option (List ℕ))
peek_value? r initial = do
  (ok, value) ← peek_value r initial
  some (if ok then some value else none)

unfoldable pub write_value : RingBuffer → List ℕ → Option (Bool × RingBuffer)
write_value r value = do
  (n, r') ← write r (some value) (length value % u32_mod) false
  some (n == length value % u32_mod, r')

-- `ReadBuffer` and `WriteBuffer`: an index into the block, or a null pointer, and a size.
pub record Span : Type 0 where
  pub location : Option ℕ
  pub size : ℕ

-- The common text of `ReadVector` and `WriteVector`, at a position and a number of bytes.
unfoldable pub vector : RingBuffer → ℕ → ℕ → Span × Span
vector r position bytes_available =
    let end_of_run = add32 position bytes_available in
    if ltb r.capacity_bytes end_of_run
    then (
      record { location = some position; size = sub32 r.capacity_bytes position },
      record { location = some 0; size = bit_and end_of_run r.capacity_bytes },
    )
    else (
      record { location = some position; size = bytes_available },
      record { location = none; size = 0 },
    )

unfoldable pub read_vector : RingBuffer → Span × Span
read_vector r = vector r r.read_position (bytes_available_to_read r)

unfoldable pub write_vector : RingBuffer → Span × Span
write_vector r = vector r r.write_position (bytes_available_to_write r)

-- `(sizeof(args) + ...)`.
abbrev pub total_size : List (List ℕ) → ℕ
total_size [] = 0
total_size (a ∷ as') = length a + total_size as'

-- The second copy of a value that is read: to its start, like the first.
unfoldable pub value_out_second : List ℕ → Span → Span → ℕ → List ℕ → ℕ → Option (List ℕ × ℕ)
value_out_second m first second bytes_read value bytes_remaining =
    if ltb 0 bytes_remaining
    then (do
      s ← second.location
      value' ← memcpy value 0 m (s + sub32 bytes_read first.size) bytes_remaining
      some (value', add32 bytes_read bytes_remaining))
    else some (value, bytes_read)

-- One round of the fold of `ReadValues`: the value, and the number of bytes read so far.
unfoldable pub value_out : List ℕ → Span → Span → ℕ → List ℕ → Option (List ℕ × ℕ)
value_out m first second bytes_read value =
    let size = length value % u32_mod in
    let n = min size (sub32 first.size bytes_read) in
    if ltb bytes_read first.size
    then (do
      f ← first.location
      value' ← memcpy value 0 m (f + bytes_read) n
      value_out_second m first second (add32 bytes_read n) value' (sub32 size n))
    else value_out_second m first second bytes_read value size

unfoldable pub values_out : List ℕ → Span → Span → ℕ → List (List ℕ) → Option (List (List ℕ) × ℕ)
values_out m first second bytes_read [] = some ([], bytes_read)
values_out m first second bytes_read (a ∷ as') = do
  (a', n) ← value_out m first second bytes_read a
  (as'', n') ← values_out m first second n as'
  some (a' ∷ as'', n')

unfoldable pub read_values : RingBuffer → List (List ℕ) → Option (Bool × List (List ℕ) × RingBuffer)
read_values r args =
    let (first, second) = read_vector r in
    if ltb (add32 first.size second.size) (total_size args % u32_mod)
    then some (false, args, r)
    else (do
      m ← r.buffer
      (args', n) ← values_out m first second 0 args
      some (true, args', advance_read_position r n))

-- The second copy of a value that is written: from its start, like the first.
unfoldable pub value_in_second : List ℕ → Span → Span → ℕ → List ℕ → ℕ → Option (List ℕ × ℕ)
value_in_second m first second bytes_written value bytes_remaining =
    if ltb 0 bytes_remaining
    then (do
      s ← second.location
      m' ← memcpy m (s + sub32 bytes_written first.size) value 0 bytes_remaining
      some (m', add32 bytes_written bytes_remaining))
    else some (m, bytes_written)

-- One round of the fold of `WriteValues`: the block, and the number of bytes written so far.
unfoldable pub value_in : List ℕ → Span → Span → ℕ → List ℕ → Option (List ℕ × ℕ)
value_in m first second bytes_written value =
    let size = length value % u32_mod in
    let n = min size (sub32 first.size bytes_written) in
    if ltb bytes_written first.size
    then (do
      f ← first.location
      m' ← memcpy m (f + bytes_written) value 0 n
      value_in_second m' first second (add32 bytes_written n) value (sub32 size n))
    else value_in_second m first second bytes_written value size

unfoldable pub values_in : List ℕ → Span → Span → ℕ → List (List ℕ) → Option (List ℕ × ℕ)
values_in m first second bytes_written [] = some (m, bytes_written)
values_in m first second bytes_written (a ∷ as') = do
  (m', n) ← value_in m first second bytes_written a
  values_in m' first second n as'

unfoldable pub write_values : RingBuffer → List (List ℕ) → Option (Bool × RingBuffer)
write_values r args =
    let (first, second) = write_vector r in
    if ltb (add32 first.size second.size) (total_size args % u32_mod) then some (false, r) else (do
      m ← r.buffer
      (m', n) ← values_in m first second 0 args
      some (true, advance_write_position (record r { buffer = some m' }) n))
