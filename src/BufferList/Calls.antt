-- ===== src/BufferList/Calls.antt =====
-- The operations of SFBCABufferList.hpp that call those of the parent module, and those of
-- SFBCABufferList.cpp that may throw: a call returns, throws, or, as a `none`, faults.
use cxxaudio_utilities.Base.{
  ℕ, ◌/◌, Bool, true, false, not, ◌&&◌, Option, none, some, List, [], ◌∷◌, ltb, ◌==◌, if◌then◌else◌,
  sub32, Result, thrown, done, invalid_argument, bad_alloc, logic_error,
}
use cxxaudio_utilities.StreamDescription.{StreamDescription, Constants}
use cxxaudio_utilities.BufferList.{
  AudioBuffer, BufferList, empty, Layout, allocate, deallocate, insert_from_buffer, insert_silence,
}

-- The constructor with a format and a capacity.
unfoldable pub construct :
    Constants → Layout → (ℕ → Bool) → StreamDescription → ℕ → Result BufferList
construct k layout malloc format frame_capacity =
    let made = allocate k layout malloc empty format frame_capacity in
    if format.bytes_per_frame == 0
    then thrown invalid_argument
    else (if made.0 then done made.1 else thrown bad_alloc)

-- The move assignment, of two objects: both afterwards. With itself it changes nothing.
unfoldable pub move_assign : BufferList → BufferList → BufferList × BufferList
move_assign this rhs = (
  record (deallocate this) {
    list = rhs.list;
    format = rhs.format;
    frame_capacity = rhs.frame_capacity;
    frame_length = rhs.frame_length;
  },
  empty,
)

-- Whether all buffers have the size of the first one.
unfoldable pub sizes_consistent : ℕ → List AudioBuffer → Bool
sizes_consistent n [] = true
sizes_consistent n (a ∷ as') = (a.data_byte_size == n) && sizes_consistent n as'

-- A list without buffers has no first one, and a division by zero faults.
unfoldable pub infer_frame_length_from_abl : BufferList → Option (Result (Bool × BufferList))
infer_frame_length_from_abl b = elim b.list [
  | none ↦ some (done (false, b))
  | some [] ↦ none
  | some (a ∷ as') ↦
      let frame_length = a.data_byte_size / b.format.bytes_per_frame in
      if not (sizes_consistent a.data_byte_size (a ∷ as'))
      then some (thrown logic_error)
      else (if b.format.bytes_per_frame == 0
          then none
          else (if ltb b.frame_capacity frame_length
              then some (thrown logic_error)
              else some (done (true, record b { frame_length = frame_length }))))
]

unfoldable pub is_empty : BufferList → Bool
is_empty b = b.frame_length == 0

unfoldable pub is_full : BufferList → Bool
is_full b = b.frame_length == b.frame_capacity

unfoldable pub prepend_contents_of_buffer : BufferList → BufferList → Option (ℕ × BufferList)
prepend_contents_of_buffer b buffer = insert_from_buffer b buffer 0 buffer.frame_length 0

-- `PrependFromBuffer` and `AppendFromBuffer` without a number of frames.
unfoldable pub prepend_rest_of_buffer : BufferList → BufferList → ℕ → Option (ℕ × BufferList)
prepend_rest_of_buffer b buffer read_offset =
    if ltb buffer.frame_length read_offset
    then some (0, b)
    else insert_from_buffer b buffer read_offset (sub32 buffer.frame_length read_offset) 0

unfoldable pub prepend_from_buffer : BufferList → BufferList → ℕ → ℕ → Option (ℕ × BufferList)
prepend_from_buffer b buffer read_offset frame_length =
    insert_from_buffer b buffer read_offset frame_length 0

unfoldable pub append_contents_of_buffer : BufferList → BufferList → Option (ℕ × BufferList)
append_contents_of_buffer b buffer =
    insert_from_buffer b buffer 0 buffer.frame_length b.frame_length

unfoldable pub append_rest_of_buffer : BufferList → BufferList → ℕ → Option (ℕ × BufferList)
append_rest_of_buffer b buffer read_offset =
    if ltb buffer.frame_length read_offset
    then some (0, b)
    else insert_from_buffer b buffer read_offset (sub32 buffer.frame_length read_offset)
        b.frame_length

unfoldable pub append_from_buffer : BufferList → BufferList → ℕ → ℕ → Option (ℕ × BufferList)
append_from_buffer b buffer read_offset frame_length =
    insert_from_buffer b buffer read_offset frame_length b.frame_length

unfoldable pub insert_contents_of_buffer : BufferList → BufferList → ℕ → Option (ℕ × BufferList)
insert_contents_of_buffer b buffer write_offset =
    insert_from_buffer b buffer 0 buffer.frame_length write_offset

unfoldable pub fill_remainder_with_silence : Constants → BufferList → Option (ℕ × BufferList)
fill_remainder_with_silence k b =
    insert_silence k b b.frame_length (sub32 b.frame_capacity b.frame_length)

unfoldable pub append_silence : Constants → BufferList → ℕ → Option (ℕ × BufferList)
append_silence k b frame_length = insert_silence k b b.frame_length frame_length
