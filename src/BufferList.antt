-- ===== src/BufferList.antt =====
-- `SFB::CABufferList`, of SFBCABufferList.cpp and include/SFBCABufferList.hpp in
-- Sources/CXXAudioUtilities: a list of audio buffers with a format, a capacity and a length in
-- frames. An access out of bounds or through a null pointer makes the result `none`; the two
-- buffer lists of an insertion are different objects, with memory of their own.
pub mod Channels
pub mod Frames
pub mod Ends
pub mod Silence
pub mod Trim
pub mod Insert
pub mod Calls
pub mod Joining
pub mod Allocation
pub mod Inference
use cxxaudio_utilities.Base.{
  ℕ, zero, suc, ◌+◌, ◌-◌, ◌*◌, ◌/◌, ◌%◌, Bool, true, false, not, ◌&&◌, ◌||◌, Option, none, some,
  List, [], ◌∷◌, length, take, drop, replicate, min, ltb, ◌==◌, if◌then◌else◌, add32, sub32, mul32,
  u32_mod, ◌>>=◌, memcpy, memset_zero,
}
use cxxaudio_utilities.StreamDescription.{
  StreamDescription, zeroed, equal, Constants, is_float, is_signed_integer, channel_stream_count,
  interleaved_channel_count, frame_count_to_byte_size,
}

-- `AudioBuffer`; `memory` is what `mData` points to, up to the end of the buffer's memory.
pub record AudioBuffer : Type 0 where
  pub number_channels : ℕ
  pub data_byte_size : ℕ
  pub memory : List ℕ

-- The private members; `list` is the `AudioBufferList` that `mBufferList` points to.
pub record BufferList : Type 0 where
  pub list : Option (List AudioBuffer)
  pub format : StreamDescription
  pub frame_capacity : ℕ
  pub frame_length : ℕ

abbrev pub empty : BufferList
empty = record { list = none; format = zeroed; frame_capacity = 0; frame_length = 0 }

-- `offsetof(AudioBufferList, mBuffers)` and `sizeof(AudioBuffer)`.
pub record Layout : Type 0 where
  pub header_size : ℕ
  pub buffer_size : ℕ

-- The buffers of one allocation, from number `i` on: the products are 32-bit ones.
pub buffers_from : List ℕ → ℕ → ℕ → ℕ → ℕ → ℕ → List AudioBuffer
buffers_from allocation list_size data_size channels zero i = []
buffers_from allocation list_size data_size channels (suc left) i =
    record {
      number_channels = channels;
      data_byte_size = data_size;
      memory = take data_size (drop (list_size + mul32 data_size i) allocation);
    }
    ∷ buffers_from allocation list_size data_size channels left (i + 1)

-- The size that is asked of `malloc`.
pub allocation_size : Constants → Layout → StreamDescription → ℕ → ℕ
allocation_size k layout format frame_capacity =
    layout.header_size
    + layout.buffer_size * channel_stream_count k format
    + mul32 (frame_count_to_byte_size format frame_capacity) (channel_stream_count k format)

-- `AllocateAudioBufferList`; `malloc n` says whether `n` bytes are to be had.
unfoldable pub allocate_audio_buffer_list :
    Constants → Layout → (ℕ → Bool) → StreamDescription → ℕ → Option (List AudioBuffer)
allocate_audio_buffer_list k layout malloc format frame_capacity =
    if (format.bytes_per_frame == 0) || ltb ((u32_mod - 1) / format.bytes_per_frame) frame_capacity
    then none
    else (let size = allocation_size k layout format frame_capacity in
        if malloc size
        then some (
            buffers_from (replicate size 0)
              (layout.header_size + layout.buffer_size * channel_stream_count k format)
              (frame_count_to_byte_size format frame_capacity) (interleaved_channel_count k format)
              (channel_stream_count k format) 0)
        else none)

unfoldable pub deallocate : BufferList → BufferList
deallocate b = elim b.list [ none ↦ b | some _ ↦ empty ]

unfoldable pub allocate :
    Constants → Layout → (ℕ → Bool) → BufferList → StreamDescription → ℕ → Bool × BufferList
allocate k layout malloc b format frame_capacity =
    let d = deallocate b in
    elim (allocate_audio_buffer_list k layout malloc format frame_capacity) [
      | none ↦ (false, record d { list = none })
      | some bufs ↦ (
        true,
        record {
          list = some bufs;
          format = format;
          frame_capacity = frame_capacity;
          frame_length = 0;
        },
      )
    ]

-- The move constructor: the new object, and what is left of the old one.
unfoldable pub move_from : BufferList → BufferList × BufferList
move_from rhs = (rhs, empty)

abbrev set_size : ℕ → AudioBuffer → AudioBuffer
set_size n a = record a { data_byte_size = n }

unfoldable pub set_sizes : ℕ → List AudioBuffer → List AudioBuffer
set_sizes n [] = []
set_sizes n (a ∷ as') = set_size n a ∷ set_sizes n as'

unfoldable pub set_frame_length : BufferList → ℕ → Bool × BufferList
set_frame_length b frame_length = elim b.list [
  | none ↦ (false, b)
  | some bufs ↦ if ltb b.frame_capacity frame_length then (false, b) else (
    true,
    record b {
      list = some (set_sizes (mul32 frame_length b.format.bytes_per_frame) bufs);
      frame_length = frame_length;
    },
  )
]

-- `Reset` and `Clear`.
unfoldable pub reset : BufferList → Bool × BufferList
reset b = set_frame_length b b.frame_capacity

unfoldable pub clear : BufferList → Bool × BufferList
clear b = set_frame_length b 0

-- A loop over the buffers that may fault.
pub each : (AudioBuffer → Option AudioBuffer) → List AudioBuffer → Option (List AudioBuffer)
each f [] = some []
each f (a ∷ as') = do a' ← f a; rest ← each f as'; some (a' ∷ rest)

-- memmove within one buffer, in bytes.
pub move_bytes : ℕ → ℕ → ℕ → AudioBuffer → Option AudioBuffer
move_bytes to from n a = do
  memory' ← memcpy a.memory to a.memory from n
  some (record a { memory = memory' })

pub clear_bytes : ℕ → ℕ → AudioBuffer → Option AudioBuffer
clear_bytes to n a = do memory' ← memset_zero a.memory to n; some (record a { memory = memory' })

-- memcpy into each buffer from the buffer of its number; one that is not there is a fault.
pub copy_each : ℕ → ℕ → ℕ → List AudioBuffer → List AudioBuffer → Option (List AudioBuffer)
copy_each to from n as' [] = some as'
copy_each to from n [] (b ∷ bs) = none
copy_each to from n (a ∷ as') (b ∷ bs) = do
  memory' ← memcpy a.memory to b.memory from n
  rest ← copy_each to from n as' bs
  some (record a { memory = memory' } ∷ rest)

-- The loop over the buffers, if there are frames to move.
pub move_frames : BufferList → ℕ → ℕ → ℕ → Option BufferList
move_frames b to from frames =
    let bpf = b.format.bytes_per_frame in
    if frames == 0 then some b else (do
      bufs ← b.list
      bufs' ← each (move_bytes (mul32 to bpf) (mul32 from bpf) (mul32 frames bpf)) bufs
      some (record b { list = some bufs' }))

-- The end of `InsertFromBuffer`: the copies and the new length, if there are frames to insert.
pub copy_frames : BufferList → BufferList → ℕ → ℕ → ℕ → Option (ℕ × BufferList)
copy_frames b buffer to from n =
    let bpf = b.format.bytes_per_frame in
    if n == 0 then some (0, b) else (do
      bufs ← b.list
      source ← buffer.list
      bufs' ← copy_each (mul32 to bpf) (mul32 from bpf) (mul32 n bpf) bufs source
      some (n, (set_frame_length (record b { list = some bufs' }) (add32 b.frame_length n)).1))

-- The end of `InsertSilence`, in the same way.
pub clear_frames : BufferList → ℕ → ℕ → Option (ℕ × BufferList)
clear_frames b to n =
    let bpf = b.format.bytes_per_frame in
    if n == 0 then some (0, b) else (do
      bufs ← b.list
      bufs' ← each (clear_bytes (mul32 to bpf) (mul32 n bpf)) bufs
      some (n, (set_frame_length (record b { list = some bufs' }) (add32 b.frame_length n)).1))

unfoldable pub insert_from_buffer : BufferList → BufferList → ℕ → ℕ → ℕ → Option (ℕ × BufferList)
insert_from_buffer this buffer read_offset frame_length write_offset =
    let n =
      min (sub32 this.frame_capacity this.frame_length)
        (min frame_length (sub32 buffer.frame_length read_offset)) in
    if not (equal this.format buffer.format)
    then some (0, this)
    else (if ltb buffer.frame_length read_offset
          || (ltb this.frame_length write_offset
              || ((frame_length == 0) || (buffer.frame_length == 0)))
        then some (0, this)
        else (do
          moved ←
              move_frames this (add32 write_offset n) write_offset
                (sub32 this.frame_length write_offset)
          copy_frames moved buffer write_offset read_offset n))

unfoldable pub trim_at_offset : BufferList → ℕ → ℕ → Option (ℕ × BufferList)
trim_at_offset b offset frame_length =
    let n = min frame_length (sub32 b.frame_length offset) in
    if ltb b.frame_length offset || (frame_length == 0) then some (0, b) else (do
      moved ← move_frames b offset (add32 offset n) (sub32 b.frame_length (add32 offset n))
      some (n, (set_frame_length moved (sub32 moved.frame_length n)).1))

unfoldable pub trim_first : BufferList → ℕ → Option (ℕ × BufferList)
trim_first b frame_length = trim_at_offset b 0 frame_length

unfoldable pub trim_last : BufferList → ℕ → ℕ × BufferList
trim_last b frame_length =
    let n = min frame_length b.frame_length in (n, (set_frame_length b (sub32 b.frame_length n)).1)

unfoldable pub insert_silence : Constants → BufferList → ℕ → ℕ → Option (ℕ × BufferList)
insert_silence k b offset frame_length =
    let n = min (sub32 b.frame_capacity b.frame_length) frame_length in
    if not (is_float k b.format || is_signed_integer k b.format)
    then some (0, b)
    else (if ltb b.frame_length offset || (frame_length == 0) then some (0, b) else (do
      moved ← move_frames b (add32 offset n) offset (sub32 b.frame_length offset)
      clear_frames moved offset n))

unfoldable pub adopt_abl :
    BufferList → Option (List AudioBuffer) → StreamDescription → ℕ → ℕ → Bool × BufferList
adopt_abl b none format frame_capacity frame_length = (false, b)
adopt_abl b (some bufs) format frame_capacity frame_length =
    if ltb frame_capacity frame_length then (false, b) else (
      true,
      (set_frame_length
          (record (deallocate b) {
            list = some bufs;
            format = format;
            frame_capacity = frame_capacity;
          })
          frame_length).1,
    )

unfoldable pub relinquish_abl : BufferList → Option (List AudioBuffer) × BufferList
relinquish_abl b = (b.list, empty)
