-- ===== src/AudioRingBuffer.antt =====
-- `SFB::AudioRingBuffer`, of SFBAudioRingBuffer.cpp and include/SFBAudioRingBuffer.hpp in
-- Sources/CXXAudioUtilities: a ring buffer of frames with a block of bytes for every channel. The
-- blocks are parts of one allocation; here each is one of its own, and an access outside of it, one
-- through a null pointer, or an assertion that fails makes the result `none`. A transfer of frames
-- without blocks counts as such an access.
pub mod Channels
pub mod Fronts
pub mod Frames
pub mod Copies
pub mod Advance
pub mod Transfer
pub mod Refine
pub mod Allocation
use cxxaudio_utilities.Base.{
  ℕ, ◌+◌, ◌*◌, Bool, true, false, not, ◌&&◌, ◌||◌, Option, none, some, List, [], ◌∷◌, replicate,
  bit_and, min, ltb, leb, ◌==◌, if◌then◌else◌, add32, sub32, mul32, ◌>>=◌, ◌>>◌, check, memcpy,
  u64_mod, ◌%◌,
}
use cxxaudio_utilities.PowerOfTwo.{next_power_of_two}
use cxxaudio_utilities.StreamDescription.{StreamDescription, zeroed, Constants, is_interleaved}
use cxxaudio_utilities.BufferList.{AudioBuffer, set_sizes}

-- Both copies of a transfer between the blocks of the channels and the buffers of a list, as
-- SFBCARingBuffer.cpp defines them too: one block for each buffer, of its size at most.
unfoldable pub store_abl : List (List ℕ) → ℕ → List AudioBuffer → ℕ → ℕ → Option (List (List ℕ))
store_abl blocks dst_offset [] src_offset byte_count = some blocks
store_abl [] dst_offset (a ∷ as') src_offset byte_count = none
store_abl (b ∷ bs) dst_offset (a ∷ as') src_offset byte_count = do
  check (leb src_offset a.data_byte_size)
  b' ← memcpy b dst_offset a.memory src_offset (min byte_count (sub32 a.data_byte_size src_offset))
  bs' ← store_abl bs dst_offset as' src_offset byte_count
  some (b' ∷ bs')

unfoldable pub fetch_abl : List AudioBuffer → ℕ → List (List ℕ) → ℕ → ℕ → Option (List AudioBuffer)
fetch_abl [] dst_offset blocks src_offset byte_count = some []
fetch_abl (a ∷ as') dst_offset [] src_offset byte_count = none
fetch_abl (a ∷ as') dst_offset (b ∷ bs) src_offset byte_count = do
  check (leb dst_offset a.data_byte_size)
  memory' ←
      memcpy a.memory dst_offset b src_offset (min byte_count (sub32 a.data_byte_size dst_offset))
  rest ← fetch_abl as' dst_offset bs src_offset byte_count
  some (record a { memory = memory' } ∷ rest)

-- The private members. `mBuffers` points to the blocks.
pub record AudioRingBuffer : Type 0 where
  pub buffers : Option (List (List ℕ))
  pub format : StreamDescription
  pub capacity_frames : ℕ
  pub capacity_frames_mask : ℕ
  pub write_pointer : ℕ
  pub read_pointer : ℕ

abbrev pub empty : AudioRingBuffer
empty = record {
  buffers = none;
  format = zeroed;
  capacity_frames = 0;
  capacity_frames_mask = 0;
  write_pointer = 0;
  read_pointer = 0;
}

unfoldable pub deallocate : AudioRingBuffer → AudioRingBuffer
deallocate r = elim r.buffers [ none ↦ r | some _ ↦ empty ]

-- `pointer_size` is `sizeof(void *)`; `malloc n` says whether `n` bytes are to be had.
unfoldable pub allocation_size : ℕ → StreamDescription → ℕ → ℕ
allocation_size pointer_size format capacity_bytes =
    (capacity_bytes + pointer_size) * format.channels_per_frame % u64_mod

unfoldable pub allocate :
    Constants → ℕ → (ℕ → Bool) → AudioRingBuffer → StreamDescription → ℕ → Bool × AudioRingBuffer
allocate k pointer_size malloc r format capacity_frames =
    let c = next_power_of_two capacity_frames in
    let capacity_bytes = mul32 c format.bytes_per_frame in
    let d = record (deallocate r) {
      format = format;
      capacity_frames = c;
      capacity_frames_mask = sub32 c 1;
    } in
    if is_interleaved k format || (ltb capacity_frames 2 || ltb 0x8000_0000 capacity_frames)
    then (false, r)
    else (if malloc (allocation_size pointer_size format capacity_bytes)
        then (
          true,
          record d {
            buffers = some (replicate format.channels_per_frame (replicate capacity_bytes 0));
            read_pointer = 0;
            write_pointer = 0;
          },
        )
        else (false, d))

unfoldable pub reset : AudioRingBuffer → AudioRingBuffer
reset r = record r { read_pointer = 0; write_pointer = 0 }

-- The same lines open `Read`.
unfoldable pub frames_available_to_read : AudioRingBuffer → ℕ
frames_available_to_read r =
    if ltb r.read_pointer r.write_pointer
    then sub32 r.write_pointer r.read_pointer
    else bit_and (add32 (sub32 r.write_pointer r.read_pointer) r.capacity_frames)
        r.capacity_frames_mask

-- The same lines open `Write`.
unfoldable pub frames_available_to_write : AudioRingBuffer → ℕ
frames_available_to_write r =
    if ltb r.read_pointer r.write_pointer
    then sub32
        (bit_and (add32 (sub32 r.read_pointer r.write_pointer) r.capacity_frames)
          r.capacity_frames_mask)
        1
    else (if ltb r.write_pointer r.read_pointer
        then sub32 (sub32 r.read_pointer r.write_pointer) 1
        else sub32 r.capacity_frames 1)

-- The second early return of `Read` and `Write`.
unfoldable pub refuses : ℕ → ℕ → Bool → Bool
refuses frames_available frame_count allow_partial =
    (frames_available == 0) || (ltb frames_available frame_count && not allow_partial)

-- The copies of `Read`.
unfoldable pub copy_out :
    AudioRingBuffer → List (List ℕ) → List AudioBuffer → ℕ → Option (List AudioBuffer)
copy_out r blocks list n =
    let bpf = r.format.bytes_per_frame in
    if ltb r.capacity_frames (add32 r.read_pointer n)
    then (do
      let frames = sub32 r.capacity_frames r.read_pointer
      let bytes = mul32 frames bpf
      list' ← fetch_abl list 0 blocks (mul32 r.read_pointer bpf) bytes
      fetch_abl list' bytes blocks 0 (mul32 (sub32 n frames) bpf))
    else fetch_abl list 0 blocks (mul32 r.read_pointer bpf) (mul32 n bpf)

-- The copies of `Write`.
unfoldable pub copy_in :
    AudioRingBuffer → List (List ℕ) → List AudioBuffer → ℕ → Option (List (List ℕ))
copy_in r blocks list n =
    let bpf = r.format.bytes_per_frame in
    if ltb r.capacity_frames (add32 r.write_pointer n)
    then (do
      let frames = sub32 r.capacity_frames r.write_pointer
      let bytes = mul32 frames bpf
      blocks' ← store_abl blocks (mul32 r.write_pointer bpf) list 0 bytes
      store_abl blocks' 0 list bytes (mul32 (sub32 n frames) bpf))
    else store_abl blocks (mul32 r.write_pointer bpf) list 0 (mul32 n bpf)

-- The number of frames read, the buffer list, which may be null, and the object.
unfoldable pub read :
    AudioRingBuffer
    → Option (List AudioBuffer)
    → ℕ
    → Bool
    → Option (ℕ × Option (List AudioBuffer) × AudioRingBuffer)
read r none frame_count allow_partial = some (0, none, r)
read r (some list) frame_count allow_partial =
    let available = frames_available_to_read r in
    let n = min available frame_count in
    if (frame_count == 0) || refuses available frame_count allow_partial
    then some (0, some list, r)
    else (do
      blocks ← r.buffers
      list' ← copy_out r blocks list n
      some (
        n,
        some (set_sizes (mul32 n r.format.bytes_per_frame) list'),
        record r { read_pointer = bit_and (add32 r.read_pointer n) r.capacity_frames_mask },
      ))

unfoldable pub write :
    AudioRingBuffer → Option (List AudioBuffer) → ℕ → Bool → Option (ℕ × AudioRingBuffer)
write r none frame_count allow_partial = some (0, r)
write r (some list) frame_count allow_partial =
    let available = frames_available_to_write r in
    let n = min available frame_count in
    if (frame_count == 0) || refuses available frame_count allow_partial then some (0, r) else (do
      blocks ← r.buffers
      blocks' ← copy_in r blocks list n
      some (
        n,
        record r {
          buffers = some blocks';
          write_pointer = bit_and (add32 r.write_pointer n) r.capacity_frames_mask;
        },
      ))
