-- ===== src/CaRingBuffer.antt =====
-- `SFB::CARingBuffer`, of SFBCARingBuffer.cpp and include/SFBCARingBuffer.hpp in
-- Sources/CXXAudioUtilities: a ring buffer of frames that are written and read by their sample
-- time. The blocks of the channels are as in `SFB::AudioRingBuffer`, whose copies `StoreABL` and
-- `FetchABL` the file has too. A time inside the object is not negative, since `Write` refuses one
-- that is, and so is a natural number; a sum of an `int64_t` that overflows makes the result `none`,
-- like an access out of bounds.
pub mod Times
pub mod Timeline
pub mod Silence
pub mod Storing
pub mod Bounds
pub mod Room
pub mod Writing
pub mod Passes
pub mod Fetching
pub mod Heard
pub mod Reading
pub mod Allocation
pub mod Concurrent
use cxxaudio_utilities.Base.{
  ℕ, zero, suc, ◌+◌, ◌-◌, ◌*◌, ◌%◌, ◌^◌, Bool, true, false, ◌||◌, Option, none, some, List, [], ◌∷◌,
  replicate, get_or, bit_and, min, max, ltb, leb, ◌==◌, if◌then◌else◌, add32, sub32, mul32, ◌>>=◌,
  ◌>>◌, check, memset_zero, u32_mod, u64_mod,
}
use cxxaudio_utilities.PowerOfTwo.{next_power_of_two}
use cxxaudio_utilities.StreamDescription.{
  StreamDescription, zeroed, Constants, is_interleaved, channel_stream_count,
}
use cxxaudio_utilities.BufferList.{AudioBuffer, set_sizes}
use cxxaudio_utilities.AudioRingBuffer.{store_abl, fetch_abl, allocation_size}

-- The integers over the native numbers: an argument of type `int64_t`.
pub data ℤ : Type 0 where
  pos : ℕ → ℤ
  negsuc : ℕ → ℤ

-- `TimeBounds`.
pub record TimeBounds : Type 0 where
  pub start_time : ℕ
  pub end_time : ℕ
  pub update_counter : ℕ

abbrev pub no_bounds : TimeBounds
no_bounds = record { start_time = 0; end_time = 0; update_counter = 0 }

abbrev pub time_bounds_queue_size : ℕ
time_bounds_queue_size = 32

abbrev pub time_bounds_queue_mask : ℕ
time_bounds_queue_mask = 31

-- The private members. `mBuffers` points to the blocks.
pub record CaRingBuffer : Type 0 where
  pub format : StreamDescription
  pub buffers : Option (List (List ℕ))
  pub capacity_frames : ℕ
  pub capacity_frames_mask : ℕ
  pub time_bounds_queue : List TimeBounds
  pub time_bounds_queue_counter : ℕ

abbrev pub empty : CaRingBuffer
empty = record {
  format = zeroed;
  buffers = none;
  capacity_frames = 0;
  capacity_frames_mask = 0;
  time_bounds_queue = replicate time_bounds_queue_size no_bounds;
  time_bounds_queue_counter = 0;
}

unfoldable pub deallocate : CaRingBuffer → CaRingBuffer
deallocate r = elim r.buffers [ none ↦ r | some _ ↦ empty ]

-- `pointer_size` is `sizeof(void *)`; `malloc n` says whether `n` bytes are to be had.
unfoldable pub allocate :
    Constants → ℕ → (ℕ → Bool) → CaRingBuffer → StreamDescription → ℕ → Bool × CaRingBuffer
allocate k pointer_size malloc r format capacity_frames =
    let c = next_power_of_two capacity_frames in
    let capacity_bytes = mul32 c format.bytes_per_frame in
    let d = record (deallocate r) {
      format = format;
      capacity_frames = c;
      capacity_frames_mask = sub32 c 1;
    } in
    if is_interleaved k format || (ltb capacity_frames 2 || ltb 0x8000_0000 capacity_frames)
    then (false, r)
    else (if malloc (allocation_size pointer_size format capacity_bytes)
        then (
          true,
          record d {
            buffers = some (replicate format.channels_per_frame (replicate capacity_bytes 0));
            time_bounds_queue = replicate time_bounds_queue_size no_bounds;
            time_bounds_queue_counter = 0;
          },
        )
        else (false, d))

-- The entry of the queue that a counter stands for.
abbrev pub bounds_at : CaRingBuffer → ℕ → TimeBounds
bounds_at r counter = get_or r.time_bounds_queue (bit_and counter time_bounds_queue_mask) no_bounds

abbrev pub start_time : CaRingBuffer → ℕ
start_time r = (bounds_at r r.time_bounds_queue_counter).start_time

abbrev pub end_time : CaRingBuffer → ℕ
end_time r = (bounds_at r r.time_bounds_queue_counter).end_time

abbrev pub set_at : ℕ → TimeBounds → List TimeBounds → List TimeBounds
set_at i b [] = []
set_at zero b (x ∷ xs) = b ∷ xs
set_at (suc i) b (x ∷ xs) = x ∷ set_at i b xs

unfoldable pub set_time_bounds : CaRingBuffer → ℕ → ℕ → CaRingBuffer
set_time_bounds r start_time end_time =
    let next_counter = (r.time_bounds_queue_counter + 1) % u64_mod in
    let next_index = bit_and next_counter time_bounds_queue_mask in
    let next : TimeBounds = record {
      start_time = start_time;
      end_time = end_time;
      update_counter = next_counter;
    } in
    record r {
      time_bounds_queue = set_at next_index next r.time_bounds_queue;
      time_bounds_queue_counter = next_counter;
    }

-- The rounds of the loop, while no other thread writes.
unfoldable pub get_time_bounds_in : ℕ → CaRingBuffer → Option (ℕ × ℕ)
get_time_bounds_in zero r = none
get_time_bounds_in (suc rounds) r =
    let bounds = bounds_at r r.time_bounds_queue_counter in
    let again = get_time_bounds_in rounds r in
    if bounds.update_counter == r.time_bounds_queue_counter
    then some (bounds.start_time, bounds.end_time)
    else again

unfoldable pub get_time_bounds : CaRingBuffer → Option (ℕ × ℕ)
get_time_bounds r = get_time_bounds_in 8 r

-- The clamped start and end, or `none` for `false`.
unfoldable pub clamp_times_to_bounds : CaRingBuffer → ℕ → ℕ → Option (ℕ × ℕ)
clamp_times_to_bounds r start_read end_read = get_time_bounds r >>= λ bounds.
    let start = max start_read bounds.0 in
    if ltb bounds.1 start_read || ltb end_read bounds.0
    then some (start_read, start_read)
    else some (start, max (min end_read bounds.1) start)

unfoldable pub frame_byte_offset : CaRingBuffer → ℕ → ℕ
frame_byte_offset r frame_number =
    bit_and frame_number r.capacity_frames_mask * r.format.bytes_per_frame % u32_mod

unfoldable pub zero_range : List (List ℕ) → ℕ → ℕ → ℕ → Option (List (List ℕ))
zero_range blocks zero byte_offset byte_count = some blocks
zero_range [] (suc left) byte_offset byte_count = none
zero_range (b ∷ bs) (suc left) byte_offset byte_count = do
  b' ← memset_zero b byte_offset byte_count
  bs' ← zero_range bs left byte_offset byte_count
  some (b' ∷ bs')

unfoldable pub zero_abl : List AudioBuffer → ℕ → ℕ → Option (List AudioBuffer)
zero_abl [] byte_offset byte_count = some []
zero_abl (a ∷ as') byte_offset byte_count = do
  check (leb byte_offset a.data_byte_size)
  memory' ← memset_zero a.memory byte_offset (min byte_count (sub32 a.data_byte_size byte_offset))
  rest ← zero_abl as' byte_offset byte_count
  some (record a { memory = memory' } ∷ rest)

-- The first part of `Write`: the bounds give way to the frames from `start` to `end'`.
unfoldable pub make_room : CaRingBuffer → ℕ → ℕ → CaRingBuffer
make_room r start end' =
    if ltb start (end_time r)
    then set_time_bounds r start start
    else (if leb end' (start_time r + r.capacity_frames)
        then r
        else (let new_start = end' - r.capacity_frames in
            set_time_bounds r new_start (max new_start (end_time r))))

-- The second part: the frames that are skipped become silence.
unfoldable pub clear_skipped : Constants → CaRingBuffer → List (List ℕ) → ℕ → Option (List (List ℕ))
clear_skipped k r blocks start =
    let count = channel_stream_count k r.format in
    let offset0 = frame_byte_offset r (end_time r) in
    let offset1 = frame_byte_offset r start in
    if ltb (end_time r) start
    then (if ltb offset0 offset1
        then zero_range blocks count offset0 (sub32 offset1 offset0)
        else (do
          blocks' ←
              zero_range blocks count offset0
                (sub32 (mul32 r.capacity_frames r.format.bytes_per_frame) offset0)
          zero_range blocks' count 0 offset1))
    else some blocks

-- The third part: the frames are stored.
unfoldable pub store_frames :
    CaRingBuffer → List (List ℕ) → List AudioBuffer → ℕ → ℕ → Option (List (List ℕ))
store_frames r blocks list start end' =
    let offset0 = frame_byte_offset r start in
    let offset1 = frame_byte_offset r end' in
    if ltb offset0 offset1 then store_abl blocks offset0 list 0 (sub32 offset1 offset0) else (do
      let byte_count = sub32 (mul32 r.capacity_frames r.format.bytes_per_frame) offset0
      blocks' ← store_abl blocks offset0 list 0 byte_count
      store_abl blocks' 0 list byte_count offset1)

-- An `int64_t` sum of a time and a number of frames.
abbrev pub after : ℕ → ℕ → Option ℕ
after time frames = if ltb (time + frames) (2 ^ 63) then some (time + frames) else none

unfoldable pub write :
    Constants → CaRingBuffer → Option (List AudioBuffer) → ℕ → ℤ → Option (Bool × CaRingBuffer)
write k r none frame_count start = some (frame_count == 0, r)
write k r (some list) frame_count (negsuc n) = some (frame_count == 0, r)
write k r (some list) frame_count (pos start) =
    if frame_count == 0
    then some (true, r)
    else (if ltb r.capacity_frames frame_count then some (false, r) else (do
      end' ← after start frame_count
      blocks ← r.buffers
      let room = make_room r start end'
      blocks' ← clear_skipped k room blocks start
      blocks'' ← store_frames room blocks' list start end'
      some
          (true, set_time_bounds (record room { buffers = some blocks'' }) (start_time room) end')))

-- The part of `Read` that leaves silence around the frames from `start` to `end'`, of those from
-- `start0` to `end0` asked for. The numbers are bytes.
unfoldable pub clear_around :
    CaRingBuffer → List AudioBuffer → ℕ → ℕ → ℕ → ℕ → ℕ → Option (List AudioBuffer)
clear_around r list frame_count start0 end0 start end' =
    let bpf = r.format.bytes_per_frame in
    let byte_size = mul32 ((end' - start) % u32_mod) bpf in
    let dest_start = (start - start0) * bpf % u32_mod in
    let dest_end_size = (end0 - end') % u32_mod in
    (if ltb 0 dest_start
      then zero_abl list 0 (min (mul32 frame_count bpf) dest_start)
      else some list)
    >>= λ list'.
        if ltb 0 dest_end_size
        then zero_abl list' (add32 dest_start byte_size) (mul32 dest_end_size bpf)
        else some list'

-- The part that fetches the frames from `start` to `end'`: the list, and the number of bytes.
unfoldable pub fetch_frames :
    CaRingBuffer → List (List ℕ) → List AudioBuffer → ℕ → ℕ → ℕ → Option (List AudioBuffer × ℕ)
fetch_frames r blocks list dest_start start end' =
    let offset0 = frame_byte_offset r start in
    let offset1 = frame_byte_offset r end' in
    if ltb offset0 offset1
    then (do
      let byte_count = sub32 offset1 offset0
      list' ← fetch_abl list dest_start blocks offset0 byte_count
      some (list', byte_count))
    else (do
      let byte_count = sub32 (mul32 r.capacity_frames r.format.bytes_per_frame) offset0
      list' ← fetch_abl list dest_start blocks offset0 byte_count
      list'' ← fetch_abl list' (add32 dest_start byte_count) blocks 0 offset1
      some (list'', add32 byte_count offset1))

-- The rest of `Read` once its times are clamped.
unfoldable pub read_clamped :
    CaRingBuffer
    → List AudioBuffer
    → ℕ
    → ℕ
    → ℕ
    → Option (ℕ × ℕ)
    → Option (Bool × Option (List AudioBuffer))
read_clamped r list frame_count start0 end0 none = some (false, some list)
read_clamped r list frame_count start0 end0 (some (start, end')) =
    let bpf = r.format.bytes_per_frame in
    if start == end'
    then (zero_abl list 0 (mul32 frame_count bpf) >>= λ list'. some (true, some list'))
    else (clear_around r list frame_count start0 end0 start end' >>= λ cleared.
        r.buffers >>= λ blocks.
        fetch_frames r blocks cleared ((start - start0) * bpf % u32_mod) start end' >>= λ f.
        some (true, some (set_sizes f.1 f.0)))

unfoldable pub read :
    CaRingBuffer → Option (List AudioBuffer) → ℕ → ℤ → Option (Bool × Option (List AudioBuffer))
read r none frame_count start = some (frame_count == 0, none)
read r (some list) frame_count (negsuc n) = some (frame_count == 0, some list)
read r (some list) frame_count (pos start0) =
    if frame_count == 0
    then some (true, some list)
    else (if ltb r.capacity_frames frame_count then some (false, some list) else (do
      end0 ← after start0 frame_count
      read_clamped r list frame_count start0 end0 (clamp_times_to_bounds r start0 end0)))
