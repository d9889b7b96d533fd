-- ===== src/AudioRingBuffer/Frames.antt =====
-- What holds of an allocated audio ring buffer between calls. Its positions are those of a ring
-- buffer of as many bytes as it has frames; in the blocks they are multiples of the frame's size.
use native.Mathlib.Nat.{add-mul, mul-le-mul_right, mul-lt-mul_of_pos_right}
use cxxaudio_utilities.Base.{
  ℕ, ◌+◌, ◌-◌, ◌*◌, ◌≤◌, ◌<◌, ◌≡◌, ap, arith, inl, inr, Bool-cases, none, some, List, [], length,
  replicate, ltb, u32_mod,
}
use cxxaudio_utilities.RingBuffer.{RingBuffer, bytes_available_to_read, bytes_available_to_write}
use cxxaudio_utilities.RingBuffer.Invariant.{
  stored, wrap, bytes_available_to_read-eq-stored, bytes_available_to_write-eq-free,
}
use cxxaudio_utilities.RingBuffer.Invariant as Ring
use cxxaudio_utilities.AudioRingBuffer.{
  AudioRingBuffer, frames_available_to_read, frames_available_to_write,
}
use cxxaudio_utilities.AudioRingBuffer.Channels.{AllSized, segments}

-- A ring buffer of bytes with the same positions.
abbrev pub positions : AudioRingBuffer → RingBuffer
positions r = record {
  buffer = some (replicate r.capacity_frames 0);
  capacity_bytes = r.capacity_frames;
  capacity_bytes_mask = r.capacity_frames_mask;
  write_position = r.write_pointer;
  read_position = r.read_pointer;
}

-- There is a block for every channel, of a size that 32 bits hold; the positions are those of a
-- ring buffer.
pub record Holds (r : AudioRingBuffer) (blocks : List (List ℕ)) : Type 0 where
  pub allocated : r.buffers ≡ some blocks
  pub channel_count : length blocks ≡ r.format.channels_per_frame
  pub sized : AllSized (r.capacity_frames * r.format.bytes_per_frame) blocks
  pub placed : Ring.Holds (positions r) (replicate r.capacity_frames 0)
  pub frame_size : 0 < r.format.bytes_per_frame
  pub small : r.capacity_frames * r.format.bytes_per_frame < u32_mod

-- The audio that waits, channel by channel, the oldest byte first.
unfoldable pub channels : AudioRingBuffer → List (List ℕ)
channels r = elim r.buffers [
  | none ↦ []
  | some blocks ↦
      let bpf = r.format.bytes_per_frame in
      segments (r.capacity_frames * bpf) (r.read_pointer * bpf) (stored (positions r) * bpf) blocks
]

module _ {r : AudioRingBuffer} {blocks : List (List ℕ)} (v : Holds r blocks) where
  pub frames_available_to_read-stored : frames_available_to_read r ≡ stored (positions r)
  unfolding frames_available_to_read bytes_available_to_read
  frames_available_to_read-stored = bytes_available_to_read-eq-stored v.placed

  pub frames_available_to_write-free :
      frames_available_to_write r ≡ r.capacity_frames - 1 - stored (positions r)
  unfolding frames_available_to_write bytes_available_to_write
  frames_available_to_write-free = bytes_available_to_write-eq-free v.placed

  pub channels-segments :
      channels r
      ≡ segments
          (r.capacity_frames * r.format.bytes_per_frame)
          (r.read_pointer * r.format.bytes_per_frame)
          (stored (positions r) * r.format.bytes_per_frame)
          blocks
  unfolding channels
  channels-segments = rw v.allocated

-- Multiples of a frame's size.
pub sub-mul_frame : (x y b : ℕ) → x ≤ y → (y - x) * b ≡ y * b - x * b
sub-mul_frame x y b le =
    let split : y - x + x ≡ y = omega arith in
    omega (arith, add-mul (y - x) x b, ap (λ (t : ℕ). t * b) split)

pub wrap-mul : (cap i b : ℕ) → 0 < b → wrap (cap * b) (i * b) ≡ wrap cap i * b
wrap-mul cap i b pos = elim (Bool-cases (ltb i cap)) [
  | inl below ↦
      let lt : i * b < cap * b =
        mul-lt-mul_of_pos_right {m = i} {n = cap} {k = b} (ground arith) pos in
      rw below (ground arith)
  | inr above ↦
      let le : cap ≤ i = ground arith in
      let le' : cap * b ≤ i * b = mul-le-mul_right b le in
      rw above (ground (arith, sub-mul_frame cap i b le))
]
