-- ===== src/AudioRingBuffer/Allocation.antt =====
-- How `Allocate` of the audio ring buffer ends.
use native.Mathlib.Nat.{zero-mul}
use cxxaudio_utilities.Base.{
  ℕ, zero, suc, ◌*◌, ◌≤◌, ◌<◌, ◌≡◌, refl, ap, ◌∙◌, arith, ◌⊎◌, inl, inr, Bool, Bool-cases, true,
  false, ◌||◌, Option-cases, none, some, List, [], ◌∷◌, replicate, length-replicate, ltb, mul32,
  sub32, u32_mod,
}
use cxxaudio_utilities.PowerOfTwo.{next_power_of_two}
use cxxaudio_utilities.PowerOfTwo.Laws.{IsNextPower, next_power_of_two-IsNextPower}
use cxxaudio_utilities.StreamDescription.{StreamDescription, Constants, is_interleaved}
use cxxaudio_utilities.RingBuffer.Copies.{length-segment}
use cxxaudio_utilities.AudioRingBuffer.{
  AudioRingBuffer, allocate, deallocate, reset, allocation_size,
}
use cxxaudio_utilities.AudioRingBuffer.Channels.{AllSized, segments}
use cxxaudio_utilities.AudioRingBuffer.Frames.{Holds, channels, channels-segments}

deallocate-none : (r : AudioRingBuffer) → (deallocate r).buffers ≡ none
unfolding deallocate
deallocate-none r = elim (Option-cases r.buffers) [ inl e ↦ rw e refl | inr (bs, e) ↦ rw e refl ]

pub replicate-AllSized : (n size : ℕ) → AllSized size (replicate n (replicate size 0))
replicate-AllSized zero size = tt
replicate-AllSized (suc n) size = (length-replicate size 0, replicate-AllSized n size)

pub segments_nothing :
    (cap p n size : ℕ) → segments cap p 0 (replicate n (replicate size 0)) ≡ replicate n []
segments_nothing cap p zero size = refl
segments_nothing cap p (suc n) size = ap (◌∷◌ []) (segments_nothing cap p n size)

module _ (k : Constants) (pointer_size : ℕ) (malloc : ℕ → Bool) (r : AudioRingBuffer)
    (f : StreamDescription) (n : ℕ) where
  -- The size asked of `malloc` for a capacity.
  abbrev asked : ℕ → ℕ
  asked c = allocation_size pointer_size f (c * f.bytes_per_frame)

  -- Refused with the object as it was, out of memory with the new format and capacity but no
  -- buffers, or with as many empty channels as the format has.
  pub data Allocation : Bool × AudioRingBuffer → Type 0 where
    refused : (is_interleaved k f ≡ true) ⊎ ((n < 2) ⊎ (0x8000_0000 < n)) → Allocation (false, r)
    failed :
        (r' : AudioRingBuffer)
        → malloc (asked r'.capacity_frames) ≡ false
        → r'.buffers ≡ none
        → IsNextPower n r'.capacity_frames
        → r'.format ≡ f
        → Allocation (false, r')
    made :
        (r' : AudioRingBuffer) (blocks : List (List ℕ))
        → malloc (asked r'.capacity_frames) ≡ true
        → Holds r' blocks
        → IsNextPower n r'.capacity_frames
        → r'.format ≡ f
        → channels r' ≡ replicate f.channels_per_frame []
        → Allocation (true, r')

  allocate_in_range :
      2 ≤ n
      → n ≤ 0x8000_0000
      → is_interleaved k f ≡ false
      → 0 < f.bytes_per_frame
      → next_power_of_two n * f.bytes_per_frame < u32_mod
      → Allocation (allocate k pointer_size malloc r f n)
  unfolding allocate
  allocate_in_range lo hi apart pos small =
      let next = next_power_of_two-IsNextPower n lo hi in
      let c = next_power_of_two n in
      let in_range : (ltb n 2 || ltb 0x8000_0000 n) ≡ false = ground arith in
      let bytes : mul32 c f.bytes_per_frame ≡ c * f.bytes_per_frame = omega arith in
      let d : AudioRingBuffer = record (deallocate r) {
        format = f;
        capacity_frames = c;
        capacity_frames_mask = sub32 c 1;
      } in
      rw (apart, in_range, bytes)
        (elim (Bool-cases (malloc (asked c))) [
          | inr out ↦ rw out (Allocation.failed d out (deallocate-none r) next refl)
          | inl got ↦
              let blocks = replicate f.channels_per_frame (replicate (c * f.bytes_per_frame) 0) in
              let r' : AudioRingBuffer = record d {
                buffers = some blocks;
                read_pointer = 0;
                write_pointer = 0;
              } in
              let v : Holds r' blocks = record {
                allocated = refl;
                channel_count =
                    length-replicate f.channels_per_frame (replicate (c * f.bytes_per_frame) 0);
                sized = replicate-AllSized f.channels_per_frame (c * f.bytes_per_frame);
                placed = record {
                  allocated = refl;
                  size = length-replicate c 0;
                  capacity = next.capacity;
                  mask = omega (arith, next.capacity.at_least, next.capacity.at_most);
                  read_in = omega (arith, next.capacity.at_least);
                  write_in = omega (arith, next.capacity.at_least);
                };
                frame_size = pos;
                small = small;
              } in
              let nothing : channels r' ≡ replicate f.channels_per_frame [] =
                channels-segments v
                ∙ ap (λ i. segments (c * f.bytes_per_frame) (0 * f.bytes_per_frame) i blocks)
                    (zero-mul f.bytes_per_frame)
                ∙ segments_nothing (c * f.bytes_per_frame) (0 * f.bytes_per_frame)
                    f.channels_per_frame (c * f.bytes_per_frame) in
              rw got (Allocation.made r' blocks got v next refl nothing)
        ])

  -- `Allocate` of an audio ring buffer for a format with frames of at least one byte: an
  -- interleaved format, and a capacity outside [2, 2^31], are refused and change nothing. With a
  -- capacity, rounded up to a power of two, whose channel has fewer than 2^32 bytes, the result is
  -- otherwise a failure that leaves the new format and capacity without buffers, if there is no
  -- memory, or an object with as many empty channels as the format has.
  pub audio_allocate-Allocation :
      0 < f.bytes_per_frame
      → next_power_of_two n * f.bytes_per_frame < u32_mod
      → Allocation (allocate k pointer_size malloc r f n)
  unfolding allocate
  audio_allocate-Allocation pos small = elim (Bool-cases (is_interleaved k f)) [
    | inl together ↦ rw together (Allocation.refused (inl together))
    | inr apart ↦ elim (Bool-cases (ltb n 2 || ltb 0x8000_0000 n)) [
      | inl out ↦ rw (apart, out) (Allocation.refused (inr (ground arith)))
      | inr inside ↦ allocate_in_range (ground arith) (ground arith) apart pos small
    ]
  ]

segments_empty :
    (cap p n : ℕ) (blocks : List (List ℕ)) → n ≡ 0 → AllSized 0 (segments cap p n blocks)
segments_empty cap p n [] e = tt
segments_empty cap p n (b ∷ bs) e = (length-segment b cap p n ∙ e, segments_empty cap p n bs e)

-- `Reset` keeps an allocated audio ring buffer allocated, with the same blocks, and empties every
-- channel.
pub audio_reset_lem :
    {r : AudioRingBuffer} {blocks : List (List ℕ)}
    → Holds r blocks
    → Holds (reset r) blocks × AllSized 0 (channels (reset r))
unfolding reset
audio_reset_lem {r} {blocks} v =
    let v' : Holds (record r { read_pointer = 0; write_pointer = 0 }) blocks = record {
      allocated = v.allocated;
      channel_count = v.channel_count;
      sized = v.sized;
      placed = record {
        allocated = refl;
        size = v.placed.size;
        capacity = v.placed.capacity;
        mask = v.placed.mask;
        read_in = omega (arith, v.placed.read_in);
        write_in = omega (arith, v.placed.write_in);
      };
      frame_size = v.frame_size;
      small = v.small;
    } in
    (
      v',
      rw (channels-segments v') (segments_empty _ _ _ blocks (zero-mul r.format.bytes_per_frame)),
    )
