-- ===== src/CaRingBuffer/Allocation.antt =====
-- How `Allocate` of the time-stamped ring buffer ends.
use native.Mathlib.Nat.{zero-mul}
use cxxaudio_utilities.Base.{
  ℕ, ◌*◌, ◌%◌, ◌≤◌, ◌<◌, ◌≡◌, refl, sym, ap, ◌∙◌, arith, ◌⊎◌, inl, inr, Bool, Bool-cases, true,
  false, ◌||◌, Option-cases, none, some, List, [], replicate, length-replicate, ltb, mul32, sub32,
  u32_mod,
}
use cxxaudio_utilities.PowerOfTwo.{next_power_of_two}
use cxxaudio_utilities.PowerOfTwo.Laws.{IsNextPower, next_power_of_two-IsNextPower}
use cxxaudio_utilities.StreamDescription.{
  StreamDescription, Constants, is_interleaved, channel_stream_count,
}
use cxxaudio_utilities.AudioRingBuffer.{allocation_size}
use cxxaudio_utilities.CaRingBuffer.{
  CaRingBuffer, no_bounds, time_bounds_queue_size, start_time, end_time, allocate, deallocate,
}
use cxxaudio_utilities.AudioRingBuffer.Channels.{segments}
use cxxaudio_utilities.AudioRingBuffer.Allocation.{replicate-AllSized, segments_nothing}
use cxxaudio_utilities.CaRingBuffer.Timeline.{Holds, timeline, timeline-frames}
use cxxaudio_utilities.CaRingBuffer.Times.{IsTimed}

deallocate-none : (r : CaRingBuffer) → (deallocate r).buffers ≡ none
unfolding deallocate
deallocate-none r = elim (Option-cases r.buffers) [ inl e ↦ rw e refl | inr (bs, e) ↦ rw e refl ]

module _ (k : Constants) (pointer_size : ℕ) (malloc : ℕ → Bool) (r : CaRingBuffer)
    (f : StreamDescription) (n : ℕ) where
  -- The size asked of `malloc` for a capacity.
  abbrev asked : ℕ → ℕ
  asked c = allocation_size pointer_size f (c * f.bytes_per_frame)

  -- Refused with the object as it was, out of memory with the new format and capacity but no
  -- buffers, or with as many empty channels as the format has.
  pub data Allocation : Bool × CaRingBuffer → Type 0 where
    refused : (is_interleaved k f ≡ true) ⊎ ((n < 2) ⊎ (0x8000_0000 < n)) → Allocation (false, r)
    failed :
        (r' : CaRingBuffer)
        → malloc (asked r'.capacity_frames) ≡ false
        → r'.buffers ≡ none
        → IsNextPower n r'.capacity_frames
        → r'.format ≡ f
        → Allocation (false, r')
    made :
        (r' : CaRingBuffer) (blocks : List (List ℕ))
        → malloc (asked r'.capacity_frames) ≡ true
        → Holds k r' blocks
        → IsNextPower n r'.capacity_frames
        → r'.format ≡ f
        → (start_time r' ≡ 0) × (end_time r' ≡ 0)
        → timeline r' ≡ replicate f.channels_per_frame []
        → Allocation (true, r')

  streams_apart : is_interleaved k f ≡ false → channel_stream_count k f ≡ f.channels_per_frame
  unfolding channel_stream_count
  streams_apart apart = rw apart refl

  allocate_in_range :
      2 ≤ n
      → n ≤ 0x8000_0000
      → is_interleaved k f ≡ false
      → 0 < f.bytes_per_frame
      → next_power_of_two n * f.bytes_per_frame < u32_mod
      → Allocation (allocate k pointer_size malloc r f n)
  unfolding allocate
  allocate_in_range lo hi apart pos small =
      let next = next_power_of_two-IsNextPower n lo hi in
      let c = next_power_of_two n in
      let in_range : (ltb n 2 || ltb 0x8000_0000 n) ≡ false = ground arith in
      let bytes : mul32 c f.bytes_per_frame ≡ c * f.bytes_per_frame = omega arith in
      let d : CaRingBuffer = record (deallocate r) {
        format = f;
        capacity_frames = c;
        capacity_frames_mask = sub32 c 1;
      } in
      rw (apart, in_range, bytes)
        (elim (Bool-cases (malloc (asked c))) [
          | inr out ↦ rw out (Allocation.failed d out (deallocate-none r) next refl)
          | inl got ↦
              let blocks = replicate f.channels_per_frame (replicate (c * f.bytes_per_frame) 0) in
              let r' : CaRingBuffer = record d {
                buffers = some blocks;
                time_bounds_queue = replicate time_bounds_queue_size no_bounds;
                time_bounds_queue_counter = 0;
              } in
              let timed : IsTimed r' = record {
                size = refl;
                current = refl;
                ordered = omega arith;
                fits = omega arith;
              } in
              let v : Holds k r' blocks = record {
                allocated = refl;
                streams =
                    streams_apart apart
                    ∙ sym (
                        length-replicate f.channels_per_frame
                          (replicate (c * f.bytes_per_frame) 0));
                sized = replicate-AllSized f.channels_per_frame (c * f.bytes_per_frame);
                capacity = next.capacity;
                mask = omega (arith, next.capacity.at_least, next.capacity.at_most);
                frame_size = pos;
                small = small;
                timed = timed;
              } in
              let nothing : timeline r' ≡ replicate f.channels_per_frame [] =
                timeline-frames v
                ∙ ap (λ i. segments (c * f.bytes_per_frame) (0 % c * f.bytes_per_frame) i blocks)
                    (zero-mul f.bytes_per_frame)
                ∙ segments_nothing (c * f.bytes_per_frame) (0 % c * f.bytes_per_frame)
                    f.channels_per_frame (c * f.bytes_per_frame) in
              rw got (Allocation.made r' blocks got v next refl (refl, refl) nothing)
        ])

  -- `Allocate` of a time-stamped ring buffer for a format with frames of at least one byte: an
  -- interleaved format, and a capacity outside [2, 2^31], are refused and change nothing. With a
  -- capacity, rounded up to a power of two, whose channel has fewer than 2^32 bytes, the result is
  -- otherwise a failure that leaves the new format and capacity without buffers, if there is no
  -- memory, or an object with as many empty channels as the format has, and time bounds of 0.
  pub ca_allocate-Allocation :
      0 < f.bytes_per_frame
      → next_power_of_two n * f.bytes_per_frame < u32_mod
      → Allocation (allocate k pointer_size malloc r f n)
  unfolding allocate
  ca_allocate-Allocation pos small = elim (Bool-cases (is_interleaved k f)) [
    | inl together ↦ rw together (Allocation.refused (inl together))
    | inr apart ↦ elim (Bool-cases (ltb n 2 || ltb 0x8000_0000 n)) [
      | inl out ↦ rw (apart, out) (Allocation.refused (inr (ground arith)))
      | inr inside ↦ allocate_in_range (ground arith) (ground arith) apart pos small
    ]
  ]
