-- ===== src/Tests/Timed.antt =====
-- Time-stamped ring buffers of two channels, four frames and two bytes to a frame.
use cxxaudio_utilities.Base.{ℕ, ◌≡◌, refl, arith, true, some, List, [], ◌∷◌, replicate}
use cxxaudio_utilities.StreamDescription.{channel_stream_count, is_interleaved}
use cxxaudio_utilities.BufferList.{set_sizes}
use cxxaudio_utilities.CaRingBuffer.{CaRingBuffer, no_bounds, pos, allocate, read, write}
use cxxaudio_utilities.CaRingBuffer.Times.{IsTimed}
use cxxaudio_utilities.CaRingBuffer.Timeline.{Holds, timeline}
use cxxaudio_utilities.CaRingBuffer.Bounds.{Leaves}
use cxxaudio_utilities.CaRingBuffer.Allocation.{Allocation, ca_allocate-Allocation}
use cxxaudio_utilities.CaRingBuffer.Writing.{ca_write_forward}
use cxxaudio_utilities.CaRingBuffer.Reading.{ca_read_common}
use cxxaudio_utilities.Tests.Formats.{core_audio}
use cxxaudio_utilities.Tests.Audio.{
  planar, channel_blocks, four, buffer, three_frames, three_frames-AllHave, small_enough,
}

-- The audio from time 5 to time 8.
abbrev pub timed : CaRingBuffer
timed = record {
  format = planar;
  buffers = some channel_blocks;
  capacity_frames = 4;
  capacity_frames_mask = 3;
  time_bounds_queue =
      no_bounds
      ∷ record { start_time = 5; end_time = 8; update_counter = 1 }
      ∷ replicate 30 no_bounds;
  time_bounds_queue_counter = 1;
}

pub timed-IsTimed : IsTimed timed
timed-IsTimed = record { size = refl; current = refl; ordered = omega arith; fits = omega arith }

timed-Holds : Holds core_audio timed channel_blocks
timed-Holds = record {
  allocated = refl;
  streams = unfold channel_stream_count is_interleaved in refl;
  sized = (refl, (refl, tt));
  capacity = four;
  mask = refl;
  frame_size = omega arith;
  small = omega arith;
  timed = timed-IsTimed;
}

-- Two frames at time 9: those of times 5 and 6 are dropped, and that of time 8 is silence.
ca_write_forward_example :
    (r' : CaRingBuffer) × (blocks' : List (List ℕ)) × (write core_audio timed
        (some three_frames)
        2
        (pos 9)
      ≡ some (true, r'))
    × Leaves core_audio timed r' blocks' 7 11
    × (timeline r'
        ≡ (16 ∷ 17 ∷ 0 ∷ 0 ∷ 1 ∷ 2 ∷ 3 ∷ 4 ∷ []) ∷ (26 ∷ 27 ∷ 0 ∷ 0 ∷ 31 ∷ 32 ∷ 33 ∷ 34 ∷ []) ∷ [])
unfolding timeline
ca_write_forward_example =
    ca_write_forward timed-Holds three_frames 2 9 (omega arith) (omega arith) (omega arith)
      (omega arith) refl (three_frames-AllHave 4 (omega arith))

-- Three frames from time 7: that of time 7 is there.
ca_read_common_example :
    read timed (some three_frames) 3 (pos 7)
    ≡ some (
      true,
      some (
          record (buffer (16 ∷ 17 ∷ 0 ∷ 0 ∷ 0 ∷ 0 ∷ [])) { data_byte_size = 2 }
          ∷ record (buffer (26 ∷ 27 ∷ 0 ∷ 0 ∷ 0 ∷ 0 ∷ [])) { data_byte_size = 2 }
          ∷ []),
    )
unfolding timeline set_sizes
ca_read_common_example =
    ca_read_common timed-Holds three_frames 3 7 (omega arith) (omega arith) (omega arith)
      (omega arith) refl (three_frames-AllHave 6 (omega arith))

ca_allocate-Allocation_example :
    Allocation core_audio 8
      (λ n. true)
      timed
      planar
      3
      (allocate core_audio 8 (λ n. true) timed planar 3)
ca_allocate-Allocation_example =
    ca_allocate-Allocation core_audio 8 (λ n. true) timed planar 3 (omega arith) small_enough
