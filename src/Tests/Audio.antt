-- ===== src/Tests/Audio.antt =====
-- Audio ring buffers of two channels, four frames and two bytes to a frame.
use cxxaudio_utilities.Base.{
  ℕ, ◌*◌, ◌≤◌, ◌<◌, u32_mod, ◌≡◌, refl, arith, true, false, some, List, [], ◌∷◌,
}
use cxxaudio_utilities.PowerOfTwo.{next_power_of_two}
use cxxaudio_utilities.PowerOfTwo.Laws.{IsCapacity, next_power_of_two-IsNextPower}
use cxxaudio_utilities.StreamDescription.{StreamDescription}
use cxxaudio_utilities.BufferList.{AudioBuffer, set_sizes}
use cxxaudio_utilities.ByteQueue.{transferred}
use cxxaudio_utilities.AudioRingBuffer.{
  AudioRingBuffer, allocate, read, write, frames_available_to_read, frames_available_to_write,
}
use cxxaudio_utilities.AudioRingBuffer.Channels.{AllHave}
use cxxaudio_utilities.AudioRingBuffer.Frames.{Holds, channels}
use cxxaudio_utilities.AudioRingBuffer.Advance.{Leaves}
use cxxaudio_utilities.AudioRingBuffer.Transfer.{audio_read_lem, audio_write_lem}
use cxxaudio_utilities.AudioRingBuffer.Refine.{
  Request, store, fetch, clear, stored, fetched, done, AllFit, serve, serve_all, call_all,
  audio_call_all-serve_all,
}
use cxxaudio_utilities.AudioRingBuffer.Allocation.{Allocation, audio_allocate-Allocation}
use cxxaudio_utilities.Tests.Formats.{core_audio, stereo}

abbrev pub planar : StreamDescription
planar = record stereo { format_flags = 44; bytes_per_packet = 2; bytes_per_frame = 2 }

abbrev pub channel_blocks : List (List ℕ)
channel_blocks =
    (10 ∷ 11 ∷ 12 ∷ 13 ∷ 14 ∷ 15 ∷ 16 ∷ 17 ∷ []) ∷ (20 ∷ 21 ∷ 22 ∷ 23 ∷ 24 ∷ 25 ∷ 26 ∷ 27 ∷ []) ∷ []

-- Two frames wait, and go round the end of the blocks.
abbrev audio : AudioRingBuffer
audio = record {
  buffers = some channel_blocks;
  format = planar;
  capacity_frames = 4;
  capacity_frames_mask = 3;
  write_pointer = 1;
  read_pointer = 3;
}

pub four : IsCapacity 4
four = record { exponent = 2; is_power = refl; at_least = omega arith; at_most = omega arith }

audio-Holds : Holds audio channel_blocks
audio-Holds = record {
  allocated = refl;
  channel_count = refl;
  sized = (refl, (refl, tt));
  placed = record {
    allocated = refl;
    size = refl;
    capacity = four;
    mask = refl;
    read_in = omega arith;
    write_in = omega arith;
  };
  frame_size = omega arith;
  small = omega arith;
}

abbrev pub buffer : List ℕ → AudioBuffer
buffer memory = record { number_channels = 1; data_byte_size = 6; memory = memory }

-- Three frames for each channel.
abbrev pub three_frames : List AudioBuffer
three_frames = buffer (1 ∷ 2 ∷ 3 ∷ 4 ∷ 5 ∷ 6 ∷ []) ∷ buffer (31 ∷ 32 ∷ 33 ∷ 34 ∷ 35 ∷ 36 ∷ []) ∷ []

pub three_frames-AllHave : (n : ℕ) → n ≤ 6 → AllHave n three_frames
three_frames-AllHave n h = ((h, omega arith, omega arith), ((h, omega arith, omega arith), tt))

abbrev calls : List Request
calls =
    store three_frames 3 true ∷ fetch three_frames 2 false ∷ clear ∷ fetch three_frames 3 true ∷ []

calls-AllFit : AllFit 2 2 calls
calls-AllFit =
    let have : AllHave 6 three_frames = three_frames-AllHave 6 (omega arith) in
    ((refl, have), ((refl, three_frames-AllHave 4 (omega arith)), (tt, ((refl, have), tt))))

audio_call_all-serve_all_example :
    call_all audio calls
    ≡ some (
        stored 1
        ∷ fetched 2 (
            record (buffer (16 ∷ 17 ∷ 10 ∷ 11 ∷ 5 ∷ 6 ∷ [])) { data_byte_size = 4 }
            ∷ record (buffer (26 ∷ 27 ∷ 20 ∷ 21 ∷ 35 ∷ 36 ∷ [])) { data_byte_size = 4 }
            ∷ [])
        ∷ done
        ∷ fetched 0 three_frames
        ∷ [])
unfolding frames_available_to_read transferred channels set_sizes serve serve_all
audio_call_all-serve_all_example = audio_call_all-serve_all calls audio-Holds calls-AllFit

audio_read_lem_example :
    (r' : AudioRingBuffer) × (read audio (some three_frames) 3 true
      ≡ some (
        2,
        some (
            record (buffer (16 ∷ 17 ∷ 10 ∷ 11 ∷ 5 ∷ 6 ∷ [])) { data_byte_size = 4 }
            ∷ record (buffer (26 ∷ 27 ∷ 20 ∷ 21 ∷ 35 ∷ 36 ∷ [])) { data_byte_size = 4 }
            ∷ []),
        r',
      ))
    × Leaves audio r' channel_blocks 0 ([] ∷ [] ∷ [])
unfolding frames_available_to_read transferred channels set_sizes
audio_read_lem_example =
    audio_read_lem audio-Holds three_frames 3 true refl (three_frames-AllHave 4 (omega arith))

audio_write_lem_example :
    (r' : AudioRingBuffer) × (blocks' : List (List ℕ)) × (write audio (some three_frames) 3 true
      ≡ some (1, r'))
    × Leaves audio r' blocks' 3
        ((16 ∷ 17 ∷ 10 ∷ 11 ∷ 1 ∷ 2 ∷ []) ∷ (26 ∷ 27 ∷ 20 ∷ 21 ∷ 31 ∷ 32 ∷ []) ∷ [])
unfolding frames_available_to_write frames_available_to_read transferred channels
audio_write_lem_example =
    audio_write_lem audio-Holds three_frames 3 true refl (three_frames-AllHave 2 (omega arith))

pub small_enough : next_power_of_two 3 * 2 < u32_mod
small_enough = omega (arith, (next_power_of_two-IsNextPower 3 (omega arith) (omega arith)).least)

audio_allocate-Allocation_example :
    Allocation core_audio 8
      (λ n. true)
      audio
      planar
      3
      (allocate core_audio 8 (λ n. true) audio planar 3)
audio_allocate-Allocation_example =
    audio_allocate-Allocation core_audio 8 (λ n. true) audio planar 3 (omega arith) small_enough
