-- ===== src/Tests/Buffers.antt =====
-- Buffer lists of two channel streams, with two bytes to a frame.
use cxxaudio_utilities.Base.{◌≡◌, refl, arith, true, some, List, [], ◌∷◌}
use cxxaudio_utilities.StreamDescription.{
  is_float, is_signed_integer, is_pcm, equal, channel_stream_count, is_interleaved,
}
use cxxaudio_utilities.BufferList.{
  AudioBuffer, BufferList, Layout, insert_from_buffer, insert_silence, trim_at_offset,
}
use cxxaudio_utilities.BufferList.Frames.{contents, Holds, Leaves}
use cxxaudio_utilities.BufferList.Silence.{insert_silence-Leaves}
use cxxaudio_utilities.BufferList.Trim.{trim_at_offset-Leaves}
use cxxaudio_utilities.BufferList.Insert.{insert_from_buffer-Leaves}
use cxxaudio_utilities.BufferList.Calls.{
  append_contents_of_buffer, prepend_contents_of_buffer, construct, infer_frame_length_from_abl,
}
use cxxaudio_utilities.BufferList.Joining.{joined, append_prepend-joined}
use cxxaudio_utilities.BufferList.Inference.{
  Construction, construct-Construction, Inference, infer_frame_length_from_abl-Inference,
}
use cxxaudio_utilities.Tests.Formats.{core_audio, stereo}

abbrev pub buffers : List AudioBuffer
buffers =
    record {
      number_channels = 1;
      data_byte_size = 6;
      memory = 1 ∷ 2 ∷ 3 ∷ 4 ∷ 5 ∷ 6 ∷ 0 ∷ 0 ∷ 0 ∷ 0 ∷ [];
    }
    ∷ record {
      number_channels = 1;
      data_byte_size = 6;
      memory = 11 ∷ 12 ∷ 13 ∷ 14 ∷ 15 ∷ 16 ∷ 0 ∷ 0 ∷ 0 ∷ 0 ∷ [];
    }
    ∷ []

-- Three of five frames are filled.
abbrev pub three : BufferList
three = record {
  list = some buffers;
  format = record stereo { format_flags = 44; bytes_per_packet = 2; bytes_per_frame = 2 };
  frame_capacity = 5;
  frame_length = 3;
}

pub three-Holds : Holds three buffers
three-Holds = record {
  allocated = refl;
  wide = (omega arith, (omega arith, tt));
  bytes_fit = omega arith;
  frames_fit = omega arith;
  within = omega arith;
}

trim_at_offset-Leaves_example :
    (b' : BufferList) × (trim_at_offset three 1 1 ≡ some (1, b'))
    × Leaves three b' 2 ((1 ∷ 2 ∷ 5 ∷ 6 ∷ []) ∷ (11 ∷ 12 ∷ 15 ∷ 16 ∷ []) ∷ [])
unfolding contents
trim_at_offset-Leaves_example = trim_at_offset-Leaves three-Holds 1 1 (omega arith)

insert_from_buffer-Leaves_example :
    (b' : BufferList) × (insert_from_buffer three three 1 7 2 ≡ some (2, b'))
    × Leaves three b' 5 (
        (1 ∷ 2 ∷ 3 ∷ 4 ∷ 3 ∷ 4 ∷ 5 ∷ 6 ∷ 5 ∷ 6 ∷ [])
        ∷ (11 ∷ 12 ∷ 13 ∷ 14 ∷ 13 ∷ 14 ∷ 15 ∷ 16 ∷ 15 ∷ 16 ∷ [])
        ∷ [])
unfolding contents equal
insert_from_buffer-Leaves_example = insert_from_buffer-Leaves three-Holds three-Holds 1 7 2 refl

insert_silence-Leaves_example :
    (b' : BufferList) × (insert_silence core_audio three 1 1 ≡ some (1, b'))
    × Leaves three b' 4
        ((1 ∷ 2 ∷ 0 ∷ 0 ∷ 3 ∷ 4 ∷ 5 ∷ 6 ∷ []) ∷ (11 ∷ 12 ∷ 0 ∷ 0 ∷ 13 ∷ 14 ∷ 15 ∷ 16 ∷ []) ∷ [])
unfolding contents is_float is_signed_integer is_pcm
insert_silence-Leaves_example = insert_silence-Leaves three-Holds core_audio 1 1

abbrev two : BufferList
two = record three { frame_length = 2 }

two-Holds : Holds two buffers
two-Holds = record {
  allocated = refl;
  wide = (omega arith, (omega arith, tt));
  bytes_fit = omega arith;
  frames_fit = omega arith;
  within = omega arith;
}

append_prepend-joined_example :
    (behind : BufferList) × (before : BufferList) × (append_contents_of_buffer two three
      ≡ some (3, behind))
    × Leaves two behind 5 (joined (contents two) (contents three))
    × (prepend_contents_of_buffer two three ≡ some (3, before))
    × Leaves two before 5 (joined (contents three) (contents two))
unfolding equal
append_prepend-joined_example = append_prepend-joined two-Holds three-Holds refl refl (omega arith)

abbrev native : Layout
native = record { header_size = 8; buffer_size = 16 }

construct-Construction_example :
    Construction core_audio native
      (λ _. true)
      two.format
      3
      (construct core_audio native (λ _. true) two.format 3)
unfolding channel_stream_count is_interleaved
construct-Construction_example =
    construct-Construction core_audio native (λ _. true) two.format 3 (omega arith) (omega arith)

abbrev first_buffer : AudioBuffer
first_buffer = record {
  number_channels = 1;
  data_byte_size = 6;
  memory = 1 ∷ 2 ∷ 3 ∷ 4 ∷ 5 ∷ 6 ∷ 0 ∷ 0 ∷ 0 ∷ 0 ∷ [];
}

abbrev second_buffer : AudioBuffer
second_buffer = record {
  number_channels = 1;
  data_byte_size = 6;
  memory = 11 ∷ 12 ∷ 13 ∷ 14 ∷ 15 ∷ 16 ∷ 0 ∷ 0 ∷ 0 ∷ 0 ∷ [];
}

infer_frame_length_from_abl-Inference_example :
    Inference two first_buffer (second_buffer ∷ []) (infer_frame_length_from_abl two)
infer_frame_length_from_abl-Inference_example =
    infer_frame_length_from_abl-Inference two-Holds (omega arith)
