-- ===== src/Tests/Formats.antt =====
-- 16-bit stereo, with the constants of Core Audio's headers.
use cxxaudio_utilities.Base.{◌≡◌, refl, arith, true, some}
use cxxaudio_utilities.StreamDescription.{
  StreamDescription, Constants, int16, is_pcm, is_native_endian, is_implicitly_packed,
  is_signed_integer, is_fixed_point, is_integer, fractional_bits, is_interleaved,
  is_non_interleaved, interleaved_channel_count, get_interleaved_equivalent,
  get_non_interleaved_equivalent, common_format,
}
use cxxaudio_utilities.StreamDescription.Equivalents.{
  IsWords, get_interleaved_equivalent-get_non_interleaved_equivalent,
}

abbrev pub core_audio : Constants
core_audio = record {
  linear_pcm = 0x6c70_636d;
  flag_float = 1;
  flag_big_endian = 2;
  flag_signed_integer = 4;
  flag_packed = 8;
  flag_aligned_high = 16;
  flag_non_interleaved = 32;
  flag_non_mixable = 64;
  flags_native_endian = 0;
  sample_fraction_mask = 0x1f80;
  sample_fraction_shift = 7;
  non_interleaved_bit = 5;
  flag_non_interleaved-bit = refl;
  non_interleaved_bit-lt = omega arith;
}

abbrev pub stereo : StreamDescription
stereo = record {
  sample_rate = 0;
  format_id = 0x6c70_636d;
  format_flags = 12;
  bytes_per_packet = 4;
  frames_per_packet = 1;
  bytes_per_frame = 4;
  channels_per_frame = 2;
  bits_per_channel = 16;
  reserved = 0;
}

stereo-IsWords : IsWords stereo
stereo-IsWords = record { flags = omega arith; packet = omega arith; frame = omega arith }

get_interleaved_equivalent-get_non_interleaved_equivalent_example :
    (g : StreamDescription) × (get_non_interleaved_equivalent core_audio stereo ≡ some g)
    × (is_non_interleaved core_audio g ≡ true)
    × (get_interleaved_equivalent core_audio g ≡ some stereo)
get_interleaved_equivalent-get_non_interleaved_equivalent_example =
    get_interleaved_equivalent-get_non_interleaved_equivalent core_audio stereo stereo-IsWords
      (unfold is_pcm in refl) (unfold is_interleaved in refl) (omega arith) refl refl

stereo-int16 : common_format core_audio stereo ≡ some int16
unfolding common_format is_pcm is_native_endian is_implicitly_packed interleaved_channel_count
    is_interleaved is_signed_integer is_fixed_point is_integer fractional_bits
stereo-int16 = refl
