-- ===== src/StreamDescription.antt =====
-- `SFB::CAStreamBasicDescription`, of include/SFBCAStreamBasicDescription.hpp and
-- SFBCAStreamBasicDescription.cpp in Sources/CXXAudioUtilities. The constants of Core Audio's
-- headers are a parameter. `mSampleRate` is its bit pattern, which only `==` looks at.
pub mod Equivalents
pub mod Common
use cxxaudio_utilities.Base.{
  ℕ, ◌+◌, ◌-◌, ◌*◌, ◌/◌, ◌%◌, ◌^◌, ◌<◌, ◌≡◌, ◌⊎◌, Bool, true, false, not, ◌&&◌, ◌||◌, Option, none,
  some, bit_and, bit_or, ltb, ◌==◌, if◌then◌else◌, mul32, u32_mod,
}

-- The fields of `AudioStreamBasicDescription`.
pub record StreamDescription : Type 0 where
  pub sample_rate : ℕ
  pub format_id : ℕ
  pub format_flags : ℕ
  pub bytes_per_packet : ℕ
  pub frames_per_packet : ℕ
  pub bytes_per_frame : ℕ
  pub channels_per_frame : ℕ
  pub bits_per_channel : ℕ
  pub reserved : ℕ

-- `Reset`, and the default constructor: all bytes are zero.
abbrev pub zeroed : StreamDescription
zeroed = record {
  sample_rate = 0;
  format_id = 0;
  format_flags = 0;
  bytes_per_packet = 0;
  frames_per_packet = 0;
  bytes_per_frame = 0;
  channels_per_frame = 0;
  bits_per_channel = 0;
  reserved = 0;
}

-- `operator==`, by the bytes of all fields.
unfoldable pub equal : StreamDescription → StreamDescription → Bool
equal f g =
    f.sample_rate == g.sample_rate
    && (f.format_id == g.format_id
        && (f.format_flags == g.format_flags
            && (f.bytes_per_packet == g.bytes_per_packet
                && (f.frames_per_packet == g.frames_per_packet
                    && (f.bytes_per_frame == g.bytes_per_frame
                        && (f.channels_per_frame == g.channels_per_frame
                            && (f.bits_per_channel == g.bits_per_channel
                                && f.reserved == g.reserved)))))))

-- `kAudioFormatLinearPCM` and the `kAudioFormatFlag...` constants. The law is what the headers
-- document: the flag for non-interleaved formats is a single bit of a 32-bit word.
pub record Constants : Type 0 where
  pub linear_pcm : ℕ
  pub flag_float : ℕ
  pub flag_big_endian : ℕ
  pub flag_signed_integer : ℕ
  pub flag_packed : ℕ
  pub flag_aligned_high : ℕ
  pub flag_non_interleaved : ℕ
  pub flag_non_mixable : ℕ
  pub flags_native_endian : ℕ
  pub sample_fraction_mask : ℕ
  pub sample_fraction_shift : ℕ
  pub non_interleaved_bit : ℕ
  pub flag_non_interleaved-bit : flag_non_interleaved ≡ 2 ^ non_interleaved_bit
  pub non_interleaved_bit-lt : non_interleaved_bit < 32

-- `enum class CommonPCMFormat`
pub data CommonPcmFormat : Type 0 where
  float32 float64 int16 int32 : CommonPcmFormat

module _ (k : Constants) where
  -- `(flags & flag) == flag`, and `(flags & flag) == 0`.
  abbrev flag_set : StreamDescription → ℕ → Bool
  flag_set f flag = bit_and f.format_flags flag == flag

  abbrev flag_clear : StreamDescription → ℕ → Bool
  flag_clear f flag = bit_and f.format_flags flag == 0

  unfoldable pub is_non_interleaved : StreamDescription → Bool
  is_non_interleaved f = flag_set f k.flag_non_interleaved

  unfoldable pub is_interleaved : StreamDescription → Bool
  is_interleaved f = flag_clear f k.flag_non_interleaved

  unfoldable pub interleaved_channel_count : StreamDescription → ℕ
  interleaved_channel_count f = if is_interleaved f then f.channels_per_frame else 1

  unfoldable pub channel_stream_count : StreamDescription → ℕ
  channel_stream_count f = if is_interleaved f then 1 else f.channels_per_frame

  unfoldable pub is_pcm : StreamDescription → Bool
  is_pcm f = f.format_id == k.linear_pcm

  unfoldable pub is_big_endian : StreamDescription → Bool
  is_big_endian f = flag_set f k.flag_big_endian

  unfoldable pub is_little_endian : StreamDescription → Bool
  is_little_endian f = flag_clear f k.flag_big_endian

  unfoldable pub is_native_endian : StreamDescription → Bool
  is_native_endian f = bit_and f.format_flags k.flag_big_endian == k.flags_native_endian

  unfoldable pub is_float : StreamDescription → Bool
  is_float f = is_pcm f && flag_set f k.flag_float

  unfoldable pub is_integer : StreamDescription → Bool
  is_integer f = is_pcm f && flag_clear f k.flag_float

  unfoldable pub is_signed_integer : StreamDescription → Bool
  is_signed_integer f = is_pcm f && flag_set f k.flag_signed_integer

  unfoldable pub is_packed : StreamDescription → Bool
  is_packed f = flag_set f k.flag_packed

  unfoldable pub is_implicitly_packed : StreamDescription → Bool
  is_implicitly_packed f =
      mul32 (f.bits_per_channel / 8) (interleaved_channel_count f) == f.bytes_per_frame

  unfoldable pub sample_word_size : StreamDescription → ℕ
  sample_word_size f =
      let n = interleaved_channel_count f in
      if (n == 0) || not (f.bytes_per_frame % n == 0) then 0 else f.bytes_per_frame / n

  unfoldable pub is_unpacked_pcm : StreamDescription → Bool
  is_unpacked_pcm f = is_pcm f && not (mul32 (sample_word_size f) 8 == f.bits_per_channel)

  unfoldable pub is_aligned_high : StreamDescription → Bool
  is_aligned_high f = flag_set f k.flag_aligned_high

  unfoldable pub is_unaligned : StreamDescription → Bool
  is_unaligned f = is_unpacked_pcm f || not (bit_and f.bits_per_channel 7 == 0)

  unfoldable pub fractional_bits : StreamDescription → ℕ
  fractional_bits f = bit_and f.format_flags k.sample_fraction_mask / 2 ^ k.sample_fraction_shift

  unfoldable pub is_fixed_point : StreamDescription → Bool
  is_fixed_point f = is_integer f && ltb 0 (fractional_bits f)

  unfoldable pub is_non_mixable : StreamDescription → Bool
  is_non_mixable f = flag_set f k.flag_non_mixable

  unfoldable pub is_mixable : StreamDescription → Bool
  is_mixable f = is_pcm f && flag_clear f k.flag_non_mixable

  -- The transformations: `none` is `false`, with the argument as it was.
  unfoldable pub get_non_interleaved_equivalent : StreamDescription → Option StreamDescription
  get_non_interleaved_equivalent f =
      if not (is_pcm f) || (f.channels_per_frame == 0)
      then none
      else some (
          if is_interleaved f
          then record f {
            format_flags = bit_or f.format_flags k.flag_non_interleaved;
            bytes_per_packet = f.bytes_per_packet / f.channels_per_frame;
            bytes_per_frame = f.bytes_per_frame / f.channels_per_frame;
          }
          else f)

  unfoldable pub get_interleaved_equivalent : StreamDescription → Option StreamDescription
  get_interleaved_equivalent f =
      if not (is_pcm f)
      then none
      else some (
          if not (is_interleaved f)
          then record f {
            format_flags = bit_and f.format_flags (u32_mod - 1 - k.flag_non_interleaved);
            bytes_per_packet = mul32 f.bytes_per_packet f.channels_per_frame;
            bytes_per_frame = mul32 f.bytes_per_frame f.channels_per_frame;
          }
          else f)

  unfoldable pub common_format : StreamDescription → Option CommonPcmFormat
  common_format f =
      if not (f.frames_per_packet == 1)
        || (not (f.bytes_per_frame == f.bytes_per_packet) || (f.channels_per_frame == 0))
      then none
      else (if not (is_pcm f) || (not (is_native_endian f) || not (is_implicitly_packed f))
          then none
          else (if is_signed_integer f
              then (if is_fixed_point f
                  then none
                  else (if f.bits_per_channel == 16
                      then some int16
                      else (if f.bits_per_channel == 32 then some int32 else none)))
              else (if is_float f
                  then (if f.bits_per_channel == 32
                      then some float32
                      else (if f.bits_per_channel == 64 then some float64 else none))
                  else none)))

unfoldable pub frame_count_to_byte_size : StreamDescription → ℕ → ℕ
frame_count_to_byte_size f frame_count = mul32 frame_count f.bytes_per_frame

unfoldable pub byte_size_to_frame_count : StreamDescription → ℕ → ℕ
byte_size_to_frame_count f byte_size =
    if f.bytes_per_frame == 0 then 0 else byte_size / f.bytes_per_frame
