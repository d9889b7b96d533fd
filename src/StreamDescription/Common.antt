-- ===== src/StreamDescription/Common.antt =====
-- What a format that `CommonFormat` recognises looks like.
use cxxaudio_utilities.Base.{ℕ, ◌/◌, ◌<◌, ◌≡◌, arith, Bool, true, false, some, mul32}
use cxxaudio_utilities.StreamDescription.{
  StreamDescription, Constants, CommonPcmFormat, float32, float64, int16, int32, is_pcm,
  is_native_endian, is_implicitly_packed, is_signed_integer, interleaved_channel_count,
  common_format,
}

-- The sample size of a common format in bits, and whether its samples are integers.
abbrev pub bits_of : CommonPcmFormat → ℕ
bits_of float32 = 32
bits_of float64 = 64
bits_of int16 = 16
bits_of int32 = 32

abbrev pub is_int : CommonPcmFormat → Bool
is_int float32 = false
is_int float64 = false
is_int int16 = true
is_int int32 = true

-- A description of native-endian, packed samples in single-frame packets.
pub record Describes (k : Constants) (f : StreamDescription) (c : CommonPcmFormat) : Type 0 where
  pub pcm : is_pcm k f ≡ true
  pub native : is_native_endian k f ≡ true
  pub packet : f.frames_per_packet ≡ 1
  pub one_frame : f.bytes_per_frame ≡ f.bytes_per_packet
  pub channels : 0 < f.channels_per_frame
  pub bits : f.bits_per_channel ≡ bits_of c
  pub frame : f.bytes_per_frame ≡ mul32 (bits_of c / 8) (interleaved_channel_count k f)
  pub signed : is_signed_integer k f ≡ is_int c

-- A format that `CommonFormat` recognises is described by what it returns.
pub common_format-Describes :
    (k : Constants) (f : StreamDescription) (c : CommonPcmFormat)
    → common_format k f ≡ some c
    → Describes k f c
unfolding common_format is_implicitly_packed
common_format-Describes k f float32 e = ground arith
common_format-Describes k f float64 e = ground arith
common_format-Describes k f int16 e = ground arith
common_format-Describes k f int32 e = ground arith
