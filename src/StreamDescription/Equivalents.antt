-- ===== src/StreamDescription/Equivalents.antt =====
-- Interleaved and non-interleaved formats, and the transformations between them.
use native.Mathlib.Decide.{dec_lt}
use native.Mathlib.Nat.{mul-div_cancel, mod-eq_of_lt, div-add-mod', add-div_right}
use cxxaudio_utilities.Base.{
  ℕ, ◌+◌, ◌-◌, ◌*◌, ◌/◌, ◌%◌, ◌^◌, ◌<◌, ◌≡◌, arith, inl, inr, ◌⊎◌, true, not, some, bit_and, bit_or,
  ==_self, mul32, u32_mod, ◌∙◌, bit_and_bit, bit_or_bit, bit_and_clear, set_bit-lt, two-pow-pos,
}
use cxxaudio_utilities.StreamDescription.{
  StreamDescription, Constants, is_pcm, is_interleaved, is_non_interleaved,
  interleaved_channel_count, channel_stream_count, get_non_interleaved_equivalent,
  get_interleaved_equivalent, frame_count_to_byte_size, byte_size_to_frame_count,
}

-- The fields are 32-bit words.
pub record IsWords (f : StreamDescription) : Type 0 where
  pub flags : f.format_flags < u32_mod
  pub packet : f.bytes_per_packet < u32_mod
  pub frame : f.bytes_per_frame < u32_mod

whole : (n c : ℕ) → n < u32_mod → n % c ≡ 0 → mul32 (n / c) c ≡ n
whole n c fits divides =
    let back : n / c * c ≡ n = omega (arith, div-add-mod' n c) in rw back (mod-eq_of_lt fits)

module _ (k : Constants) where
  -- The flag's bit of a word.
  bit_of : ℕ → ℕ
  bit_of flags = flags / 2 ^ k.non_interleaved_bit % 2

  flag-pos : 0 < k.flag_non_interleaved
  flag-pos = rw k.flag_non_interleaved-bit (two-pow-pos k.non_interleaved_bit)

  -- The two readings of the flag.
  flag-cases :
      (flags : ℕ)
      → ((bit_of flags ≡ 0) × (bit_and flags k.flag_non_interleaved ≡ 0))
        ⊎ ((bit_of flags ≡ 1) × (bit_and flags k.flag_non_interleaved ≡ k.flag_non_interleaved))
  unfolding bit_of
  flag-cases flags =
      let masked : bit_and flags k.flag_non_interleaved ≡ bit_of flags * k.flag_non_interleaved =
        rw k.flag_non_interleaved-bit (bit_and_bit k.non_interleaved_bit flags) in
      elim (dec_lt (bit_of flags) 1) [
        | yes h ↦
            let clear : bit_of flags ≡ 0 = omega arith in
            inl (clear, masked ∙ rw clear (omega arith))
        | no h ↦
            let set : bit_of flags ≡ 1 = omega arith in inr (set, masked ∙ rw set (omega arith))
      ]

  -- Every format is either interleaved or non-interleaved.
  pub is_non_interleaved-is_interleaved :
      (f : StreamDescription) → is_non_interleaved k f ≡ not (is_interleaved k f)
  unfolding is_non_interleaved is_interleaved
  is_non_interleaved-is_interleaved f = ground (arith, flag-cases f.format_flags, flag-pos)

  interleaved-clear :
      (f : StreamDescription) → is_interleaved k f ≡ true → bit_of f.format_flags ≡ 0
  unfolding is_interleaved
  interleaved-clear f h = ground (arith, flag-cases f.format_flags, flag-pos)

  -- Setting the flag, and clearing it again.
  set_flag :
      (flags : ℕ)
      → flags < u32_mod
      → bit_of flags ≡ 0
      → let set = bit_or flags k.flag_non_interleaved in
        (bit_and set k.flag_non_interleaved ≡ k.flag_non_interleaved)
        × (bit_and set (u32_mod - 1 - k.flag_non_interleaved) ≡ flags)
  unfolding bit_of
  set_flag flags fits clear =
      let b = k.non_interleaved_bit in
      let sum : bit_or flags (2 ^ b) ≡ flags + 2 ^ b = bit_or_bit b flags clear in
      let quotient : (flags + 2 ^ b) / 2 ^ b ≡ flags / 2 ^ b + 1 =
        add-div_right flags (two-pow-pos b) in
      let one : (flags + 2 ^ b) / 2 ^ b % 2 ≡ 1 = rw quotient (omega arith) in
      let small : flags + 2 ^ b < 2 ^ 32 =
        set_bit-lt 32 b flags k.non_interleaved_bit-lt fits clear in
      rw (k.flag_non_interleaved-bit, sum)
        (
          bit_and_bit b (flags + 2 ^ b) ∙ rw one (omega arith),
          bit_and_clear 32 b (flags + 2 ^ b) k.non_interleaved_bit-lt small ∙ rw one (omega arith),
        )

  -- The channels are those of one stream times the streams.
  pub interleaved_channel_count-mul-channel_stream_count :
      (f : StreamDescription)
      → interleaved_channel_count k f * channel_stream_count k f ≡ f.channels_per_frame
  unfolding interleaved_channel_count channel_stream_count
  interleaved_channel_count-mul-channel_stream_count f = ground arith

  -- An interleaved PCM format of 32-bit sizes that are multiples of its number of channels, which
  -- is not 0, becomes a non-interleaved format by `GetNonInterleavedEquivalent`, and
  -- `GetInterleavedEquivalent` brings the first format back from it.
  pub get_interleaved_equivalent-get_non_interleaved_equivalent :
      (f : StreamDescription)
      → IsWords f
      → is_pcm k f ≡ true
      → is_interleaved k f ≡ true
      → 0 < f.channels_per_frame
      → f.bytes_per_packet % f.channels_per_frame ≡ 0
      → f.bytes_per_frame % f.channels_per_frame ≡ 0
      → (g : StreamDescription) × (get_non_interleaved_equivalent k f ≡ some g)
        × (is_non_interleaved k g ≡ true)
        × (get_interleaved_equivalent k g ≡ some f)
  unfolding get_non_interleaved_equivalent get_interleaved_equivalent is_pcm is_interleaved
      is_non_interleaved
  get_interleaved_equivalent-get_non_interleaved_equivalent f w pcm inter some_channels p q =
      let c = f.channels_per_frame in
      let flags = set_flag f.format_flags w.flags (interleaved-clear f inter) in
      let g : StreamDescription = record f {
        format_flags = bit_or f.format_flags k.flag_non_interleaved;
        bytes_per_packet = f.bytes_per_packet / c;
        bytes_per_frame = f.bytes_per_frame / c;
      } in
      let packet : mul32 (f.bytes_per_packet / c) c ≡ f.bytes_per_packet =
        whole f.bytes_per_packet c w.packet p in
      let frame : mul32 (f.bytes_per_frame / c) c ≡ f.bytes_per_frame =
        whole f.bytes_per_frame c w.frame q in
      (
        g,
        ground arith,
        rw flags.0 (==_self k.flag_non_interleaved),
        ground (arith, flags, flag-pos, packet, frame),
      )

-- A frame count comes back from its size in bytes, if a frame has bytes and the size fits a word.
pub byte_size_to_frame_count-frame_count_to_byte_size :
    (f : StreamDescription) (n : ℕ)
    → 0 < f.bytes_per_frame
    → n * f.bytes_per_frame < u32_mod
    → byte_size_to_frame_count f (frame_count_to_byte_size f n) ≡ n
unfolding byte_size_to_frame_count frame_count_to_byte_size
byte_size_to_frame_count-frame_count_to_byte_size f n pos fits =
    rw (mod-eq_of_lt fits, mul-div_cancel n pos) (ground arith)
