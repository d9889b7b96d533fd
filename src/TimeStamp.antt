-- ===== src/TimeStamp.antt =====
-- `SFB::CATimeStamp`, of include/SFBCATimeStamp.hpp in Sources/CXXAudioUtilities: a Core Audio time
-- stamp, with the comparisons of two of them. `Float64`, its comparisons and the flags of Core Audio
-- are parameters; the SMPTE time, which the class never looks into, is left out.
pub mod Comparison
use cxxaudio_utilities.Base.{
  ℕ, Bool, true, false, not, ◌&&◌, ◌||◌, ◌==◌, ltb, bit_and, bit_or, if◌then◌else◌,
}

-- `Float64` with its comparisons.
pub record Floats (F : Type 0) : Type 0 where
  pub zero : F
  pub equal : F → F → Bool
  pub less : F → F → Bool
  pub greater : F → F → Bool

-- The flags `kAudioTimeStamp...Valid`.
pub record Flags : Type 0 where
  pub sample_time_valid : ℕ
  pub host_time_valid : ℕ
  pub rate_scalar_valid : ℕ
  pub word_clock_time_valid : ℕ
  pub smpte_time_valid : ℕ

-- `AudioTimeStamp`.
pub record TimeStamp (F : Type 0) : Type 0 where
  pub sample_time : F
  pub host_time : ℕ
  pub rate_scalar : F
  pub word_clock_time : ℕ
  pub flags : ℕ

module _ {F : Type 0} (floats : Floats F) (c : Flags) where
  unfoldable pub empty : TimeStamp F
  empty = record {
    sample_time = floats.zero;
    host_time = 0;
    rate_scalar = floats.zero;
    word_clock_time = 0;
    flags = 0;
  }

  unfoldable pub from_sample_time : F → TimeStamp F
  unfolding empty
  from_sample_time sample_time = record empty {
    sample_time = sample_time;
    flags = c.sample_time_valid;
  }

  unfoldable pub from_host_time : ℕ → TimeStamp F
  unfolding empty
  from_host_time host_time = record empty { host_time = host_time; flags = c.host_time_valid }

  unfoldable pub from_sample_and_host_times : F → ℕ → TimeStamp F
  unfolding empty
  from_sample_and_host_times sample_time host_time = record empty {
    sample_time = sample_time;
    host_time = host_time;
    flags = bit_or c.sample_time_valid c.host_time_valid;
  }

  unfoldable pub from_times_and_rate_scalar : F → ℕ → F → TimeStamp F
  unfolding empty
  from_times_and_rate_scalar sample_time host_time rate_scalar = record empty {
    sample_time = sample_time;
    host_time = host_time;
    rate_scalar = rate_scalar;
    flags = bit_or (bit_or c.sample_time_valid c.host_time_valid) c.rate_scalar_valid;
  }

  -- A flag of the object itself, and the same flag of the other one.
  unfoldable pub has : ℕ → TimeStamp F → Bool
  has flag t = bit_and t.flags flag == flag

  unfoldable pub other_has : ℕ → TimeStamp F → Bool
  other_has flag t = not (bit_and t.flags flag == 0)

  unfoldable pub is_valid : TimeStamp F → Bool
  is_valid t = not (t.flags == 0)

  unfoldable pub sample_time_is_valid : TimeStamp F → Bool
  unfolding has
  sample_time_is_valid t = has c.sample_time_valid t

  unfoldable pub host_time_is_valid : TimeStamp F → Bool
  unfolding has
  host_time_is_valid t = has c.host_time_valid t

  unfoldable pub rate_scalar_is_valid : TimeStamp F → Bool
  unfolding has
  rate_scalar_is_valid t = has c.rate_scalar_valid t

  unfoldable pub word_clock_time_is_valid : TimeStamp F → Bool
  unfolding has
  word_clock_time_is_valid t = has c.word_clock_time_valid t

  unfoldable pub smpte_time_is_valid : TimeStamp F → Bool
  unfolding has
  smpte_time_is_valid t = has c.smpte_time_valid t

  unfoldable pub equal : TimeStamp F → TimeStamp F → Bool
  equal t rhs =
      if sample_time_is_valid t && other_has c.sample_time_valid rhs
      then floats.equal t.sample_time rhs.sample_time
      else (if host_time_is_valid t && other_has c.host_time_valid rhs
          then t.host_time == rhs.host_time
          else (if word_clock_time_is_valid t && other_has c.word_clock_time_valid rhs
              then t.word_clock_time == rhs.word_clock_time
              else false))

  unfoldable pub not_equal : TimeStamp F → TimeStamp F → Bool
  not_equal t rhs = not (equal t rhs)

  unfoldable pub less : TimeStamp F → TimeStamp F → Bool
  less t rhs =
      if sample_time_is_valid t && other_has c.sample_time_valid rhs
      then floats.less t.sample_time rhs.sample_time
      else (if host_time_is_valid t && other_has c.host_time_valid rhs
          then ltb t.host_time rhs.host_time
          else (if word_clock_time_is_valid t && other_has c.word_clock_time_valid rhs
              then ltb t.word_clock_time rhs.word_clock_time
              else false))

  unfoldable pub greater : TimeStamp F → TimeStamp F → Bool
  greater t rhs =
      if sample_time_is_valid t && other_has c.sample_time_valid rhs
      then floats.greater t.sample_time rhs.sample_time
      else (if host_time_is_valid t && other_has c.host_time_valid rhs
          then ltb rhs.host_time t.host_time
          else (if word_clock_time_is_valid t && other_has c.word_clock_time_valid rhs
              then ltb rhs.word_clock_time t.word_clock_time
              else false))

  unfoldable pub less_or_equal : TimeStamp F → TimeStamp F → Bool
  less_or_equal t rhs = less t rhs || equal t rhs

  unfoldable pub greater_or_equal : TimeStamp F → TimeStamp F → Bool
  greater_or_equal t rhs = greater t rhs || equal t rhs
