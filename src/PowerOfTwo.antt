-- ===== src/PowerOfTwo.antt =====
-- `NextPowerOfTwo`, which Sources/CXXAudioUtilities/SFBRingBuffer.cpp, SFBCARingBuffer.cpp and
-- SFBAudioRingBuffer.cpp each define with the same text.
pub mod Laws
use cxxaudio_utilities.Base.{ℕ, zero, suc, ◌-◌, ◌%◌, ◌^◌, leb, if◌then◌else◌, u32_mod}

-- The zero bits above the highest one in a word of `w` bits.
leading_zeros : ℕ → ℕ → ℕ
leading_zeros zero x = 0
leading_zeros (suc w) x = if leb (2 ^ w) x then 0 else suc (leading_zeros w x)

-- The compiler's `__builtin_clz` on an `unsigned int` of 32 bits.
clz : ℕ → ℕ
clz x = leading_zeros 32 x

-- The shift is done in 32 bits and read as unsigned.
pub next_power_of_two : ℕ → ℕ
next_power_of_two x = 2 ^ (32 - clz (x - 1)) % u32_mod
