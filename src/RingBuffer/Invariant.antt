-- ===== src/RingBuffer/Invariant.antt =====
-- What holds of an allocated ring buffer between calls, and the positions in plain arithmetic.
use native.Mathlib.Decide.{dec_lt}
use native.Mathlib.Nat.{mod-eq_of_lt, mod-eq-sub-mod}
use cxxaudio_utilities.Base.{
  ℕ, ◌+◌, ◌-◌, ◌%◌, ◌<◌, ◌≡◌, arith, some, List, bit_and, length, leb, ◌∙◌, ltb, if◌then◌else◌,
  add32, sub32, bit_and_mask,
}
use cxxaudio_utilities.PowerOfTwo.Laws.{IsCapacity}
use cxxaudio_utilities.RingBuffer.{RingBuffer, bytes_available_to_read, bytes_available_to_write}

-- The buffer is the block `m`, of a power-of-two size; the positions lie inside it.
pub record Holds (r : RingBuffer) (m : List ℕ) : Type 0 where
  pub allocated : r.buffer ≡ some m
  pub size : length m ≡ r.capacity_bytes
  pub capacity : IsCapacity r.capacity_bytes
  pub mask : r.capacity_bytes_mask ≡ r.capacity_bytes - 1
  pub read_in : r.read_position < r.capacity_bytes
  pub write_in : r.write_position < r.capacity_bytes

-- The index that stands for `i` in a block of `cap` bytes, for `i` below twice `cap`.
abbrev pub wrap : ℕ → ℕ → ℕ
wrap cap i = if ltb i cap then i else i - cap

pub mod-wrap : (c i : ℕ) → i < c + c → i % c ≡ wrap c i
mod-wrap c i h = elim (dec_lt i c) [
  | yes p ↦ ground (arith, mod-eq_of_lt p)
  | no p ↦ ground (
    arith,
    mod-eq-sub-mod {n = i} {m = c} (omega arith),
    mod-eq_of_lt {n = i - c} {m = c} (omega arith),
  )
]

-- The mask brings a sum of two positions back into the block.
pub mask-wrap :
    {c mask : ℕ} (i : ℕ) → IsCapacity c → mask ≡ c - 1 → i < c + c → bit_and i mask ≡ wrap c i
mask-wrap {c} {mask} i cap e h =
    let masked : bit_and i mask ≡ i % c = rw (e, cap.is_power) (bit_and_mask cap.exponent i) in
    masked ∙ mod-wrap c i h

-- The counts in plain arithmetic: what is stored, and what is free.
abbrev pub stored : RingBuffer → ℕ
stored r =
    if leb r.read_position r.write_position
    then r.write_position - r.read_position
    else r.write_position + r.capacity_bytes - r.read_position

module _ {r : RingBuffer} {m : List ℕ} (v : Holds r m) where
  pub bytes_available_to_read-eq-stored : bytes_available_to_read r ≡ stored r
  unfolding bytes_available_to_read
  bytes_available_to_read-eq-stored = ground (
    arith,
    mask-wrap (add32 (sub32 r.write_position r.read_position) r.capacity_bytes) v.capacity v.mask,
  )

  pub bytes_available_to_write-eq-free :
      bytes_available_to_write r ≡ r.capacity_bytes - 1 - stored r
  unfolding bytes_available_to_write
  bytes_available_to_write-eq-free = ground (
    arith,
    mask-wrap (add32 (sub32 r.read_position r.write_position) r.capacity_bytes) v.capacity v.mask,
  )
