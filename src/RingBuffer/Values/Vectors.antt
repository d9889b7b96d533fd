-- ===== src/RingBuffer/Values/Vectors.antt =====
-- What `ReadVector` and `WriteVector` describe. The size of a second part is taken with the
-- capacity where the mask is meant, and so is the whole capacity.
use native.Mathlib.Nat.{div-eq-sub-div, div-eq_of_lt}
use cxxaudio_utilities.Base.{
  ℕ, ◌+◌, ◌-◌, ◌*◌, ◌/◌, ◌%◌, ◌≤◌, ◌<◌, ◌≡◌, arith, none, some, List, length, ltb, if◌then◌else◌,
  add32, sub32, bit_and, bit_and_bit,
}
use cxxaudio_utilities.PowerOfTwo.Laws.{IsCapacity}
use cxxaudio_utilities.RingBuffer.{RingBuffer}
use cxxaudio_utilities.RingBuffer.Invariant.{
  Holds, stored, bytes_available_to_read-eq-stored, bytes_available_to_write-eq-free,
}
use cxxaudio_utilities.RingBuffer.Advance.{contents, length-contents}
use cxxaudio_utilities.RingBuffer.Values.{Span, vector, read_vector, write_vector}

-- Between the capacity and its double the capacity's own bit is set.
capacity_bit : {c : ℕ} (i : ℕ) → IsCapacity c → c ≤ i → i < c + c → bit_and i c ≡ c
capacity_bit {c} i cap lo hi =
    let one : i / c ≡ 1 = omega (
      arith,
      div-eq-sub-div {m = c} {n = i} (omega arith) lo,
      div-eq_of_lt {n = i - c} {m = c} (omega arith),
    ) in
    let bit : bit_and i c ≡ i / c % 2 * c = rw cap.is_power (bit_and_bit cap.exponent i) in
    rw (bit, one) (omega arith)

-- A run that stays in the block is one part; any other is two.
abbrev pub run_parts : ℕ → ℕ → ℕ → ℕ → Span × Span
run_parts cap position n second =
    if ltb cap (position + n)
    then (
      record { location = some position; size = cap - position },
      record { location = some 0; size = second },
    )
    else (record { location = some position; size = n }, record { location = none; size = 0 })

module _ {r : RingBuffer} {m : List ℕ} (v : Holds r m) where
  vector-run_parts :
      (p n : ℕ)
      → p < r.capacity_bytes
      → n < r.capacity_bytes
      → vector r p n ≡ run_parts r.capacity_bytes p n r.capacity_bytes
  unfolding vector
  vector-run_parts p n inside small =
      let no_wrap : add32 p n ≡ p + n = omega arith in
      let after : sub32 r.capacity_bytes p ≡ r.capacity_bytes - p = omega arith in
      rw (no_wrap, after) (ground (arith, capacity_bit (p + n) v.capacity))

  -- On an allocated ring buffer, `ReadVector` describes the stored bytes by one part if they do not
  -- go round the end of the block. Otherwise the first part ends with the block, and the second has
  -- the whole capacity for its size.
  pub read_vector-run_parts :
      read_vector r
      ≡ run_parts r.capacity_bytes r.read_position (length (contents r)) r.capacity_bytes
  unfolding read_vector
  read_vector-run_parts =
      rw (length-contents v, bytes_available_to_read-eq-stored v)
        (vector-run_parts r.read_position (stored r) v.read_in (ground arith))

  -- On an allocated ring buffer, `WriteVector` describes the free bytes, one less than the capacity
  -- and what is stored leave, by one part if they do not go round the end of the block. Otherwise
  -- the first part ends with the block, and the second has the whole capacity for its size.
  pub write_vector-run_parts :
      write_vector r
      ≡ run_parts r.capacity_bytes r.write_position
          (r.capacity_bytes - 1 - length (contents r))
          r.capacity_bytes
  unfolding write_vector
  write_vector-run_parts =
      rw (length-contents v, bytes_available_to_write-eq-free v)
        (vector-run_parts r.write_position (r.capacity_bytes - 1 - stored r) v.write_in
          (omega arith))
