-- ===== src/Tests/Rings.antt =====
-- Ring buffers of 8 bytes.
use cxxaudio_utilities.Base.{
  ℕ, ◌<◌, ◌≡◌, refl, arith, inr, true, false, Option, some, List, [], ◌∷◌, replicate,
  length-replicate,
}
use cxxaudio_utilities.PowerOfTwo.{next_power_of_two}
use cxxaudio_utilities.PowerOfTwo.Laws.{IsCapacity, IsNextPower, next_power_of_two-IsNextPower}
use cxxaudio_utilities.ByteQueue.{
  put, get, look, clear, count, bytes, done, serve, serve_all, transferred,
}
use cxxaudio_utilities.RingBuffer.{RingBuffer, allocate}
use cxxaudio_utilities.RingBuffer.Invariant.{Holds}
use cxxaudio_utilities.RingBuffer.Advance.{contents}
use cxxaudio_utilities.RingBuffer.Refine.{call_all, call_all-serve_all}
use cxxaudio_utilities.RingBuffer.Allocation.{Allocates, Allocation, allocate-Allocation}

abbrev pub block : List ℕ
block = 10 ∷ 11 ∷ 12 ∷ 13 ∷ 14 ∷ 15 ∷ 16 ∷ 17 ∷ []

abbrev pub ring : ℕ → ℕ → RingBuffer
ring r w = record {
  buffer = some block;
  capacity_bytes = 8;
  capacity_bytes_mask = 7;
  write_position = w;
  read_position = r;
}

pub eight : IsCapacity 8
eight = record { exponent = 3; is_power = refl; at_least = omega arith; at_most = omega arith }

pub ring-Holds : (r w : ℕ) → r < 8 → w < 8 → Holds (ring r w) block
ring-Holds r w hr hw = record {
  allocated = refl;
  size = refl;
  capacity = eight;
  mask = refl;
  read_in = hr;
  write_in = hw;
}

-- The stored bytes go round the end of the block.
abbrev pub wrapped : RingBuffer
wrapped = ring 6 2

pub wrapped-Holds : Holds wrapped block
wrapped-Holds = ring-Holds 6 2 (omega arith) (omega arith)

abbrev blocks : ℕ → Option (List ℕ)
blocks n = some (replicate n 0)

blocks-Allocates : Allocates blocks
blocks-Allocates n m e = ground (arith, length-replicate {A = ℕ} n 0)

next_power_of_two-IsNextPower_example : IsNextPower 5 (next_power_of_two 5)
next_power_of_two-IsNextPower_example = next_power_of_two-IsNextPower 5 (omega arith) (omega arith)

call_all-serve_all_example :
    call_all wrapped (
      put (1 ∷ 2 ∷ 3 ∷ 4 ∷ []) true
      ∷ look (0 ∷ 0 ∷ []) false
      ∷ get (0 ∷ 0 ∷ 0 ∷ 0 ∷ 0 ∷ []) true
      ∷ get (9 ∷ 9 ∷ 9 ∷ []) false
      ∷ clear
      ∷ get (5 ∷ []) true
      ∷ [])
    ≡ some (
        count 3
        ∷ bytes 2 (16 ∷ 17 ∷ [])
        ∷ bytes 5 (16 ∷ 17 ∷ 10 ∷ 11 ∷ 1 ∷ [])
        ∷ bytes 0 (9 ∷ 9 ∷ 9 ∷ [])
        ∷ done
        ∷ bytes 0 (5 ∷ [])
        ∷ [])
unfolding serve_all serve transferred contents
call_all-serve_all_example =
    call_all-serve_all
      (put (1 ∷ 2 ∷ 3 ∷ 4 ∷ []) true
        ∷ look (0 ∷ 0 ∷ []) false
        ∷ get (0 ∷ 0 ∷ 0 ∷ 0 ∷ 0 ∷ []) true
        ∷ get (9 ∷ 9 ∷ 9 ∷ []) false
        ∷ clear
        ∷ get (5 ∷ []) true
        ∷ [])
      wrapped-Holds

allocate-Allocation_example : Allocation blocks wrapped 5 (allocate blocks wrapped 5)
allocate-Allocation_example =
    allocate-Allocation blocks blocks-Allocates 5 (inr (block, wrapped-Holds))
