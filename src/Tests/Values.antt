-- ===== src/Tests/Values.antt =====
-- Values of two to four bytes in a ring buffer of 8 bytes.
use cxxaudio_utilities.Base.{ℕ, ◌<◌, ◌≡◌, ◌↔◌, refl, arith, true, false, some, List, [], ◌∷◌}
use cxxaudio_utilities.RingBuffer.{RingBuffer, advance_read_position}
use cxxaudio_utilities.RingBuffer.Advance.{contents, Leaves}
use cxxaudio_utilities.RingBuffer.Values.{read_value?, write_value, read_values, write_values}
use cxxaudio_utilities.RingBuffer.Values.Single.{read_value?-write_value}
use cxxaudio_utilities.RingBuffer.Values.Reads.{cut, read_values-cut}
use cxxaudio_utilities.RingBuffer.Values.Writes.{write_values-joined}
use cxxaudio_utilities.RingBuffer.Values.Split.{read_values_refuses_iff, write_values_refuses_iff}
use cxxaudio_utilities.Tests.Rings.{ring, ring-Holds, wrapped, wrapped-Holds}

read_value?-write_value_example :
    (r' : RingBuffer) × (r'' : RingBuffer) × (write_value (ring 7 7) (1 ∷ 2 ∷ []) ≡ some (true, r'))
    × (read_value? r' (0 ∷ 0 ∷ []) ≡ some (some (1 ∷ 2 ∷ []), r''))
    × (contents r'' ≡ [])
read_value?-write_value_example =
    read_value?-write_value (1 ∷ 2 ∷ []) (0 ∷ 0 ∷ []) (ring-Holds 7 7 (omega arith) (omega arith))
      (unfold contents in refl) (omega arith, omega arith) refl (omega arith)

read_values-cut_example :
    read_values (ring 1 4) ((0 ∷ []) ∷ (0 ∷ 0 ∷ []) ∷ [])
    ≡ some (true, (11 ∷ []) ∷ (12 ∷ 13 ∷ []) ∷ [], advance_read_position (ring 1 4) 3)
unfolding contents cut
read_values-cut_example =
    read_values-cut (ring-Holds 1 4 (omega arith) (omega arith)) ((0 ∷ []) ∷ (0 ∷ 0 ∷ []) ∷ [])
      (omega arith) (omega arith)

write_values-joined_example :
    (r' : RingBuffer) × (m' : List ℕ) × (write_values wrapped ((1 ∷ []) ∷ (2 ∷ 3 ∷ []) ∷ [])
      ≡ some (true, r'))
    × Leaves wrapped r' m' (16 ∷ 17 ∷ 10 ∷ 11 ∷ 1 ∷ 2 ∷ 3 ∷ [])
unfolding contents
write_values-joined_example =
    write_values-joined wrapped-Holds ((1 ∷ []) ∷ (2 ∷ 3 ∷ []) ∷ []) (omega arith) (omega arith)

read_values_refuses_iff_example :
    (read_values wrapped ((0 ∷ 0 ∷ 0 ∷ 0 ∷ 0 ∷ []) ∷ [])
      ≡ some (false, (0 ∷ 0 ∷ 0 ∷ 0 ∷ 0 ∷ []) ∷ [], wrapped))
    ↔ (10 < 5)
unfolding contents
read_values_refuses_iff_example =
    read_values_refuses_iff wrapped-Holds ((0 ∷ 0 ∷ 0 ∷ 0 ∷ 0 ∷ []) ∷ []) (omega arith)
      (omega arith)

write_values_refuses_iff_example :
    (write_values (ring 3 6) ((0 ∷ 0 ∷ 0 ∷ 0 ∷ 0 ∷ []) ∷ []) ≡ some (false, ring 3 6)) ↔ (10 < 5)
unfolding contents
write_values_refuses_iff_example =
    write_values_refuses_iff (ring-Holds 3 6 (omega arith) (omega arith))
      ((0 ∷ 0 ∷ 0 ∷ 0 ∷ 0 ∷ []) ∷ []) (omega arith) (omega arith)
