-- ===== src/Tests/Streams.antt =====
-- A byte stream over six bytes, on a little-endian machine.
use mathlib.Core.List.{reverse}
use cxxaudio_utilities.Base.{ℕ, ◌≡◌, refl, arith, true, some, List, [], ◌∷◌}
use cxxaudio_utilities.ByteStream.{
  Block, ByteStream, little_value, ByteOrder, read_le, read_be, read_swapped,
}
use cxxaudio_utilities.ByteStream.Reading.{IsValid, Moved}
use cxxaudio_utilities.ByteStream.Typed.{read_le_be_swapped}

abbrev six : Block
six = record { address = 4096; bytes = 1 ∷ 2 ∷ 3 ∷ 4 ∷ 5 ∷ 6 ∷ [] }

abbrev stream : ByteStream
stream = record { buffer = some six; buffer_length = 6; read_position = 1 }

stream-IsValid : IsValid stream
stream-IsValid = record { inside = omega arith; readable = omega arith; fits = omega arith }

abbrev little_host : ByteOrder
little_host = record {
  host_value = little_value;
  swap_little_to_host = λ b. b;
  swap_big_to_host = reverse;
  swap = reverse;
  little_to_host = λ b. refl;
  big_to_host = λ b. refl;
  swap-reverse = λ b. refl;
}

read_le_be_swapped_example :
    (s' : ByteStream) × (le : List ℕ) × (be : List ℕ) × (sw : List ℕ) × (read_le little_host stream
        (0 ∷ 0 ∷ [])
      ≡ some (true, le, s'))
    × (read_be little_host stream (0 ∷ 0 ∷ []) ≡ some (true, be, s'))
    × (read_swapped little_host stream (0 ∷ 0 ∷ []) ≡ some (true, sw, s'))
    × (little_value le ≡ 770)
    × (little_value be ≡ 515)
    × (sw ≡ 3 ∷ 2 ∷ [])
    × Moved stream s' 2
read_le_be_swapped_example = read_le_be_swapped little_host (0 ∷ 0 ∷ []) stream-IsValid
