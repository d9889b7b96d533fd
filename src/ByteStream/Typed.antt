-- ===== src/ByteStream/Typed.antt =====
-- The reads of typed values from a valid `ByteStream`, and of numbers in either byte order.
use mathlib.Core.List.{reverse}
use cxxaudio_utilities.Base.{
  ℕ, ◌-◌, ◌≡◌, arith, inl, inr, true, false, Bool-cases, some, List, length, take, ltb, leb,
  if◌then◌else◌, ==_self,
}
use cxxaudio_utilities.ByteStream.{
  ByteStream, remaining, read_value, ByteOrder, little_value, big_value, read_le, read_be,
  read_swapped,
}
use cxxaudio_utilities.ByteStream.Reading.{
  IsValid, rest, length-rest, Moved, Moved_none, room, read_whole,
}

-- On a valid stream, `Read(T&)` reads the value if as many bytes are left, and otherwise changes
-- nothing.
pub read_value-Moved :
    {s : ByteStream} (value : List ℕ)
    → IsValid s
    → let there = leb (length value) (length (rest s)) in
      (s' : ByteStream) × (read_value s value
        ≡ some (there, (if there then take (length value) (rest s) else value), s'))
      × Moved s s' (if there then length value else 0)
unfolding read_value remaining
read_value-Moved {s} value v =
    let left = length-rest v in
    elim (Bool-cases (leb (length value) (length (rest s)))) [
      | inl all ↦
          let r = read_whole value v (ground arith) in
          let reads : ltb (s.buffer_length - s.read_position) (length value) ≡ false =
            ground arith in
          (r.0, rw (all, room v, reads, r.1, ==_self (length value)), rw all r.2)
      | inr few ↦
          let refuses : ltb (s.buffer_length - s.read_position) (length value) ≡ true =
            ground arith in
          (s, rw (few, room v, refuses), rw few (Moved_none v))
    ]

-- On a valid stream, `ReadLE` and `ReadBE` read a number of as many bytes as the value has, the
-- least significant first and last, whatever the machine's own order is; `ReadSwapped` hands out
-- the bytes reversed. All three pass over the bytes; with too few left they fail, and the value and
-- the position stay.
pub read_le_be_swapped :
    (order : ByteOrder) {s : ByteStream} (value : List ℕ)
    → IsValid s
    → let front = take (length value) (rest s) in
      let there = leb (length value) (length (rest s)) in
      (s' : ByteStream) × (le : List ℕ) × (be : List ℕ) × (sw : List ℕ) × (read_le order s value
        ≡ some (there, le, s'))
      × (read_be order s value ≡ some (there, be, s'))
      × (read_swapped order s value ≡ some (there, sw, s'))
      × (order.host_value le ≡ (if there then little_value front else order.host_value value))
      × (order.host_value be ≡ (if there then big_value front else order.host_value value))
      × (sw ≡ (if there then reverse front else value))
      × Moved s s' (if there then length value else 0)
unfolding read_le read_be read_swapped
read_le_be_swapped order {s} value v =
    let r = read_value-Moved value v in
    elim (Bool-cases (leb (length value) (length (rest s)))) [
      | inl all ↦
          let front = take (length value) (rest s) in
          let reads = rw all at r.1 in
          (
            r.0,
            order.swap_little_to_host front,
            order.swap_big_to_host front,
            order.swap front,
            rw (reads, all),
            rw (reads, all),
            rw (reads, all),
            rw all (order.little_to_host front),
            rw all (order.big_to_host front),
            rw all (order.swap-reverse front),
            r.2,
          )
      | inr few ↦
          let fails = rw few at r.1 in
          (
            r.0,
            value,
            value,
            value,
            rw (fails, few),
            rw (fails, few),
            rw (fails, few),
            rw few,
            rw few,
            rw few,
            r.2,
          )
    ]
