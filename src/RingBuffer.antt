-- ===== src/RingBuffer.antt =====
-- `SFB::RingBuffer`, of Sources/CXXAudioUtilities/SFBRingBuffer.cpp and include/SFBRingBuffer.hpp:
-- the state, and the operations that stand in the .cpp file. A method that changes the object
-- returns the new one; an access out of bounds or through a null pointer makes the result `none`.
-- The atomic positions are plain fields here: each operation runs to its end before the next.
pub mod Invariant
pub mod Copies
pub mod Advance
pub mod Transfer
pub mod Refine
pub mod Concurrent
pub mod Allocation
pub mod Values
use cxxaudio_utilities.Base.{
  ℕ, ◌+◌, Bool, true, false, not, ◌&&◌, ◌||◌, Option, none, some, List, [], ◌∷◌, bit_and, min, ltb,
  ◌==◌, if◌then◌else◌, add32, sub32, ◌>>=◌, memcpy,
}
use cxxaudio_utilities.PowerOfTwo.{next_power_of_two}

-- The private members. `mBuffer` is the block that it points to.
pub record RingBuffer : Type 0 where
  pub buffer : Option (List ℕ)
  pub capacity_bytes : ℕ
  pub capacity_bytes_mask : ℕ
  pub write_position : ℕ
  pub read_position : ℕ

-- The default member initializers.
abbrev pub empty : RingBuffer
empty = record {
  buffer = none;
  capacity_bytes = 0;
  capacity_bytes_mask = 0;
  write_position = 0;
  read_position = 0;
}

unfoldable pub deallocate : RingBuffer → RingBuffer
deallocate r = elim r.buffer [ none ↦ r | some _ ↦ empty ]

-- `malloc` is the C library's: a block of the size asked for, or `none` for a null pointer.
unfoldable pub allocate : (ℕ → Option (List ℕ)) → RingBuffer → ℕ → Bool × RingBuffer
allocate malloc r capacity_bytes =
    if ltb capacity_bytes 2 || ltb 0x8000_0000 capacity_bytes
    then (false, r)
    else (let d = deallocate r in
        let c = next_power_of_two capacity_bytes in
        elim (malloc c) [
          | none ↦ (false, d)
          | some m ↦ (
            true,
            record d { buffer = some m; capacity_bytes = c; capacity_bytes_mask = sub32 c 1 },
          )
        ])

unfoldable pub reset : RingBuffer → RingBuffer
reset r = record r { read_position = 0; write_position = 0 }

-- The same lines open `Read`, `Peek` and `ReadVector`.
unfoldable pub bytes_available_to_read : RingBuffer → ℕ
bytes_available_to_read r =
    if ltb r.read_position r.write_position
    then sub32 r.write_position r.read_position
    else bit_and (add32 (sub32 r.write_position r.read_position) r.capacity_bytes)
        r.capacity_bytes_mask

-- The same lines open `Write` and `WriteVector`.
unfoldable pub bytes_available_to_write : RingBuffer → ℕ
bytes_available_to_write r =
    if ltb r.read_position r.write_position
    then sub32
        (bit_and (add32 (sub32 r.read_position r.write_position) r.capacity_bytes)
          r.capacity_bytes_mask)
        1
    else (if ltb r.write_position r.read_position
        then sub32 (sub32 r.read_position r.write_position) 1
        else sub32 r.capacity_bytes 1)

unfoldable pub advance_read_position : RingBuffer → ℕ → RingBuffer
advance_read_position r byte_count = record r {
  read_position = bit_and (add32 r.read_position byte_count) r.capacity_bytes_mask;
}

unfoldable pub advance_write_position : RingBuffer → ℕ → RingBuffer
advance_write_position r byte_count = record r {
  write_position = bit_and (add32 r.write_position byte_count) r.capacity_bytes_mask;
}

-- The second early return of `Read`, `Peek` and `Write`.
unfoldable pub refuses : ℕ → ℕ → Bool → Bool
refuses bytes_available byte_count allow_partial =
    (bytes_available == 0) || (ltb bytes_available byte_count && not allow_partial)

-- The copies of `Read` and `Peek` from the block `m` to the destination.
unfoldable pub copy_out : RingBuffer → List ℕ → List ℕ → ℕ → Option (List ℕ)
copy_out r m destination bytes_to_read =
    if ltb r.capacity_bytes (add32 r.read_position bytes_to_read)
    then (do
      let after = sub32 r.capacity_bytes r.read_position
      destination' ← memcpy destination 0 m r.read_position after
      memcpy destination' after m 0 (sub32 bytes_to_read after))
    else memcpy destination 0 m r.read_position bytes_to_read

-- The copies of `Write` from the source to the block `m`.
unfoldable pub copy_in : RingBuffer → List ℕ → List ℕ → ℕ → Option (List ℕ)
copy_in r m source bytes_to_write =
    if ltb r.capacity_bytes (add32 r.write_position bytes_to_write)
    then (do
      let after = sub32 r.capacity_bytes r.write_position
      m' ← memcpy m r.write_position source 0 after
      memcpy m' 0 source after (sub32 bytes_to_write after))
    else memcpy m r.write_position source 0 bytes_to_write

-- The number of bytes read, the destination, which may be null, and the object.
unfoldable pub peek : RingBuffer → Option (List ℕ) → ℕ → Bool → Option (ℕ × Option (List ℕ))
peek r none byte_count allow_partial = some (0, none)
peek r (some destination) byte_count allow_partial =
    let available = bytes_available_to_read r in
    let n = min available byte_count in
    if (byte_count == 0) || refuses available byte_count allow_partial
    then some (0, some destination)
    else (do m ← r.buffer; destination' ← copy_out r m destination n; some (n, some destination'))

unfoldable pub read :
    RingBuffer → Option (List ℕ) → ℕ → Bool → Option (ℕ × Option (List ℕ) × RingBuffer)
read r none byte_count allow_partial = some (0, none, r)
read r (some destination) byte_count allow_partial =
    let available = bytes_available_to_read r in
    let n = min available byte_count in
    if (byte_count == 0) || refuses available byte_count allow_partial
    then some (0, some destination, r)
    else (do
      m ← r.buffer
      destination' ← copy_out r m destination n
      some (n, some destination', advance_read_position r n))

unfoldable pub write : RingBuffer → Option (List ℕ) → ℕ → Bool → Option (ℕ × RingBuffer)
write r none byte_count allow_partial = some (0, r)
write r (some source) byte_count allow_partial =
    let available = bytes_available_to_write r in
    let n = min available byte_count in
    if (byte_count == 0) || refuses available byte_count allow_partial then some (0, r) else (do
      m ← r.buffer
      m' ← copy_in r m source n
      some (n, advance_write_position (record r { buffer = some m' }) n))
