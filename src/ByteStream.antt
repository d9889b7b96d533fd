-- ===== src/ByteStream.antt =====
-- `SFB::ByteStream`, of Sources/CXXAudioUtilities/include/SFBByteStream.hpp: a reader over a block
-- of bytes. A method that moves the read position returns the new object; `none` is an access out
-- of bounds or through a null pointer. `size_t` has 64 bits. A copy of no bytes touches no memory.
pub mod Reading
pub mod Typed
use mathlib.Core.List.{reverse}
use cxxaudio_utilities.Base.{
  ℕ, Bool, true, false, ◌&&◌, Option, none, some, List, [], ◌∷◌, ◌+◌, ◌*◌, ◌≡◌, length, min, ltb,
  ◌==◌, if◌then◌else◌, add64, sub64, ◌>>=◌, memcpy,
}

-- What a pointer refers to: its address, and the bytes from there on.
pub record Block : Type 0 where
  pub address : ℕ
  pub bytes : List ℕ

pub record ByteStream : Type 0 where
  pub buffer : Option Block
  pub buffer_length : ℕ
  pub read_position : ℕ

-- The default member initializers, and what a move leaves behind.
abbrev pub empty : ByteStream
empty = record { buffer = none; buffer_length = 0; read_position = 0 }

-- The constructor from a buffer; `none` is `std::invalid_argument`.
unfoldable pub from_buffer : Option Block → ℕ → Option ByteStream
from_buffer none len =
    if ltb 0 len
    then none
    else some (record { buffer = none; buffer_length = len; read_position = 0 })
from_buffer (some b) len = some (record { buffer = some b; buffer_length = len; read_position = 0 })

abbrev same_pointer : Option Block → Option Block → Bool
same_pointer none none = true
same_pointer none (some b) = false
same_pointer (some a) none = false
same_pointer (some a) (some b) = a.address == b.address

-- `operator==`
unfoldable pub equal : ByteStream → ByteStream → Bool
equal s t =
    same_pointer s.buffer t.buffer
    && (s.buffer_length == t.buffer_length && s.read_position == t.read_position)

unfoldable pub remaining : ByteStream → ℕ
remaining s = sub64 s.buffer_length s.read_position

-- memcpy(destination, mBuffer + position, n).
copy_from : Option Block → ℕ → List ℕ → ℕ → Option (List ℕ)
copy_from none position destination n = if n == 0 then some destination else none
copy_from (some b) position destination n = memcpy destination 0 b.bytes position n

-- `Read(void *, size_t)`: the number of bytes, the destination, which may be null, and the object.
unfoldable pub read : ByteStream → Option (List ℕ) → ℕ → Option (ℕ × Option (List ℕ) × ByteStream)
unfolding copy_from
read s none count =
    let n = min count (sub64 s.buffer_length s.read_position) in
    some (n, none, record s { read_position = add64 s.read_position n })
read s (some destination) count = do
  let n = min count (sub64 s.buffer_length s.read_position)
  destination' ← copy_from s.buffer s.read_position destination n
  some (n, some destination', record s { read_position = add64 s.read_position n })

-- The value after a transfer; the destination of a value is never null.
abbrev pub block_or : Option (List ℕ) → List ℕ → List ℕ
block_or none value = value
block_or (some value') value = value'

-- `Read(T&)`, on the bytes of the value.
unfoldable pub read_value : ByteStream → List ℕ → Option (Bool × List ℕ × ByteStream)
read_value s value = if ltb (remaining s) (length value) then some (false, value, s) else (do
  (n, value', s') ← read s (some value) (length value)
  some (n == length value, block_or value' value, s'))

-- `Read()`, where `initial` is `T{}`.
unfoldable pub read_value? : ByteStream → List ℕ → Option (Option (List ℕ) × ByteStream)
read_value? s initial = do
  (ok, value, s') ← read_value s initial
  some (if ok then some value else none, s')

-- The number of a block of bytes, the least significant byte first, and last.
abbrev pub little_value : List ℕ → ℕ
little_value [] = 0
little_value (b ∷ bs) = b + 256 * little_value bs

abbrev pub big_value : List ℕ → ℕ
big_value bytes = little_value (reverse bytes)

-- The conversions of `OSByteOrder.h`, on the bytes of a value in memory, for the machine's own
-- way `host_value` to read a number from them; the laws are what that header documents.
pub record ByteOrder : Type 0 where
  pub host_value : List ℕ → ℕ
  pub swap_little_to_host : List ℕ → List ℕ
  pub swap_big_to_host : List ℕ → List ℕ
  pub swap : List ℕ → List ℕ
  pub little_to_host : (b : List ℕ) → host_value (swap_little_to_host b) ≡ little_value b
  pub big_to_host : (b : List ℕ) → host_value (swap_big_to_host b) ≡ big_value b
  pub swap-reverse : (b : List ℕ) → swap b ≡ reverse b

-- The common text of `ReadLE`, `ReadBE` and `ReadSwapped`: read a value, then convert it.
unfoldable pub read_converted :
    (List ℕ → List ℕ) → ByteStream → List ℕ → Option (Bool × List ℕ × ByteStream)
read_converted convert s value = do
  (ok, value', s') ← read_value s value
  some (if ok then (true, convert value', s') else (false, value', s'))

module _ (order : ByteOrder) where
  unfoldable pub read_le : ByteStream → List ℕ → Option (Bool × List ℕ × ByteStream)
  unfolding read_converted
  read_le s value = read_converted order.swap_little_to_host s value

  unfoldable pub read_be : ByteStream → List ℕ → Option (Bool × List ℕ × ByteStream)
  unfolding read_converted
  read_be s value = read_converted order.swap_big_to_host s value

  unfoldable pub read_swapped : ByteStream → List ℕ → Option (Bool × List ℕ × ByteStream)
  unfolding read_converted
  read_swapped s value = read_converted order.swap s value

-- `Skip`, `Rewind` and `SetPosition`: the number that each returns, and the object.
unfoldable pub skip : ByteStream → ℕ → ℕ × ByteStream
skip s count =
    let n = min count (sub64 s.buffer_length s.read_position) in
    (n, record s { read_position = add64 s.read_position n })

unfoldable pub rewind : ByteStream → ℕ → ℕ × ByteStream
rewind s count =
    let n = min count s.read_position in (n, record s { read_position = sub64 s.read_position n })

unfoldable pub set_position : ByteStream → ℕ → ℕ × ByteStream
set_position s pos = let n = min pos s.buffer_length in (n, record s { read_position = n })

-- The assignments, on the objects of a program by their names: `this` may be `rhs`.
unfoldable pub copy_assign : (ℕ → ByteStream) → ℕ → ℕ → ℕ → ByteStream
copy_assign objects this rhs i =
    if this == rhs then objects i else (if i == this then objects rhs else objects i)

unfoldable pub move_assign : (ℕ → ByteStream) → ℕ → ℕ → ℕ → ByteStream
move_assign objects this rhs i =
    if this == rhs
    then objects i
    else (if i == this then objects rhs else (if i == rhs then empty else objects i))
