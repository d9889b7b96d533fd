-- ===== src/RingBuffer/Values/Split.antt =====
-- `ReadValues` and `WriteValues` where the bytes go round the end of the block: the test for
-- enough bytes is too weak, and a value in two parts is put together wrongly.
use cxxaudio_utilities.Base.{
  ℕ, ◌+◌, ◌-◌, ◌%◌, ◌≤◌, ◌<◌, ◌≡◌, ◌↔◌, arith, true, false, some, List, [], ◌∷◌, length, min, ltb,
  if◌then◌else◌, add32, sub32, u32_mod, byte_at, memcpy, Copied, memcpy-Copied,
}
use cxxaudio_utilities.RingBuffer.{RingBuffer, advance_read_position}
use cxxaudio_utilities.RingBuffer.Invariant.{Holds, stored}
use cxxaudio_utilities.RingBuffer.Copies.{byte_at-segment}
use cxxaudio_utilities.RingBuffer.Advance.{contents, contents-segment, length-contents, stored-lt}
use cxxaudio_utilities.RingBuffer.Values.{
  Span, read_vector, write_vector, total_size, value_out_second, value_out, values_out, read_values,
  write_values,
}
use cxxaudio_utilities.RingBuffer.Values.Vectors.{read_vector-run_parts, write_vector-run_parts}

abbrev two_parts : ℕ → ℕ → Span × Span
two_parts cap p =
    (record { location = some p; size = cap - p }, record { location = some 0; size = cap })

module _ {r : RingBuffer} {m : List ℕ} (v : Holds r m) where
  read_vector-round :
      r.capacity_bytes < r.read_position + stored r
      → read_vector r ≡ two_parts r.capacity_bytes r.read_position
  read_vector-round round =
      let two : ltb r.capacity_bytes (r.read_position + stored r) ≡ true = ground arith in
      rw (read_vector-run_parts v, length-contents v, two)

  write_vector-round :
      r.capacity_bytes < r.write_position + (r.capacity_bytes - 1 - stored r)
      → write_vector r ≡ two_parts r.capacity_bytes r.write_position
  write_vector-round round =
      let two : ltb r.capacity_bytes (r.write_position + (r.capacity_bytes - 1 - stored r)) ≡ true =
        ground arith in
      rw (write_vector-run_parts v, length-contents v, two)

  -- Where the stored bytes of an allocated ring buffer go round the end of the block, and for
  -- values of less than 2^32 bytes together, `ReadValues` reports that there are too few exactly if
  -- the values are larger than the rest of the block behind the read position and the whole
  -- capacity together, and not if they are larger than what is stored.
  pub read_values_refuses_iff :
      (args : List (List ℕ))
      → r.capacity_bytes < r.read_position + length (contents r)
      → total_size args < u32_mod
      → (read_values r args ≡ some (false, args, r))
        ↔ (r.capacity_bytes - r.read_position + r.capacity_bytes < total_size args)
  unfolding read_values
  read_values_refuses_iff args round bounded =
      let round' : r.capacity_bytes < r.read_position + stored r =
        rw (length-contents v) at round in
      let room = r.capacity_bytes - r.read_position + r.capacity_bytes in
      let sum : add32 (r.capacity_bytes - r.read_position) r.capacity_bytes ≡ room = ground arith in
      let size : total_size args % u32_mod ≡ total_size args = omega arith in
      rw (read_vector-round round', sum, size) (λ e. ground arith, λ e. ground arith)

  -- Where the free bytes of an allocated ring buffer go round the end of the block, and for values
  -- of less than 2^32 bytes together, `WriteValues` reports that there are too few
  -- exactly if the values are larger than the rest of the block behind the write position and the
  -- whole capacity together, and not if they are larger than what is free.
  pub write_values_refuses_iff :
      (args : List (List ℕ))
      → r.capacity_bytes < r.write_position + (r.capacity_bytes - 1 - length (contents r))
      → total_size args < u32_mod
      → (write_values r args ≡ some (false, r))
        ↔ (r.capacity_bytes - r.write_position + r.capacity_bytes < total_size args)
  unfolding write_values
  write_values_refuses_iff args round bounded =
      let round' : r.capacity_bytes < r.write_position + (r.capacity_bytes - 1 - stored r) =
        rw (length-contents v) at round in
      let room = r.capacity_bytes - r.write_position + r.capacity_bytes in
      let sum : add32 (r.capacity_bytes - r.write_position) r.capacity_bytes ≡ room = omega arith in
      let size : total_size args % u32_mod ≡ total_size args = omega arith in
      rw (write_vector-round round', sum, size) (λ e. ground arith, λ e. ground arith)

  -- The copies of one value in two parts.
  value_out_two :
      (value : List ℕ)
      → let k = r.capacity_bytes - r.read_position in
        k < length value
        → length value ≤ r.capacity_bytes
        → (c : Copied value 0 m r.read_position k (memcpy value 0 m r.read_position k))
        → (c' : Copied c.out 0 m 0 (length value - k) (memcpy c.out 0 m 0 (length value - k)))
        → values_out m
            (two_parts r.capacity_bytes r.read_position).0
            (two_parts r.capacity_bytes r.read_position).1
            0
            (value ∷ [])
          ≡ some (c'.out ∷ [], length value)
  unfolding values_out value_out value_out_second
  value_out_two value over fits c c' =
      let k = r.capacity_bytes - r.read_position in
      let size : length value % u32_mod ≡ length value = omega arith in
      let more : ltb 0 k ≡ true = ground arith in
      let part : min (length value) (sub32 k 0) ≡ k = omega arith in
      let from : r.read_position + 0 ≡ r.read_position = omega arith in
      let count : add32 0 k ≡ k = omega arith in
      let rest : sub32 (length value) k ≡ length value - k = omega arith in
      let again : ltb 0 (length value - k) ≡ true = ground arith in
      let start : 0 + sub32 k k ≡ 0 = omega arith in
      let total : add32 k (length value - k) ≡ length value = omega arith in
      rw (size, more, part, from, c.returns, count, rest, again, start, c'.returns, total)

  read_values_two :
      (value : List ℕ)
      → let k = r.capacity_bytes - r.read_position in
        k < length value
        → length value ≤ stored r
        → (c : Copied value 0 m r.read_position k (memcpy value 0 m r.read_position k))
        → (c' : Copied c.out 0 m 0 (length value - k) (memcpy c.out 0 m 0 (length value - k)))
        → read_values r (value ∷ [])
          ≡ some (true, c'.out ∷ [], advance_read_position r (length value))
  unfolding read_values
  read_values_two value over fits c c' =
      let k = r.capacity_bytes - r.read_position in
      let small : stored r < r.capacity_bytes = stored-lt v in
      let sum : add32 k r.capacity_bytes ≡ k + r.capacity_bytes = omega arith in
      let size : total_size (value ∷ []) % u32_mod ≡ length value = omega arith in
      let reads : ltb (k + r.capacity_bytes) (length value) ≡ false = ground arith in
      rw (read_vector-round (omega arith), sum, size, reads)
        (simp (v.allocated, value_out_two value over (omega arith) c c'))

  -- A value of as many bytes as are stored at most, that go round the end of an allocated ring
  -- buffer's block, is reported as read, and its bytes
  -- are taken off, but the part from the start of the block is copied over the start of the value
  -- instead of behind the first part: byte `i` is then byte `k + i` of the contents, with `k` the
  -- size of the first part, and what the second part does not reach keeps byte `i`, or its old one.
  pub read_values_split :
      (value : List ℕ)
      → let k = r.capacity_bytes - r.read_position in
        k < length value
        → length value ≤ length (contents r)
        → (value' : List ℕ) × (read_values r (value ∷ [])
            ≡ some (true, value' ∷ [], advance_read_position r (length value)))
          × ((i : ℕ)
              → i < length value
              → byte_at value' i ≡ (
                  if ltb i (length value - k)
                  then byte_at (contents r) (k + i)
                  else (if ltb i k then byte_at (contents r) i else byte_at value i)))
  read_values_split value over fits =
      let k = r.capacity_bytes - r.read_position in
      let fits' : length value ≤ stored r = rw (length-contents v) at fits in
      let small : stored r < r.capacity_bytes = stored-lt v in
      let c = memcpy-Copied value 0 m r.read_position k (omega arith) (omega arith) in
      let c' =
        memcpy-Copied c.out 0 m 0 (length value - k) (omega (arith, c.same_length)) (omega arith) in
      (
        c'.out,
        read_values_two value over fits' c c',
        λ i h. rw (contents-segment v) (
            ground (
              arith,
              c.at i,
              c'.at i,
              byte_at-segment m r.capacity_bytes r.read_position (stored r) i,
              byte_at-segment m r.capacity_bytes r.read_position (stored r) (k + i),
            )),
      )
