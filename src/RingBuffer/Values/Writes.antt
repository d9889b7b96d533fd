-- ===== src/RingBuffer/Values/Writes.antt =====
-- `WriteValues` where the free bytes do not go round the end of the block.
use cxxaudio_utilities.Base.{
  ℕ, ◌+◌, ◌-◌, ◌%◌, ◌≤◌, ◌<◌, ◌≡◌, refl, arith, inl, inr, true, false, Bool-cases, Option, some,
  List, [], ◌∷◌, ◌++◌, length, min, ltb, leb, if◌then◌else◌, add32, sub32, u32_mod, byte_at, memcpy,
  Copied, memcpy-Copied, drop_all, take_all, ap, ◌∙◌, get_or-append, length-append,
}
use cxxaudio_utilities.RingBuffer.{RingBuffer, advance_write_position}
use cxxaudio_utilities.RingBuffer.Invariant.{Holds, stored}
use cxxaudio_utilities.RingBuffer.Copies.{Stored}
use cxxaudio_utilities.RingBuffer.Advance.{
  contents, length-contents, Leaves, advance_write_position-Leaves,
}
use cxxaudio_utilities.RingBuffer.Values.{
  write_vector, total_size, value_in_second, value_in, values_in, write_values,
}
use cxxaudio_utilities.RingBuffer.Values.Vectors.{write_vector-run_parts}
use cxxaudio_utilities.RingBuffer.Values.Reads.{part, no_part}

-- The bytes of the values, in order.
abbrev pub joined : List (List ℕ) → List ℕ
joined [] = []
joined (a ∷ as') = a ++ joined as'

length-joined : (args : List (List ℕ)) → length (joined args) ≡ total_size args
length-joined [] = refl
length-joined (a ∷ as') = omega (arith, length-append a (joined as'), length-joined as')

-- `m` with `src` placed from index `at'` on, and the count after `b` bytes and those of `src`.
record Placed (m : List ℕ) (at' b : ℕ) (src : List ℕ) (result : Option (List ℕ × ℕ)) : Type 0 where
  out : List ℕ
  returns : result ≡ some (out, b + length src)
  same_length : length out ≡ length m
  at :
      (i : ℕ)
      → byte_at out i ≡ (
          if ltb i at'
          then byte_at m i
          else (if ltb i (at' + length src) then byte_at src (i - at') else byte_at m i))

module _ (p n : ℕ) (small : p + n ≤ 0x8000_0000) where
  value_in-Copied :
      (m : List ℕ) (b : ℕ) (a : List ℕ)
      → b + length a ≤ n
      → b < n
      → Copied m (p + b) a 0 (length a) (memcpy m (p + b) a 0 (length a))
      → Placed m (p + b) b a (value_in m (part p n) no_part b a)
  unfolding value_in value_in_second
  value_in-Copied m b a fits before c =
      let size : length a % u32_mod ≡ length a = omega arith in
      let more : ltb b n ≡ true = ground arith in
      let whole : min (length a) (sub32 n b) ≡ length a = omega arith in
      let rest : sub32 (length a) (length a) ≡ 0 = omega arith in
      let sum : add32 b (length a) ≡ b + length a = omega arith in
      record {
        out = c.out;
        returns = rw (more, size, whole, rest, sum, c.returns);
        same_length = c.same_length;
        at = λ i. ground (arith, c.at i);
      }

  value_in_run :
      (m : List ℕ) (b : ℕ) (a : List ℕ)
      → p + n ≤ length m
      → b + length a ≤ n
      → Placed m (p + b) b a (value_in m (part p n) no_part b a)
  unfolding value_in value_in_second
  value_in_run m b a inside fits = elim (Bool-cases (ltb b n)) [
    | inl more ↦
        let before : b < n = ground arith in
        value_in-Copied m b a fits before
          (memcpy-Copied m (p + b) a 0 (length a) (omega arith) (omega arith))
    | inr done ↦
        let none_left : length a ≡ 0 = ground arith in
        let nil : a ≡ [] = drop_all 0 a (omega arith) in
        rw nil (record {
          out = m;
          returns = rw done (ap (λ (k : ℕ). some (m, k)) (omega arith));
          same_length = refl;
          at = λ i. ground arith;
        })
  ]

  values_in_run :
      (m : List ℕ) (b : ℕ) (as' : List (List ℕ))
      → p + n ≤ length m
      → b + total_size as' ≤ n
      → Placed m (p + b) b (joined as') (values_in m (part p n) no_part b as')
  unfolding values_in
  values_in_run m b [] inside fits = record {
    out = m;
    returns = ap (λ (k : ℕ). some (m, k)) (omega arith);
    same_length = refl;
    at = λ i. ground arith;
  }
  values_in_run m b (a ∷ as') inside fits =
      let one = value_in_run m b a inside (omega arith) in
      let rest =
        values_in_run one.out (b + length a) as' (omega (arith, one.same_length)) (omega arith) in
      let total : b + length a + length (joined as') ≡ b + length (a ++ joined as') =
        omega (arith, length-append a (joined as')) in
      record {
        out = rest.out;
        returns = rw one.returns (rest.returns ∙ ap (λ (k : ℕ). some (rest.out, k)) total);
        same_length = rest.same_length ∙ one.same_length;
        at = λ i. ground (
          arith,
          one.at i,
          rest.at i,
          length-append a (joined as'),
          get_or-append a (joined as') (i - (p + b)) 0,
        );
      }

module _ {r : RingBuffer} {m : List ℕ} (v : Holds r m) where
  write_vector-flat :
      r.write_position + (r.capacity_bytes - 1 - stored r) ≤ r.capacity_bytes
      → write_vector r ≡ (part r.write_position (r.capacity_bytes - 1 - stored r), no_part)
  write_vector-flat flat =
      let one : ltb r.capacity_bytes (r.write_position + (r.capacity_bytes - 1 - stored r))
          ≡ false =
        ground arith in
      rw (write_vector-run_parts v, length-contents v, one)

  -- Where the free bytes of an allocated ring buffer do not go round the end of the block, and for
  -- values of less than 2^32 bytes together, `WriteValues` succeeds exactly if
  -- they are as many as the values have together; it then appends the values to the contents, in
  -- order, and otherwise changes nothing.
  pub write_values-joined :
      (args : List (List ℕ))
      → r.write_position + (r.capacity_bytes - 1 - length (contents r)) ≤ r.capacity_bytes
      → total_size args < u32_mod
      → let fits = leb (total_size args) (r.capacity_bytes - 1 - length (contents r)) in
        (r' : RingBuffer) × (m' : List ℕ) × (write_values r args ≡ some (fits, r'))
        × Leaves r r' m' (if fits then contents r ++ joined args else contents r)
  unfolding write_values
  write_values-joined args flat bounded =
      let free = r.capacity_bytes - 1 - stored r in
      let flat' : r.write_position + free ≤ r.capacity_bytes = rw (length-contents v) at flat in
      let room : add32 free 0 ≡ free = omega arith in
      let size : total_size args % u32_mod ≡ total_size args = omega arith in
      rw (write_vector-flat flat', length-contents v, room, size)
        (elim (Bool-cases (leb (total_size args) free)) [
          | inl enough ↦
              let writes : ltb free (total_size args) ≡ false = ground arith in
              let placed =
                values_in_run r.write_position free (omega arith) m 0 args (omega arith)
                  (ground arith) in
              let width : length (joined args) ≡ total_size args = length-joined args in
              let s : Stored m (joined args) r.capacity_bytes r.write_position (total_size args)
                  (some placed.out) =
                record {
                  out = placed.out;
                  returns = refl;
                  same_length = placed.same_length;
                  at = λ j h. ground (arith, placed.at j, width);
                } in
              let zero_total : 0 + length (joined args) ≡ total_size args = omega (arith, width) in
              let left =
                advance_write_position-Leaves v (joined args) (total_size args) (ground arith)
                  (omega (arith, width)) s in
              rw (enough, writes)
                (
                  advance_write_position (record r { buffer = some placed.out }) (total_size args),
                  placed.out,
                  simp (v.allocated, placed.returns, zero_total),
                  rw (take_all (total_size args) (joined args) (omega (arith, width))) at left,
                )
          | inr few ↦
              let refuses : ltb free (total_size args) ≡ true = ground arith in
              rw (few, refuses) (r, m, refl, record { holds = v; now = refl; same_capacity = refl })
        ])
