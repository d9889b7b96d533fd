-- ===== src/RingBuffer/Values/Reads.antt =====
-- `ReadValues` where the stored bytes do not go round the end of the block.
use cxxaudio_utilities.Base.{
  ℕ, ◌+◌, ◌%◌, ◌≤◌, ◌<◌, ◌≡◌, arith, inl, inr, true, false, Bool-cases, Option, none, some, List,
  [], ◌∷◌, length, take, drop, min, ltb, leb, if◌then◌else◌, add32, sub32, u32_mod, byte_at, Copied,
  memcpy-Copied, get_or_ext, get_or-take, get_or-drop, length-take, length-drop, drop-drop,
  drop_all, ap,
}
use cxxaudio_utilities.RingBuffer.{RingBuffer, advance_read_position}
use cxxaudio_utilities.RingBuffer.Invariant.{Holds, stored}
use cxxaudio_utilities.RingBuffer.Copies.{byte_at-segment}
use cxxaudio_utilities.RingBuffer.Advance.{contents, contents-segment, length-contents}
use cxxaudio_utilities.RingBuffer.Values.{
  Span, read_vector, total_size, value_out_second, value_out, values_out, read_values,
}
use cxxaudio_utilities.RingBuffer.Values.Vectors.{read_vector-run_parts}

-- The front of a queue cut into values of the sizes of the old ones.
unfoldable pub cut : List ℕ → List (List ℕ) → List (List ℕ)
cut q [] = []
cut q (a ∷ as') = take (length a) q ∷ cut (drop (length a) q) as'

-- `q` is the run of `n` bytes of `m` from `p` on.
abbrev IsRun : List ℕ → ℕ → ℕ → List ℕ → Type 0
IsRun m p n q = (length q ≡ n) × ((i : ℕ) → i < n → byte_at q i ≡ byte_at m (p + i))

abbrev pub part : ℕ → ℕ → Span
part p n = record { location = some p; size = n }

abbrev pub no_part : Span
no_part = record { location = none; size = 0 }

-- A value copied from one part is the bytes of that part.
module _ (m : List ℕ) (p n : ℕ) (inside : p + n ≤ length m) (small : length m ≤ 0x8000_0000) where
  Copied-take :
      (q : List ℕ) (b : ℕ) (a : List ℕ) {result : Option (List ℕ)}
      → IsRun m p n q
      → b + length a ≤ n
      → (c : Copied a 0 m (p + b) (length a) result) → c.out ≡ take (length a) (drop b q)
  Copied-take q b a run fits c =
      get_or_ext 0 c.out (take (length a) (drop b q))
        (omega (arith, c.same_length, length-take (length a) (drop b q), length-drop b q, run.0))
        λ i h. ground (
          arith,
          c.at i,
          c.same_length,
          get_or-take (length a) (drop b q) i 0,
          get_or-drop b q i 0,
          run.1 (b + i),
        )

  value_out_run :
      (q : List ℕ) (b : ℕ) (a : List ℕ)
      → IsRun m p n q
      → b + length a ≤ n
      → value_out m (part p n) no_part b a ≡ some (take (length a) (drop b q), b + length a)
  unfolding value_out value_out_second
  value_out_run q b a run fits =
      let size : length a % u32_mod ≡ length a = omega arith in
      elim (Bool-cases (ltb b n)) [
        | inl more ↦
            let before : b < n = ground arith in
            let whole : min (length a) (sub32 n b) ≡ length a = omega arith in
            let rest : sub32 (length a) (length a) ≡ 0 = omega arith in
            let sum : add32 b (length a) ≡ b + length a = omega arith in
            let c = memcpy-Copied a 0 m (p + b) (length a) (omega arith) (omega arith) in
            rw (more, size, whole, rest, sum, c.returns, Copied-take q b a run fits c)
        | inr done ↦
            let none_left : length a ≡ 0 = ground arith in
            let nil : a ≡ [] = drop_all 0 a (omega arith) in
            rw (done, nil) (ap (λ (k : ℕ). some ([], k)) (omega arith))
      ]

  values_out_run :
      (q : List ℕ) (b : ℕ) (as' : List (List ℕ))
      → IsRun m p n q
      → b + total_size as' ≤ n
      → values_out m (part p n) no_part b as' ≡ some (cut (drop b q) as', b + total_size as')
  unfolding values_out cut
  values_out_run q b [] run fits = ap (λ (k : ℕ). some ([], k)) (omega arith)
  values_out_run q b (a ∷ as') run fits =
      let rest = values_out_run q (b + length a) as' run (omega arith) in
      rw (value_out_run q b a run (omega arith), rest, drop-drop b (length a) q)
        (ap (λ (k : ℕ). some (take (length a) (drop b q) ∷ cut (drop (b + length a) q) as', k))
          (omega arith))

module _ {r : RingBuffer} {m : List ℕ} (v : Holds r m) where
  contents-IsRun :
      r.read_position + stored r ≤ r.capacity_bytes
      → IsRun m r.read_position (stored r) (contents r)
  contents-IsRun flat = (
    length-contents v,
    λ i h.
        rw (contents-segment v)
          (ground (arith, byte_at-segment m r.capacity_bytes r.read_position (stored r) i)),
  )

  read_vector-flat :
      r.read_position + stored r ≤ r.capacity_bytes
      → read_vector r ≡ (part r.read_position (stored r), no_part)
  read_vector-flat flat =
      let one : ltb r.capacity_bytes (r.read_position + stored r) ≡ false = ground arith in
      rw (read_vector-run_parts v, length-contents v, one)

  -- Where the stored bytes of an allocated ring buffer do not go round the end of the block, and
  -- for values of less than 2^32 bytes together, `ReadValues` succeeds exactly if they are as many
  -- as the values need together; it then cuts the values off the front of the contents, in order,
  -- and otherwise changes nothing.
  pub read_values-cut :
      (args : List (List ℕ))
      → r.read_position + length (contents r) ≤ r.capacity_bytes
      → total_size args < u32_mod
      → read_values r args ≡ (
          if leb (total_size args) (length (contents r))
          then some (true, cut (contents r) args, advance_read_position r (total_size args))
          else some (false, args, r))
  unfolding read_values
  read_values-cut args flat fits =
      let flat' : r.read_position + stored r ≤ r.capacity_bytes = rw (length-contents v) at flat in
      let room : add32 (stored r) 0 ≡ stored r = ground arith in
      let size : total_size args % u32_mod ≡ total_size args = omega arith in
      rw (read_vector-flat flat', length-contents v, room, size)
        (elim (Bool-cases (leb (total_size args) (stored r))) [
          | inl enough ↦
              let reads : ltb (stored r) (total_size args) ≡ false = ground arith in
              let out =
                values_out_run m r.read_position (stored r) (omega arith) (omega arith) (contents r)
                  0 args (contents-IsRun flat') (ground arith) in
              let zero_total : 0 + total_size args ≡ total_size args = omega arith in
              rw (enough, reads) (simp (v.allocated, out, zero_total))
          | inr few ↦
              let refuses : ltb (stored r) (total_size args) ≡ true = ground arith in
              rw (few, refuses)
        ])
