-- ===== src/RingBuffer/Copies.antt =====
-- The two copies of a transfer, one up to the end of the block and one from its start, move one
-- run of bytes that goes round the block.
use cxxaudio_utilities.Base.{
  ℕ, ◌+◌, ◌-◌, ◌≤◌, ◌<◌, ◌≡◌, ap, arith, inl, inr, Bool-cases, Option, some, List, ◌++◌, length,
  drop, tabulate, leb, ltb, if◌then◌else◌, add32, sub32, byte_at, memcpy, true, ◌∙◌, Copied,
  memcpy-Copied, get_or_ext, get_or-append, get_or-drop, get_or-tabulate, length-append,
  length-drop, length-tabulate,
}
use cxxaudio_utilities.RingBuffer.{RingBuffer, copy_out, copy_in}
use cxxaudio_utilities.RingBuffer.Invariant.{Holds, wrap}

-- The `n` bytes from index `p` on, going round at `cap`.
abbrev pub segment : List ℕ → ℕ → ℕ → ℕ → List ℕ
segment m cap p n = tabulate n (λ i. byte_at m (wrap cap (p + i)))

pub byte_at-segment :
    (m : List ℕ) (cap p n i : ℕ)
    → byte_at (segment m cap p n) i ≡ (if ltb i n then byte_at m (wrap cap (p + i)) else 0)
byte_at-segment m cap p n i = get_or-tabulate n (λ j. byte_at m (wrap cap (p + j))) i 0

pub length-segment : (m : List ℕ) (cap p n : ℕ) → length (segment m cap p n) ≡ n
length-segment m cap p n = length-tabulate n (λ i. byte_at m (wrap cap (p + i)))

-- A block that starts with a segment and goes on as `dst` is known index by index.
pub segment_ext :
    (out m dst : List ℕ) (cap p n : ℕ)
    → n ≤ length dst
    → length out ≡ length dst
    → ((i : ℕ)
        → i < length dst
        → byte_at out i ≡ (if ltb i n then byte_at m (wrap cap (p + i)) else byte_at dst i))
    → out ≡ segment m cap p n ++ drop n dst
segment_ext out m dst cap p n fits same at =
    get_or_ext 0 out (segment m cap p n ++ drop n dst)
      (omega (
        arith,
        length-append (segment m cap p n) (drop n dst),
        length-segment m cap p n,
        length-drop n dst,
      ))
      λ i h. ground (
        arith,
        at i,
        get_or-append (segment m cap p n) (drop n dst) i 0,
        byte_at-segment m cap p n i,
        length-segment m cap p n,
        get_or-drop n dst (i - n) 0,
      )

-- The bytes from `p` on in two copies, up to the end of the block and from its start.
pub segment_of_two :
    (dst m : List ℕ) (cap p n : ℕ) {one two : Option (List ℕ)}
    → n ≤ cap
    → p < cap
    → cap ≤ p + n
    → n ≤ length dst
    → (c : Copied dst 0 m p (cap - p) one) → (c' : Copied c.out (cap - p) m 0 (n - (cap - p)) two)
    → c'.out ≡ segment m cap p n ++ drop n dst
segment_of_two dst m cap p n small inside round fits c c' =
    segment_ext c'.out m dst cap p n fits (c'.same_length ∙ c.same_length)
      λ i h. ground (arith, c.at i, c'.at i)

-- How far index `j` lies behind `p`, going round at `cap`.
abbrev pub distance : ℕ → ℕ → ℕ → ℕ
distance cap p j = if leb p j then j - p else j + cap - p

-- `m` with the first `n` bytes of `src` stored from index `p` on, going round at `cap`.
pub record Stored (m src : List ℕ) (cap p n : ℕ) (result : Option (List ℕ)) : Type 0 where
  pub out : List ℕ
  pub returns : result ≡ some out
  pub same_length : length out ≡ length m
  pub at :
      (j : ℕ)
      → j < cap
      → byte_at out j
        ≡ (if ltb (distance cap p j) n then byte_at src (distance cap p j) else byte_at m j)

module _ {r : RingBuffer} {m : List ℕ} (v : Holds r m) where
  -- What `Read` and `Peek` copy: the bytes from the read position on, round the end of the block.
  pub copy_out_lem :
      (dst : List ℕ) (n : ℕ)
      → n ≤ r.capacity_bytes
      → n ≤ length dst
      → copy_out r m dst n ≡ some (segment m r.capacity_bytes r.read_position n ++ drop n dst)
  unfolding copy_out
  copy_out_lem dst n small fits =
      elim (Bool-cases (ltb r.capacity_bytes (add32 r.read_position n))) [
        | inl round ↦
            let k = r.capacity_bytes - r.read_position in
            let after : sub32 r.capacity_bytes r.read_position ≡ k = omega arith in
            let over : r.capacity_bytes ≤ r.read_position + n = ground arith in
            let rest : sub32 n k ≡ n - k = omega arith in
            let c = memcpy-Copied dst 0 m r.read_position k (omega arith) (omega arith) in
            let c' =
              memcpy-Copied c.out k m 0 (n - k) (omega (arith, c.same_length)) (omega arith) in
            rw (round, after, rest, c.returns, c'.returns)
              (ap some (
                segment_of_two dst m r.capacity_bytes r.read_position n small v.read_in over fits c
                  c'))
        | inr flat ↦
            let c = memcpy-Copied dst 0 m r.read_position n (omega arith) (ground arith) in
            rw (flat, c.returns)
              (ap some (
                segment_ext c.out m dst r.capacity_bytes r.read_position n fits c.same_length
                  λ i h. ground (arith, c.at i)))
      ]

  copy_in_round :
      (src : List ℕ) (n : ℕ)
      → n ≤ r.capacity_bytes
      → r.capacity_bytes < r.write_position + n
      → let k = r.capacity_bytes - r.write_position in
        (c : Copied m r.write_position src 0 k (memcpy m r.write_position src 0 k))
        → Copied c.out 0 src k (n - k) (memcpy c.out 0 src k (n - k))
        → Stored m src r.capacity_bytes r.write_position n (copy_in r m src n)
  unfolding copy_in
  copy_in_round src n small over c c' =
      let k = r.capacity_bytes - r.write_position in
      let after : sub32 r.capacity_bytes r.write_position ≡ k = omega arith in
      let rest : sub32 n k ≡ n - k = omega arith in
      let round : ltb r.capacity_bytes (add32 r.write_position n) ≡ true = ground arith in
      record {
        out = c'.out;
        returns = rw (round, after, rest, c.returns, c'.returns);
        same_length = c'.same_length ∙ c.same_length;
        at = λ j h. ground (arith, c.at j, c'.at j);
      }

  -- What `Write` stores: the bytes of the source from the write position on.
  pub copy_in-Stored :
      (src : List ℕ) (n : ℕ)
      → n ≤ r.capacity_bytes
      → n ≤ length src
      → Stored m src r.capacity_bytes r.write_position n (copy_in r m src n)
  unfolding copy_in
  copy_in-Stored src n small fits =
      elim (Bool-cases (ltb r.capacity_bytes (add32 r.write_position n))) [
        | inl round ↦
            let k = r.capacity_bytes - r.write_position in
            let over : r.capacity_bytes < r.write_position + n = ground arith in
            let c = memcpy-Copied m r.write_position src 0 k (omega arith) (omega arith) in
            copy_in_round src n small over c
              (memcpy-Copied c.out 0 src k (n - k) (omega (arith, c.same_length)) (omega arith))
        | inr flat ↦
            let c = memcpy-Copied m r.write_position src 0 n (ground arith) (omega arith) in
            record {
              out = c.out;
              returns = rw flat c.returns;
              same_length = c.same_length;
              at = λ j h. ground (arith, c.at j);
            }
      ]
