-- ===== src/RingBuffer/Advance.antt =====
-- The contents of a ring buffer, oldest byte first, and how moving a position changes them.
use cxxaudio_utilities.Base.{
  ℕ, ◌+◌, ◌-◌, ◌≤◌, ◌<◌, ◌≡◌, refl, sym, ap, arith, Option, none, some, List, [], ◌++◌, length,
  take, drop, ◌∙◌, add32, get_or_ext, get_or-append, get_or-drop, get_or-take, length-append,
  length-drop, length-take, bit_and,
}
use cxxaudio_utilities.RingBuffer.{RingBuffer, advance_read_position, advance_write_position}
use cxxaudio_utilities.RingBuffer.Invariant.{Holds, stored, wrap, mask-wrap}
use cxxaudio_utilities.RingBuffer.Copies.{segment, byte_at-segment, length-segment, Stored}

unfoldable pub contents : RingBuffer → List ℕ
contents r = elim r.buffer [
  | none ↦ []
  | some m ↦ segment m r.capacity_bytes r.read_position (stored r)
]

module _ {r : RingBuffer} {m : List ℕ} (v : Holds r m) where
  pub contents-segment : contents r ≡ segment m r.capacity_bytes r.read_position (stored r)
  unfolding contents
  contents-segment = rw v.allocated

  pub length-contents : length (contents r) ≡ stored r
  length-contents =
      rw contents-segment (length-segment m r.capacity_bytes r.read_position (stored r))

  pub stored-lt : stored r < r.capacity_bytes
  stored-lt = ground arith

-- Leaving out the first `n` bytes of a segment moves its start.
pub drop-segment :
    (m : List ℕ) (cap p n k : ℕ)
    → p < cap
    → k ≤ n
    → n ≤ cap
    → drop k (segment m cap p n) ≡ segment m cap (wrap cap (p + k)) (n - k)
drop-segment m cap p n k inside le small =
    get_or_ext 0 (drop k (segment m cap p n)) (segment m cap (wrap cap (p + k)) (n - k))
      (omega (
        arith,
        length-drop k (segment m cap p n),
        length-segment m cap p n,
        length-segment m cap (wrap cap (p + k)) (n - k),
      ))
      λ i h. ground (
        arith,
        get_or-drop k (segment m cap p n) i 0,
        byte_at-segment m cap p n (k + i),
        byte_at-segment m cap (wrap cap (p + k)) (n - k) i,
      )

pub take-segment :
    (m : List ℕ) (cap p n k : ℕ) → k ≤ n → take k (segment m cap p n) ≡ segment m cap p k
take-segment m cap p n k le =
    get_or_ext 0 (take k (segment m cap p n)) (segment m cap p k)
      (omega (
        arith,
        length-take k (segment m cap p n),
        length-segment m cap p n,
        length-segment m cap p k,
      ))
      λ i h. ground (
        arith,
        get_or-take k (segment m cap p n) i 0,
        byte_at-segment m cap p n i,
        byte_at-segment m cap p k i,
      )

-- What is stored behind a segment extends it.
pub segment-Stored :
    (m src : List ℕ) (cap p w n k : ℕ) {result : Option (List ℕ)}
    → p < cap
    → n + k ≤ cap
    → w ≡ wrap cap (p + n)
    → k ≤ length src
    → (s : Stored m src cap w k result)
    → segment s.out cap p (n + k) ≡ segment m cap p n ++ take k src
segment-Stored m src cap p w n k inside small start fits s =
    get_or_ext 0 (segment s.out cap p (n + k)) (segment m cap p n ++ take k src)
      (omega (
        arith,
        length-append (segment m cap p n) (take k src),
        length-segment m cap p n,
        length-segment s.out cap p (n + k),
        length-take k src,
      ))
      λ i h. ground (
        arith,
        length-segment s.out cap p (n + k),
        s.at (wrap cap (p + i)),
        get_or-append (segment m cap p n) (take k src) i 0,
        byte_at-segment m cap p n i,
        byte_at-segment s.out cap p (n + k) i,
        length-segment m cap p n,
        get_or-take k src (i - n) 0,
      )

-- What a step leaves: the new block, the new contents, and the capacity as it was.
pub record Leaves (r r' : RingBuffer) (m : List ℕ) (q : List ℕ) : Type 0 where
  pub holds : Holds r' m
  pub now : contents r' ≡ q
  pub same_capacity : r'.capacity_bytes ≡ r.capacity_bytes

module _ {r : RingBuffer} {m : List ℕ} (v : Holds r m) where
  -- Moving the read position by at most what is stored drops that many bytes.
  pub advance_read_position-Leaves :
      (n : ℕ) → n ≤ stored r → Leaves r (advance_read_position r n) m (drop n (contents r))
  unfolding advance_read_position
  advance_read_position-Leaves n le =
      let c = r.capacity_bytes in
      let p = wrap c (r.read_position + n) in
      let sum : add32 r.read_position n ≡ r.read_position + n = ground arith in
      let moved : bit_and (add32 r.read_position n) r.capacity_bytes_mask ≡ p =
        rw sum (mask-wrap (r.read_position + n) v.capacity v.mask (ground arith)) in
      let r' = record r { read_position = p } in
      let inside : p < c = ground arith in
      let v' : Holds r' m = record {
        allocated = v.allocated;
        size = v.size;
        capacity = v.capacity;
        mask = v.mask;
        read_in = inside;
        write_in = v.write_in;
      } in
      let left : stored r' ≡ stored r - n = ground arith in
      rw moved (record {
        holds = v';
        now =
            contents-segment v'
            ∙ ap (segment m c p) left
            ∙ sym (drop-segment m c r.read_position (stored r) n v.read_in le (ground arith))
            ∙ ap (drop n) (sym (contents-segment v));
        same_capacity = refl;
      })

  -- Storing `n` bytes at the write position, and moving it by `n`, appends them.
  pub advance_write_position-Leaves :
      (src : List ℕ) (n : ℕ) {result : Option (List ℕ)}
      → n ≤ r.capacity_bytes - 1 - stored r
      → n ≤ length src
      → (s : Stored m src r.capacity_bytes r.write_position n result)
      → Leaves r
          (advance_write_position (record r { buffer = some s.out }) n)
          s.out
          (contents r ++ take n src)
  unfolding advance_write_position
  advance_write_position-Leaves src n le fits s =
      let c = r.capacity_bytes in
      let w = wrap c (r.write_position + n) in
      let sum : add32 r.write_position n ≡ r.write_position + n = ground arith in
      let moved : bit_and (add32 r.write_position n) r.capacity_bytes_mask ≡ w =
        rw sum (mask-wrap (r.write_position + n) v.capacity v.mask (ground arith)) in
      let r' = record r { buffer = some s.out; write_position = w } in
      let inside : w < c = ground arith in
      let v' : Holds r' s.out = record {
        allocated = refl;
        size = s.same_length ∙ v.size;
        capacity = v.capacity;
        mask = v.mask;
        read_in = v.read_in;
        write_in = inside;
      } in
      let more : stored r' ≡ stored r + n = ground arith in
      let start : r.write_position ≡ wrap c (r.read_position + stored r) = ground arith in
      rw moved (record {
        holds = v';
        now =
            contents-segment v'
            ∙ ap (segment s.out c r.read_position) more
            ∙ segment-Stored m src c r.read_position r.write_position (stored r) n v.read_in
                (ground arith) start fits s
            ∙ ap (λ q. q ++ take n src) (sym (contents-segment v));
        same_capacity = refl;
      })
