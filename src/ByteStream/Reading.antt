-- ===== src/ByteStream/Reading.antt =====
-- What the operations of a valid `ByteStream` return, and that its position stays in the buffer.
use mathlib.Core.List.{append-nil}
use cxxaudio_utilities.Base.{
  ℕ, ◌+◌, ◌-◌, ◌≤◌, ◌<◌, ◌≡◌, refl, arith, Option, none, some, List, [], ◌++◌, length, take, drop,
  min, add64, sub64, u64_mod, length-take, length-drop, ap, sym, ◌∙◌, drop_all, take-take,
  drop-drop, drop-take, take-drop_append, memcpy_front,
}
use cxxaudio_utilities.ByteStream.{
  Block, ByteStream, empty, from_buffer, copy_from, read, skip, rewind,
}

-- The bytes that the buffer pointer gives access to.
abbrev pub accessible : Option Block → List ℕ
accessible none = []
accessible (some b) = b.bytes

-- The position lies in the buffer, and the buffer in memory.
pub record IsValid (s : ByteStream) : Type 0 where
  pub inside : s.read_position ≤ s.buffer_length
  pub readable : s.buffer_length ≤ length (accessible s.buffer)
  pub fits : s.buffer_length < u64_mod

-- The bytes that are still to be read.
abbrev pub rest : ByteStream → List ℕ
rest s = take (s.buffer_length - s.read_position) (drop s.read_position (accessible s.buffer))

-- The constructor accepts a buffer with a length that its memory has, and a null one with length
-- 0; the stream is valid, and all its bytes are left.
pub from_buffer-IsValid :
    (b : Option Block) (len : ℕ)
    → len ≤ length (accessible b)
    → len < u64_mod
    → (s : ByteStream) × (from_buffer b len ≡ some s)
      × IsValid s
      × (rest s ≡ take len (accessible b))
unfolding from_buffer
from_buffer-IsValid none len le fits =
    let nothing : len ≡ 0 = omega arith in
    let v : IsValid (record empty { buffer_length = len }) = record {
      inside = omega arith;
      readable = omega arith;
      fits = omega arith;
    } in
    (record empty { buffer_length = len }, rw nothing, v, ap (λ (k : ℕ). take k []) (omega arith))
from_buffer-IsValid (some b) len le fits =
    let s : ByteStream = record { buffer = some b; buffer_length = len; read_position = 0 } in
    let v : IsValid s = record { inside = omega arith; readable = le; fits = fits } in
    (s, refl, v, ap (λ (k : ℕ). take k b.bytes) (omega arith))

pub length-rest : {s : ByteStream} → IsValid s → length (rest s) ≡ s.buffer_length - s.read_position
length-rest {s} v = omega (
  arith,
  length-take (s.buffer_length - s.read_position) (drop s.read_position (accessible s.buffer)),
  length-drop s.read_position (accessible s.buffer),
)

-- A copy out of accessible bytes to the start of a block.
copy_from_front :
    (b : Option Block) (p : ℕ) (dst : List ℕ) (n : ℕ)
    → p + n ≤ length (accessible b)
    → n ≤ length dst
    → copy_from b p dst n ≡ some (take n (drop p (accessible b)) ++ drop n dst)
unfolding copy_from
copy_from_front none p dst n le fits = let nothing : n ≡ 0 = omega arith in rw nothing
copy_from_front (some b) p dst n le fits = memcpy_front dst b.bytes p n fits le

-- What moving the position on by `k` leaves: the same buffer, and the rest without `k` bytes.
pub record Moved (s s' : ByteStream) (k : ℕ) : Type 0 where
  pub same_buffer : s'.buffer ≡ s.buffer
  pub same_length : s'.buffer_length ≡ s.buffer_length
  pub position : s'.read_position ≡ s.read_position + k
  pub valid : IsValid s'
  pub left : rest s' ≡ drop k (rest s)

module _ {s : ByteStream} (v : IsValid s) where
  pub room : sub64 s.buffer_length s.read_position ≡ s.buffer_length - s.read_position
  room = omega (arith, v.inside, v.fits)

  moved :
      (k : ℕ)
      → k ≤ s.buffer_length - s.read_position
      → Moved s (record s { read_position = add64 s.read_position k }) k
  moved k le =
      let sum : add64 s.read_position k ≡ s.read_position + k = omega (arith, v.inside, v.fits) in
      rw sum (record {
        same_buffer = refl;
        same_length = refl;
        position = refl;
        valid = record { inside = omega (arith, v.inside); readable = v.readable; fits = v.fits };
        left =
            ap (λ (j : ℕ). take j (drop (s.read_position + k) (accessible s.buffer))) (omega arith)
            ∙ ap (take (s.buffer_length - s.read_position - k))
                (sym (drop-drop s.read_position k (accessible s.buffer)))
            ∙ sym (
                drop-take k (s.buffer_length - s.read_position)
                  (drop s.read_position (accessible s.buffer)));
      })

  pub Moved_none : Moved s s 0
  Moved_none = record {
    same_buffer = refl;
    same_length = refl;
    position = omega arith;
    valid = v;
    left = refl;
  }

  -- On a valid stream, `Skip` passes over as many bytes as are asked for and left, and returns
  -- their number.
  pub skip-Moved :
      (n : ℕ)
      → ((skip s n).0 ≡ min n (length (rest s))) × Moved s (skip s n).1 (min n (length (rest s)))
  unfolding skip
  skip-Moved n =
      rw (length-rest v, room)
        (refl, moved (min n (s.buffer_length - s.read_position)) (omega arith))

  -- On a valid stream and into memory of at least `n` bytes, `Read` hands out as many bytes as are
  -- asked for and left, in order, and passes over them; to a null destination it only passes over
  -- them.
  pub read-Moved :
      (dst : List ℕ) (n : ℕ)
      → n ≤ length dst
      → let k = min n (length (rest s)) in
        (s' : ByteStream) × (read s (some dst) n
          ≡ some (k, some (take k (rest s) ++ drop k dst), s'))
        × (read s none n ≡ some (k, none, s'))
        × Moved s s' k
  unfolding read
  read-Moved dst n fits =
      let k = min n (s.buffer_length - s.read_position) in
      let inside = v.inside in
      let readable = v.readable in
      let copied = copy_from_front s.buffer s.read_position dst k (omega arith) (omega arith) in
      let front : take k (rest s) ≡ take k (drop s.read_position (accessible s.buffer)) =
        take-take k (s.buffer_length - s.read_position) (drop s.read_position (accessible s.buffer))
          (omega arith) in
      rw (length-rest v, room)
        (
          record s { read_position = add64 s.read_position k },
          rw (copied, front),
          refl,
          moved k (omega arith),
        )

-- A read of bytes that are all left, into memory of just that size.
pub read_whole :
    {s : ByteStream} (dst : List ℕ)
    → IsValid s
    → length dst ≤ length (rest s)
    → (s' : ByteStream) × (read s (some dst) (length dst)
        ≡ some (length dst, some (take (length dst) (rest s)), s'))
      × Moved s s' (length dst)
read_whole {s} dst v le =
    let n = length dst in
    let r = read-Moved v dst n (omega arith) in
    let all : min n (length (rest s)) ≡ n = omega arith in
    let full : take n (rest s) ++ drop n dst ≡ take n (rest s) =
      rw (drop_all n dst (omega arith)) (append-nil (take n (rest s))) in
    (r.0, rw (r.1, all, full), rw all at r.3)

Moved-eq : {s a b : ByteStream} {k : ℕ} → Moved s a k → Moved s b k → a ≡ b
Moved-eq ma mb = ground arith

-- On a valid stream with enough bytes left, two reads in a row, each into memory of its size, hand
-- out what one read of both sizes does.
pub read-read :
    {s : ByteStream} (one two both : List ℕ)
    → IsValid s
    → length one + length two ≤ length (rest s)
    → length both ≡ length one + length two
    → (a : List ℕ) × (b : List ℕ) × (s' : ByteStream) × (s'' : ByteStream) × (read s
          (some one)
          (length one)
        ≡ some (length one, some a, s'))
      × (read s' (some two) (length two) ≡ some (length two, some b, s''))
      × (read s (some both) (length both) ≡ some (length both, some (a ++ b), s''))
read-read {s} one two both v enough same =
    let n = length one in
    let r = read_whole one v (omega arith) in
    let after : length (rest r.0) ≡ length (rest s) - n = rw (r.2.left) (length-drop n (rest s)) in
    let r' = read_whole two r.2.valid (omega (arith, after)) in
    let r'' = read_whole both v (omega arith) in
    let joined : take (length both) (rest s) ≡ take n (rest s) ++ take (length two) (rest r.0) =
      ap (λ (k : ℕ). take k (rest s)) same
      ∙ sym (take-drop_append n (length two) (rest s))
      ∙ ap (λ q. take n (rest s) ++ take (length two) q) (sym r.2.left) in
    let end : Moved s r'.0 (length both) = record {
      same_buffer = r'.2.same_buffer ∙ r.2.same_buffer;
      same_length = r'.2.same_length ∙ r.2.same_length;
      position = omega (arith, r'.2.position, r.2.position);
      valid = r'.2.valid;
      left =
          r'.2.left
          ∙ ap (drop (length two)) r.2.left
          ∙ drop-drop n (length two) (rest s)
          ∙ ap (λ (k : ℕ). drop k (rest s)) (sym same);
    } in
    (
      take n (rest s),
      take (length two) (rest r.0),
      r.0,
      r'.0,
      r.1,
      r'.1,
      rw (← joined, ← Moved-eq r''.2 end) r''.1,
    )

-- On a valid stream, `Rewind` by what `Skip` passed over brings the stream back to where it was.
pub rewind-skip :
    {s : ByteStream} (n : ℕ) → IsValid s → rewind (skip s n).1 (skip s n).0 ≡ ((skip s n).0, s)
unfolding rewind skip
rewind-skip {s} n v =
    let k = min n (s.buffer_length - s.read_position) in
    let inside = v.inside in
    let fits = v.fits in
    let sum : add64 s.read_position k ≡ s.read_position + k = omega arith in
    let least : min k (s.read_position + k) ≡ k = omega arith in
    let back : sub64 (s.read_position + k) k ≡ s.read_position = omega arith in
    rw (room v, sum, least, back)
