-- ===== src/RingBuffer/Allocation.antt =====
-- The life of a ring buffer: what `Allocate` and `Deallocate` leave.
use cxxaudio_utilities.Base.{
  ℕ, ◌≤◌, ◌<◌, ◌≡◌, refl, arith, ◌⊎◌, inl, inr, Bool, true, false, Option, none, some, List, [],
  length, ◌||◌, ltb, Option-cases, Bool-cases, sub32,
}
use cxxaudio_utilities.PowerOfTwo.{next_power_of_two}
use cxxaudio_utilities.PowerOfTwo.Laws.{IsNextPower, next_power_of_two-IsNextPower}
use cxxaudio_utilities.RingBuffer.{RingBuffer, empty, allocate, deallocate}
use cxxaudio_utilities.RingBuffer.Invariant.{Holds}
use cxxaudio_utilities.RingBuffer.Advance.{contents, contents-segment}

-- An object between calls: without a buffer it is as constructed.
abbrev pub IsValid : RingBuffer → Type 0
IsValid r = (r ≡ empty) ⊎ ((m : List ℕ) × Holds r m)

-- What the C library documents of `malloc`: a block that it returns has the size asked for.
abbrev pub Allocates : (ℕ → Option (List ℕ)) → Type 0
Allocates malloc = (n : ℕ) (m : List ℕ) → malloc n ≡ some m → length m ≡ n

-- `Deallocate` brings any valid object back to the constructed one.
pub deallocate-empty : {r : RingBuffer} → IsValid r → deallocate r ≡ empty
unfolding deallocate
deallocate-empty (inl e) = rw e
deallocate-empty (inr (m, v)) = rw (v.allocated, deallocate)

-- How `Allocate` ends: refused with the object as it was, out of memory with no buffer, or with an
-- empty buffer whose capacity is the next power of two.
pub data Allocation (malloc : ℕ → Option (List ℕ)) (r : RingBuffer) (n : ℕ)
    : Bool × RingBuffer → Type 0 where
  refused : (n < 2) ⊎ (0x8000_0000 < n) → Allocation malloc r n (false, r)
  failed :
      2 ≤ n
      → n ≤ 0x8000_0000
      → malloc (next_power_of_two n) ≡ none
      → Allocation malloc r n (false, empty)
  made :
      (r' : RingBuffer) (m : List ℕ)
      → 2 ≤ n
      → n ≤ 0x8000_0000
      → Holds r' m
      → IsNextPower n r'.capacity_bytes
      → contents r' ≡ []
      → Allocation malloc r n (true, r')

module _ (malloc : ℕ → Option (List ℕ)) (sized : Allocates malloc) where
  allocate_in_range :
      (n : ℕ) (r : RingBuffer)
      → deallocate r ≡ empty
      → 2 ≤ n
      → n ≤ 0x8000_0000
      → Allocation malloc r n (allocate malloc r n)
  unfolding allocate
  allocate_in_range n r freed lo hi =
      let next = next_power_of_two-IsNextPower n lo hi in
      let c = next_power_of_two n in
      let in_range : (ltb n 2 || ltb 0x8000_0000 n) ≡ false = ground arith in
      rw in_range (elim (Option-cases (malloc c)) [
        | inl out ↦ rw (out, freed) (Allocation.failed lo hi out)
        | inr (m, got) ↦
            let r' : RingBuffer = record empty {
              buffer = some m;
              capacity_bytes = c;
              capacity_bytes_mask = sub32 c 1;
            } in
            let v : Holds r' m = record {
              allocated = refl;
              size = sized c m got;
              capacity = next.capacity;
              mask = omega (arith, next.capacity.at_least, next.capacity.at_most);
              read_in = omega (arith, next.capacity.at_least);
              write_in = omega (arith, next.capacity.at_least);
            } in
            rw (got, freed) (Allocation.made r' m lo hi v next (contents-segment v))
      ])

  -- `Allocate` on a valid object: outside [2, 2^31] it is refused and changes nothing; otherwise
  -- the old buffer is gone, and the result is a failure without a buffer, if `malloc` failed, or an
  -- empty buffer whose capacity is the smallest power of two that is at least the size asked for.
  pub allocate-Allocation :
      (n : ℕ) {r : RingBuffer} → IsValid r → Allocation malloc r n (allocate malloc r n)
  unfolding allocate
  allocate-Allocation n {r} v = elim (Bool-cases (ltb n 2 || ltb 0x8000_0000 n)) [
    | inl out ↦ rw out (Allocation.refused (ground arith))
    | inr inside ↦ allocate_in_range n r (deallocate-empty v) (ground arith) (ground arith)
  ]
