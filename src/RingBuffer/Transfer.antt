-- ===== src/RingBuffer/Transfer.antt =====
-- What `Read`, `Peek` and `Write` do on every branch, in terms of the contents.
use mathlib.Core.List.{append-nil}
use cxxaudio_utilities.Base.{
  ℕ, ◌-◌, ◌≤◌, ◌≡◌, refl, arith, inl, inr, Bool, true, false, ◌||◌, Bool-cases, some, List, ◌++◌,
  min, length, take, drop, ◌==◌, ap, sym, ◌∙◌,
}
use cxxaudio_utilities.ByteQueue.{transferred, deliver}
use cxxaudio_utilities.RingBuffer.{
  RingBuffer, refuses, copy_out, peek, read, write, advance_read_position, advance_write_position,
}
use cxxaudio_utilities.RingBuffer.Invariant.{
  Holds, stored, bytes_available_to_read-eq-stored, bytes_available_to_write-eq-free,
}
use cxxaudio_utilities.RingBuffer.Copies.{segment, copy_out_lem, copy_in-Stored}
use cxxaudio_utilities.RingBuffer.Advance.{
  contents, contents-segment, length-contents, stored-lt, take-segment, Leaves,
  advance_read_position-Leaves, advance_write_position-Leaves,
}

-- The early returns move nothing, and the rest moves what the queue would.
pub early-transferred :
    (available n : ℕ) (allow : Bool)
    → (n == 0) || refuses available n allow ≡ true
    → transferred available n allow ≡ 0
unfolding refuses transferred
early-transferred available n allow h = ground arith

pub late-transferred :
    (available n : ℕ) (allow : Bool)
    → (n == 0) || refuses available n allow ≡ false
    → transferred available n allow ≡ min available n
unfolding refuses transferred
late-transferred available n allow h = ground arith

module _ {r : RingBuffer} {m : List ℕ} (v : Holds r m) where
  -- The copy of `n` stored bytes delivers the front of the contents.
  copy_out-deliver :
      (dst : List ℕ) (n : ℕ)
      → n ≤ stored r
      → n ≤ length dst
      → copy_out r m dst n ≡ some (deliver (contents r) dst n)
  copy_out-deliver dst n le fits =
      let front : take n (contents r) ≡ segment m r.capacity_bytes r.read_position n =
        ap (take n) (contents-segment v)
        ∙ take-segment m r.capacity_bytes r.read_position (stored r) n le in
      rw front (copy_out_lem v dst n (omega (arith, stored-lt v)) fits)

  -- On an allocated ring buffer, `Peek` into memory of at least `n` bytes copies the front of the
  -- contents to it, as many bytes as the queue would hand out, and reports their number.
  pub peek_lem :
      (dst : List ℕ) (n : ℕ) (allow : Bool)
      → n ≤ length dst
      → let k = transferred (length (contents r)) n allow in
        peek r (some dst) n allow ≡ some (k, some (deliver (contents r) dst k))
  unfolding peek
  peek_lem dst n allow fits =
      rw (length-contents v, bytes_available_to_read-eq-stored v)
        (elim (Bool-cases ((n == 0) || refuses (stored r) n allow)) [
          | inl early ↦ rw (early, early-transferred (stored r) n allow early)
          | inr late ↦
              rw (late, late-transferred (stored r) n allow late)
                (simp (
                  v.allocated,
                  copy_out-deliver dst (min (stored r) n) (omega arith) (omega arith),
                ))
        ])

  -- On an allocated ring buffer, `Read` into memory of at least `n` bytes copies the front of the
  -- contents to it, as many bytes as the queue would hand out, reports their number, and drops them
  -- from the contents.
  pub read_lem :
      (dst : List ℕ) (n : ℕ) (allow : Bool)
      → n ≤ length dst
      → let k = transferred (length (contents r)) n allow in
        (r' : RingBuffer) × (read r (some dst) n allow
          ≡ some (k, some (deliver (contents r) dst k), r'))
        × Leaves r r' m (drop k (contents r))
  unfolding read
  read_lem dst n allow fits =
      rw (length-contents v, bytes_available_to_read-eq-stored v)
        (elim (Bool-cases ((n == 0) || refuses (stored r) n allow)) [
          | inl early ↦
              rw (early, early-transferred (stored r) n allow early)
                (r, refl, record { holds = v; now = refl; same_capacity = refl })
          | inr late ↦
              rw (late, late-transferred (stored r) n allow late)
                (
                  advance_read_position r (min (stored r) n),
                  simp (
                    v.allocated,
                    copy_out-deliver dst (min (stored r) n) (omega arith) (omega arith),
                  ),
                  advance_read_position-Leaves v (min (stored r) n) (omega arith),
                )
        ])

  -- On an allocated ring buffer, `Write` from memory of at least `n` bytes appends to the contents
  -- as many bytes of it as the queue would take, and reports their number.
  pub write_lem :
      (src : List ℕ) (n : ℕ) (allow : Bool)
      → n ≤ length src
      → let k = transferred (r.capacity_bytes - 1 - length (contents r)) n allow in
        (r' : RingBuffer) × (m' : List ℕ) × (write r (some src) n allow ≡ some (k, r'))
        × Leaves r r' m' (contents r ++ take k src)
  unfolding write
  write_lem src n allow fits =
      let free = r.capacity_bytes - 1 - stored r in
      rw (length-contents v, bytes_available_to_write-eq-free v)
        (elim (Bool-cases ((n == 0) || refuses free n allow)) [
          | inl early ↦
              rw (early, early-transferred free n allow early)
                (
                  r,
                  m,
                  refl,
                  record { holds = v; now = sym (append-nil (contents r)); same_capacity = refl },
                )
          | inr late ↦
              let s = copy_in-Stored v src (min free n) (omega arith) (omega arith) in
              rw (late, late-transferred free n allow late)
                (
                  advance_write_position (record r { buffer = some s.out }) (min free n),
                  s.out,
                  simp (v.allocated, s.returns),
                  advance_write_position-Leaves v src (min free n) (omega arith) (omega arith) s,
                )
        ])
