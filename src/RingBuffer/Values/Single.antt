-- ===== src/RingBuffer/Values/Single.antt =====
-- `WriteValue`, `ReadValue` and `PeekValue`: whole values or nothing.
use mathlib.Core.List.{append-nil}
use cxxaudio_utilities.Base.{
  [], inl, inr, Bool-cases, take_all, drop_all, ==_self, ℕ, ◌-◌, ◌%◌, ◌<◌, ◌≡◌, arith, true, false,
  some, List, ◌++◌, length, take, drop, leb, if◌then◌else◌, u32_mod,
}
use cxxaudio_utilities.ByteQueue.{transferred}
use cxxaudio_utilities.RingBuffer.{RingBuffer}
use cxxaudio_utilities.RingBuffer.Invariant.{Holds}
use cxxaudio_utilities.RingBuffer.Advance.{contents, Leaves}
use cxxaudio_utilities.RingBuffer.Transfer.{peek_lem, read_lem, write_lem}
use cxxaudio_utilities.RingBuffer.Values.{read_value, read_value?, peek_value, write_value}

-- A value of the program's types is not empty, and its size fits a `uint32_t`.
abbrev pub IsValue : List ℕ → Type 0
IsValue value = (0 < length value) × (length value < u32_mod)

-- On an allocated ring buffer, `WriteValue` succeeds exactly if the whole value fits, and then
-- appends it; otherwise nothing changes.
pub write_value_lem :
    {r : RingBuffer} {m : List ℕ} (value : List ℕ)
    → Holds r m
    → IsValue value
    → let fits = leb (length value) (r.capacity_bytes - 1 - length (contents r)) in
      (r' : RingBuffer) × (m' : List ℕ) × (write_value r value ≡ some (fits, r'))
      × Leaves r r' m' (if fits then contents r ++ value else contents r)
unfolding write_value transferred
write_value_lem {r} value v ok =
    let fits = leb (length value) (r.capacity_bytes - 1 - length (contents r)) in
    let w = write_lem v value (length value) false (omega arith) in
    let same : length value % u32_mod ≡ length value = omega arith in
    elim (Bool-cases fits) [
      | inl all ↦ (
        w.0,
        w.1,
        rw same (ground (arith, w.2, ==_self (length value))),
        rw all (rw (all, take_all (length value) value (omega arith)) at w.3),
      )
      | inr nothing ↦ (
        w.0,
        w.1,
        rw same (ground (arith, w.2)),
        rw nothing (rw (nothing, append-nil (contents r)) at w.3),
      )
    ]

-- On an allocated ring buffer, `ReadValue` succeeds exactly if as many bytes are stored as the
-- value has; it then takes them off the front of the contents, and otherwise leaves value and
-- contents alone.
pub read_value_lem :
    {r : RingBuffer} {m : List ℕ} (value : List ℕ)
    → Holds r m
    → IsValue value
    → let there = leb (length value) (length (contents r)) in
      (r' : RingBuffer) × (read_value r value
        ≡ some (there, (if there then take (length value) (contents r) else value), r'))
      × Leaves r r' m (if there then drop (length value) (contents r) else contents r)
unfolding read_value transferred
read_value_lem {r} value v ok =
    let g = read_lem v value (length value) false (omega arith) in
    let same : length value % u32_mod ≡ length value = omega arith in
    elim (Bool-cases (leb (length value) (length (contents r)))) [
      | inl all ↦ (
        g.0,
        rw same (
            ground (
              arith,
              g.1,
              ==_self (length value),
              drop_all (length value) value (omega arith),
              append-nil (take (length value) (contents r)),
            )),
        rw all (rw all at g.2),
      )
      | inr nothing ↦ (g.0, rw same (ground (arith, g.1)), rw nothing (rw nothing at g.2))
    ]

-- On an allocated ring buffer, `PeekValue` succeeds exactly if as many bytes are stored as the
-- value has; it then returns the front of the contents, and otherwise the value as it was.
pub peek_value_lem :
    {r : RingBuffer} {m : List ℕ} (value : List ℕ)
    → Holds r m
    → IsValue value
    → let there = leb (length value) (length (contents r)) in
      peek_value r value ≡ some (there, (if there then take (length value) (contents r) else value))
unfolding peek_value transferred
peek_value_lem {r} value v ok =
    let same : length value % u32_mod ≡ length value = omega arith in
    rw same (
      ground (
        arith,
        peek_lem v value (length value) false,
        ==_self (length value),
        drop_all (length value) value (omega arith),
        append-nil (take (length value) (contents r)),
      ))

-- A stored value is handed out whole.
read_value?-stored :
    {r : RingBuffer} {m : List ℕ} (value initial : List ℕ)
    → Holds r m
    → contents r ≡ value
    → IsValue value
    → length initial ≡ length value
    → (r' : RingBuffer) × (read_value? r initial ≡ some (some value, r')) × (contents r' ≡ [])
unfolding read_value?
read_value?-stored {r} value initial v now ok same_size =
    let g = read_value_lem initial v (omega arith) in
    let there : leb (length initial) (length (contents r)) ≡ true = rw now (ground arith) in
    let whole : take (length initial) (contents r) ≡ value =
      rw now (take_all (length initial) value (omega arith)) in
    let rest : drop (length initial) (contents r) ≡ [] =
      rw now (drop_all (length initial) value (omega arith)) in
    let left = rw (there, rest) at g.2 in (g.0, rw (g.1, there, whole), left.now)

-- A value that was written to an empty ring buffer is the value that `ReadValue` returns next,
-- whatever the destination held, if the two have one size and it is below the capacity.
pub read_value?-write_value :
    {r : RingBuffer} {m : List ℕ} (value initial : List ℕ)
    → Holds r m
    → contents r ≡ []
    → IsValue value
    → length initial ≡ length value
    → length value < r.capacity_bytes
    → (r' : RingBuffer) × (r'' : RingBuffer) × (write_value r value ≡ some (true, r'))
      × (read_value? r' initial ≡ some (some value, r''))
      × (contents r'' ≡ [])
read_value?-write_value {r} value initial v none_stored ok same_size fits =
    let w = write_value_lem value v ok in
    let all : leb (length value) (r.capacity_bytes - 1 - length (contents r)) ≡ true =
      rw none_stored (ground arith) in
    let left = rw (all, none_stored) at w.3 in
    let g = read_value?-stored value initial left.holds left.now ok same_size in
    (w.0, g.0, rw all at w.2, g.1, g.2)
