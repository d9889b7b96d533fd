-- ===== src/RingBuffer/Refine.antt =====
-- A caller cannot tell an allocated ring buffer from the bounded queue of its contents.
use cxxaudio_utilities.Base.{
  ℕ, ◌-◌, ◌≡◌, refl, arith, Option, none, some, List, [], ◌∷◌, length, ◌>>=◌,
}
use cxxaudio_utilities.ByteQueue.{
  Request, put, get, look, clear, Reply, count, bytes, done, serve, serve_all,
}
use cxxaudio_utilities.RingBuffer.{RingBuffer, peek, read, write, reset}
use cxxaudio_utilities.RingBuffer.Invariant.{Holds}
use cxxaudio_utilities.RingBuffer.Advance.{contents, Leaves, contents-segment}
use cxxaudio_utilities.RingBuffer.Transfer.{peek_lem, read_lem, write_lem}

-- The memory after a call that was given some.
abbrev memory_of : Option (List ℕ) → List ℕ
memory_of none = []
memory_of (some memory) = memory

-- One call of a client, which passes its whole memory.
pub call : RingBuffer → Request → Option (Reply × RingBuffer)
call r (put source allow_partial) = do
  (n, r') ← write r (some source) (length source) allow_partial
  some (count n, r')
call r (get memory allow_partial) = do
  (n, memory', r') ← read r (some memory) (length memory) allow_partial
  some (bytes n (memory_of memory'), r')
call r (look memory allow_partial) = do
  (n, memory') ← peek r (some memory) (length memory) allow_partial
  some (bytes n (memory_of memory'), r)
call r clear = some (done, reset r)

pub call_all : RingBuffer → List Request → Option (List Reply)
call_all r [] = some []
call_all r (a ∷ as') = do (reply, r') ← call r a; replies ← call_all r' as'; some (reply ∷ replies)

-- `Reset` empties the contents and keeps the block.
pub reset-Leaves : {r : RingBuffer} {m : List ℕ} → Holds r m → Leaves r (reset r) m []
unfolding reset contents
reset-Leaves {r} {m} v =
    let v' : Holds (reset r) m = record {
      allocated = v.allocated;
      size = v.size;
      capacity = v.capacity;
      mask = v.mask;
      read_in = omega arith;
      write_in = omega arith;
    } in
    record { holds = v'; now = contents-segment v'; same_capacity = refl }

-- What one call does: it returns the queue's reply, and leaves the queue's contents.
record Serves (r : RingBuffer) (a : Request) : Type 0 where
  after : RingBuffer
  block : List ℕ
  returns : call r a ≡ some ((serve (r.capacity_bytes - 1) (contents r) a).0, after)
  leaves : Leaves r after block (serve (r.capacity_bytes - 1) (contents r) a).1

call-Serves : {r : RingBuffer} {m : List ℕ} (a : Request) → Holds r m → Serves r a
unfolding call serve
call-Serves {r} (put source allow) v =
    let w = write_lem v source (length source) allow (omega arith) in
    record { after = w.0; block = w.1; returns = simp w.2; leaves = w.3 }
call-Serves {r} (get memory allow) v =
    let g = read_lem v memory (length memory) allow (omega arith) in
    record { after = g.0; block = _; returns = simp g.1; leaves = g.2 }
call-Serves {r} {m} (look memory allow) v = record {
  after = r;
  block = m;
  returns = simp (peek_lem v memory (length memory) allow (omega arith));
  leaves = record { holds = v; now = refl; same_capacity = refl };
}
call-Serves {r} {m} clear v = record {
  after = reset r;
  block = m;
  returns = refl;
  leaves = reset-Leaves v;
}

-- No sequence of writes, reads, peeks and resets, each with any memory and either way of asking
-- for partial transfers, tells an allocated ring buffer from the queue that holds its contents and
-- takes one byte less than the capacity: every call returns, with the queue's reply.
pub call_all-serve_all :
    (as' : List Request) {r : RingBuffer} {m : List ℕ}
    → Holds r m
    → call_all r as' ≡ some (serve_all (r.capacity_bytes - 1) (contents r) as')
unfolding call_all serve_all
call_all-serve_all [] v = refl
call_all-serve_all (a ∷ as') {r} v =
    let s = call-Serves a v in
    let rest = call_all-serve_all as' s.leaves.holds in
    simp (s.returns, rest, s.leaves.now, s.leaves.same_capacity)
