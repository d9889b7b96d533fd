-- ===== src/RingBuffer/Concurrent.antt =====
-- One reading and one writing thread on a ring buffer, of SFBRingBuffer.cpp: `Read` and `Write` cut
-- at their accesses to the shared memory, and interleaved in any order. A thread loads the two
-- positions, copies, and then stores its own position; nobody else stores that one. What a step
-- stores is seen by the steps after it. An early return changes nothing and is no step.
pub mod Invariant
pub mod Safety
pub mod Progress
use cxxaudio_utilities.Base.{
  ℕ, suc, ◌≤◌, ◌≡◌, Bool, true, false, ◌||◌, Option, some, List, ◌++◌, length, take, min, ◌==◌,
}
use cxxaudio_utilities.RingBuffer.{
  RingBuffer, bytes_available_to_read, bytes_available_to_write, refuses, copy_out, copy_in,
  advance_read_position, advance_write_position,
}

-- What a thread in the middle of a call holds: the position that it loaded, its memory, and the
-- number of bytes that it moves.
pub data Phase : Type 0 where
  idle : Phase
  loaded : ℕ → List ℕ → ℕ → Phase
  copied : ℕ → List ℕ → ℕ → Phase

-- `sent` and `received` are all bytes that calls have reported as written and as read.
pub record System : Type 0 where
  pub ring : RingBuffer
  pub reader : Phase
  pub writer : Phase
  pub sent : List ℕ
  pub received : List ℕ

-- The buffer as a thread sees it that loaded its own position before.
abbrev pub reading_at : RingBuffer → ℕ → RingBuffer
reading_at r p = record r { read_position = p }

abbrev pub writing_at : RingBuffer → ℕ → RingBuffer
writing_at r p = record r { write_position = p }

-- One step of `Read`, and one of `Write`.
pub data Step (s : System) : System → Type 0 where
  read_load :
      (destination : List ℕ) (byte_count : ℕ) (allow_partial : Bool)
      → s.reader ≡ idle
      → byte_count ≤ length destination
      → (byte_count == 0) || refuses (bytes_available_to_read s.ring) byte_count allow_partial
        ≡ false
      → Step s (record s {
        reader =
            loaded s.ring.read_position destination
              (min (bytes_available_to_read s.ring) byte_count);
      })
  read_copy :
      (p n : ℕ) (destination destination' m : List ℕ)
      → s.reader ≡ loaded p destination n
      → s.ring.buffer ≡ some m
      → copy_out (reading_at s.ring p) m destination n ≡ some destination'
      → Step s (record s { reader = copied p destination' n })
  read_store :
      (p n : ℕ) (destination : List ℕ)
      → s.reader ≡ copied p destination n
      → Step s (record s {
        ring = advance_read_position (reading_at s.ring p) n;
        reader = idle;
        received = s.received ++ take n destination;
      })
  write_load :
      (source : List ℕ) (byte_count : ℕ) (allow_partial : Bool)
      → s.writer ≡ idle
      → byte_count ≤ length source
      → (byte_count == 0) || refuses (bytes_available_to_write s.ring) byte_count allow_partial
        ≡ false
      → Step s (record s {
        writer =
            loaded s.ring.write_position source (min (bytes_available_to_write s.ring) byte_count);
      })
  write_copy :
      (p n : ℕ) (source m m' : List ℕ)
      → s.writer ≡ loaded p source n
      → s.ring.buffer ≡ some m
      → copy_in (writing_at s.ring p) m source n ≡ some m'
      → Step s (record s { ring = record s.ring { buffer = some m' }; writer = copied p source n })
  write_store :
      (p n : ℕ) (source : List ℕ)
      → s.writer ≡ copied p source n
      → Step s (record s {
        ring = advance_write_position (writing_at s.ring p) n;
        writer = idle;
        sent = s.sent ++ take n source;
      })

pub data Reach (s : System) : System → Type 0 where
  here : Reach s s
  next : {t u : System} → Reach s t → Step t u → Reach s u

abbrev pub by_reader : {s t : System} → Step s t → Bool
by_reader (read_load destination byte_count allow_partial e fits late) = true
by_reader (read_copy p n destination destination' m e b h) = true
by_reader (read_store p n destination e) = true
by_reader (write_load source byte_count allow_partial e fits late) = false
by_reader (write_copy p n source m m' e b h) = false
by_reader (write_store p n source e) = false

-- Steps of both threads in any order, with the number of those that the reader makes.
pub data Run (s : System) : System → ℕ → Type 0 where
  nothing : Run s s 0
  reads : {t u : System} {k : ℕ} → Run s t k → (a : Step t u) → by_reader a ≡ true → Run s u (suc k)
  writes : {t u : System} {k : ℕ} → Run s t k → (a : Step t u) → by_reader a ≡ false → Run s u k
