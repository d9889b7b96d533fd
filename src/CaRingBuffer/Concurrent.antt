-- ===== src/CaRingBuffer/Concurrent.antt =====
-- The queue of time bounds of SFBCARingBuffer.cpp shared by two threads: `SetTimeBounds` and
-- `GetTimeBounds` cut at their accesses to the shared memory, and interleaved in any order. One
-- thread sets the bounds, as the class requires; what a step stores is seen by the steps after it.
pub mod Alone
pub mod Invariant
pub mod Writes
pub mod Safety
pub mod RoundTrip
use cxxaudio_utilities.Base.{
  ℕ, ◌+◌, ◌-◌, ◌%◌, ◌≡◌, ◌⊎◌, Option, none, some, List, [], ◌∷◌, ◌++◌, length, get_or, bit_and, ltb,
  ◌==◌, if◌then◌else◌, u64_mod,
}
use cxxaudio_utilities.CaRingBuffer.{
  CaRingBuffer, TimeBounds, time_bounds_queue_mask, bounds_at, start_time, end_time, set_at,
}

-- Where a thread is in `SetTimeBounds`, with the number of the update and its times: the last thing
-- that it has done is to load the counter, or to store the start, the end, or the number.
pub data Writer : Type 0 where
  resting : Writer
  numbered : ℕ → ℕ → ℕ → Writer
  start_set : ℕ → ℕ → ℕ → Writer
  end_set : ℕ → ℕ → ℕ → Writer
  stamped : ℕ → ℕ → ℕ → Writer

-- Where a thread is in `GetTimeBounds`: the round, the counter it has loaded, the start, the end.
pub data Reader : Type 0 where
  away : Reader
  looking : ℕ → Reader
  counted : ℕ → ℕ → Reader
  start_read : ℕ → ℕ → ℕ → Reader
  end_read : ℕ → ℕ → ℕ → ℕ → Reader
  returned : Option (ℕ × ℕ) → Reader

-- A store to the entry of the queue that a counter stands for.
abbrev pub change : CaRingBuffer → ℕ → TimeBounds → CaRingBuffer
change r c b = record r {
  time_bounds_queue = set_at (bit_and c time_bounds_queue_mask) b r.time_bounds_queue;
}

abbrev pub with_start : TimeBounds → ℕ → TimeBounds
with_start b t = record b { start_time = t }

abbrev pub with_end : TimeBounds → ℕ → TimeBounds
with_end b t = record b { end_time = t }

abbrev pub with_counter : TimeBounds → ℕ → TimeBounds
with_counter b c = record b { update_counter = c }

-- The next access of `SetTimeBounds`.
unfoldable pub write_step : CaRingBuffer → Writer → CaRingBuffer × Writer
write_step r resting = (r, resting)
write_step r (numbered c s e) = (change r c (with_start (bounds_at r c) s), start_set c s e)
write_step r (start_set c s e) = (change r c (with_end (bounds_at r c) e), end_set c s e)
write_step r (end_set c s e) = (change r c (with_counter (bounds_at r c) c), stamped c s e)
write_step r (stamped c s e) = (record r { time_bounds_queue_counter = c }, resting)

-- The first access, when the call is made.
abbrev pub next_counter : CaRingBuffer → ℕ
next_counter r = (r.time_bounds_queue_counter + 1) % u64_mod

abbrev pub rounds : ℕ
rounds = 8

-- The next access of `GetTimeBounds`.
unfoldable pub read_step : CaRingBuffer → Reader → Reader
read_step r away = away
read_step r (looking i) = counted i r.time_bounds_queue_counter
read_step r (counted i c) = start_read i c (bounds_at r c).start_time
read_step r (start_read i c s) = end_read i c s (bounds_at r c).end_time
read_step r (end_read i c s e) =
    if (bounds_at r c).update_counter == c
    then returned (some (s, e))
    else (if ltb (i + 1) rounds then looking (i + 1) else returned none)
read_step r (returned o) = returned o

-- `updates` are the bounds of the updates that have begun, from the one with the number `first`;
-- `since` is the counter when the reader made its call.
pub record System : Type 0 where
  pub ring : CaRingBuffer
  pub reader : Reader
  pub writer : Writer
  pub first : ℕ
  pub updates : List (ℕ × ℕ)
  pub since : ℕ

-- The bounds with a number, and the number of the update that begins next.
abbrev pub bounds_of : System → ℕ → ℕ × ℕ
bounds_of s n = get_or s.updates (n - s.first) (0, 0)

abbrev pub upcoming : System → ℕ
upcoming s = s.first + length s.updates

-- One step of either thread. A call is made by a thread that is not in one.
pub data Step (s : System) : System → Type 0 where
  write_call :
      (start end' : ℕ)
      → s.writer ≡ resting
      → Step s (record s {
        writer = numbered (next_counter s.ring) start end';
        updates = s.updates ++ (start, end') ∷ [];
      })
  write_access :
      Step s (record s {
        ring = (write_step s.ring s.writer).0;
        writer = (write_step s.ring s.writer).1;
      })
  read_call :
      (s.reader ≡ away) ⊎ ((o : Option (ℕ × ℕ)) × (s.reader ≡ returned o))
      → Step s (record s { reader = looking 0; since = s.ring.time_bounds_queue_counter })
  read_access : Step s (record s { reader = read_step s.ring s.reader })

pub data Reach (s : System) : System → Type 0 where
  here : Reach s s
  next : {t u : System} → Reach s t → Step t u → Reach s u

-- Nobody is in a call, and the bounds are those of the object.
abbrev pub start : CaRingBuffer → System
start r = record {
  ring = r;
  reader = away;
  writer = resting;
  first = r.time_bounds_queue_counter;
  updates = (start_time r, end_time r) ∷ [];
  since = 0;
}
