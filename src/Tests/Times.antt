-- ===== src/Tests/Times.antt =====
-- A thread that gets the time bounds of a ring buffer while another one sets them.
use cxxaudio_utilities.Base.{ℕ, ◌+◌, ◌≤◌, ◌≡◌, ◌≢◌, refl, arith, inl, Option, none, some, [], ◌∷◌}
use cxxaudio_utilities.CaRingBuffer.{CaRingBuffer, start_time, end_time, get_time_bounds}
use cxxaudio_utilities.CaRingBuffer.Concurrent.{
  System, Reach, here, next, read_call, read_access, write_call, write_access, resting, numbered,
  looking, returned, next_counter, read_step, write_step, bounds_of, start,
}
use cxxaudio_utilities.CaRingBuffer.Concurrent.Alone.{reads, writes, get_time_bounds-returns}
use cxxaudio_utilities.CaRingBuffer.Concurrent.RoundTrip.{reads-writes}
use cxxaudio_utilities.CaRingBuffer.Concurrent.Safety.{
  get_time_bounds-untorn, get_time_bounds-succeeds,
}
use cxxaudio_utilities.Tests.Timed.{timed, timed-IsTimed}

abbrev reads_on : System → System
reads_on s = record s { reader = read_step s.ring s.reader }

abbrev writes_on : System → System
writes_on s = record s {
  ring = (write_step s.ring s.writer).0;
  writer = (write_step s.ring s.writer).1;
}

-- The reader has loaded the counter when the writer begins.
abbrev counted_first : System
counted_first = reads_on (record (start timed) { reader = looking 0; since = 1 })

abbrev both_at_work : System
both_at_work =
    writes_on (record counted_first { writer = numbered 2 6 9; updates = (5, 8) ∷ (6, 9) ∷ [] })

abbrev finished : System
finished = reads_on (reads_on (reads_on both_at_work))

to_finished : Reach (start timed) finished
unfolding read_step write_step
to_finished =
    next
      (next
        (next
          (next (next (next (next here (read_call (inl refl))) read_access) (write_call 6 9 refl))
            write_access)
          read_access)
        read_access)
      read_access

get_time_bounds-untorn_example : (c : ℕ) × (1 ≤ c) × (c ≤ 1) × (bounds_of finished c ≡ (5, 8))
unfolding read_step write_step
get_time_bounds-untorn_example =
    get_time_bounds-untorn timed-IsTimed to_finished (omega arith) 5 8 refl (omega arith)

get_time_bounds-succeeds_example : returned (some (5, 8)) ≢ returned none
unfolding read_step write_step
get_time_bounds-succeeds_example =
    get_time_bounds-succeeds timed-IsTimed to_finished (omega arith) (omega arith)

-- A memory whose counter is always ahead of the entries.
abbrev changing : ℕ → CaRingBuffer
changing t = record timed { time_bounds_queue_counter = t + 2 }

get_time_bounds-returns_example :
    (o : Option (ℕ × ℕ)) × (reads 32 changing (looking 0) ≡ returned o)
get_time_bounds-returns_example = get_time_bounds-returns changing

-- The object after an update, at the entry behind the current one.
abbrev updated : CaRingBuffer
updated = (writes 4 (timed, numbered (next_counter timed) 6 9)).0

reads-writes_example :
    ((writes 4 (timed, numbered (next_counter timed) 6 9)).1 ≡ resting)
    × (start_time updated ≡ 6)
    × (end_time updated ≡ 9)
    × (reads 4 (λ _. updated) (looking 0) ≡ returned (some (6, 9)))
    × (get_time_bounds updated ≡ some (6, 9))
reads-writes_example = reads-writes timed 6 9 refl
