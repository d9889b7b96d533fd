-- ===== src/CaRingBuffer/Concurrent/Safety.antt =====
-- A thread that gets the time bounds while another sets them: the two times that it gets belong
-- together, and it gives up only behind a writer that sets very many in the meantime.
use mathlib.Core.Path.{subst}
use cxxaudio_utilities.Base.{
  ℕ, ◌+◌, ◌-◌, ◌≤◌, ◌<◌, ◌≡◌, ◌≢◌, inl, inr, refl, sym, ap, ap₂, arith, false, Bool-cases, none,
  some, [], ◌∷◌, length-append, ltb, ◌==◌, u64_mod,
}
use cxxaudio_utilities.CaRingBuffer.{
  CaRingBuffer, TimeBounds, time_bounds_queue_size, bounds_at, start_time, end_time,
}
use cxxaudio_utilities.CaRingBuffer.Times.{IsTimed}
use cxxaudio_utilities.CaRingBuffer.Concurrent.{
  Writer, resting, numbered, start_set, end_set, stamped, Reader, away, looking, counted,
  start_read, end_read, returned, read_step, rounds, System, bounds_of, upcoming, Step, write_call,
  write_access, read_call, read_access, Reach, here, next, start,
}
use cxxaudio_utilities.CaRingBuffer.Concurrent.Invariant.{
  entry, WriterOk, ReaderOk, IsSound, WriterOk-same, ReaderOk-same, ReaderOk-eq,
}
use cxxaudio_utilities.CaRingBuffer.Concurrent.Writes.{after_write_call, after_write_access}

-- A number in an entry that is not the one looked for: 32 updates have begun since.
overtaken :
    {s : System}
    → IsSound s
    → (c : ℕ) → s.first ≤ c
    → c ≤ s.ring.time_bounds_queue_counter
    → ((bounds_at s.ring c).update_counter == c) ≡ false
    → c + time_bounds_queue_size < upcoming s
overtaken {s} v c lo hi other = elim (Bool-cases (ltb (c + time_bounds_queue_size) (upcoming s))) [
  | inl late ↦ ground arith
  | inr near ↦
      let is : (bounds_at s.ring c).update_counter ≡ c =
        ap (λ (b : TimeBounds). b.update_counter) (v.window c lo hi (ground arith)) in
      absurd (ground arith)
]

-- The number of the next update is at most two ahead of the counter.
WriterOk-le :
    (s : System) (w : Writer) → WriterOk s w → upcoming s ≤ s.ring.time_bounds_queue_counter + 2
WriterOk-le s resting ok = omega arith
WriterOk-le s (numbered c t u) ok = omega (arith, ok.0)
WriterOk-le s (start_set c t u) ok = omega (arith, ok.0)
WriterOk-le s (end_set c t u) ok = omega (arith, ok.0)
WriterOk-le s (stamped c t u) ok = omega (arith, ok.0)

upcoming-le : {s : System} → IsSound s → upcoming s ≤ s.ring.time_bounds_queue_counter + 2
upcoming-le {s} v = WriterOk-le s s.writer v.writer_ok

read_step-ReaderOk :
    {s : System} → IsSound s → (x : Reader) → ReaderOk s x → ReaderOk s (read_step s.ring x)
unfolding read_step
read_step-ReaderOk v away ok = tt
read_step-ReaderOk v (looking i) ok = ((ok.0, v.after, omega arith), ok.1)
read_step-ReaderOk {s} v (counted i c) ok = (
  ok.0,
  ok.1,
  λ near. sym (ap (λ (b : TimeBounds). b.start_time) (v.window c ok.0.1 ok.0.2 near)),
)
read_step-ReaderOk {s} v (start_read i c t) ok = (
  ok.0,
  ok.1,
  λ near.
      ap₂ (λ (a b : ℕ). (a, b)) (ok.2 near)
        (sym (ap (λ (b : TimeBounds). b.end_time) (v.window c ok.0.1 ok.0.2 near))),
)
read_step-ReaderOk {s} v (end_read i c t u) ok =
    elim (Bool-cases ((bounds_at s.ring c).update_counter == c)) [
      | inl same ↦ rw same (c, (omega (arith, ok.0), ok.0.1, ok.0.2), ok.2)
      | inr other ↦
          let late = overtaken v c ok.0.1 ok.0.2 other in
          let lead = upcoming-le v in
          elim (Bool-cases (ltb (i + 1) rounds)) [
            | inl again ↦ rw (other, again) (omega (arith, ok.0), ground arith)
            | inr last ↦
                let seven : i ≡ 7 = ground (arith, ok.1) in rw (other, last) (omega (arith, ok.0))
          ]
    ]
read_step-ReaderOk v (returned none) ok = ok
read_step-ReaderOk v (returned (some b)) ok = ok

after_read_access :
    {s : System} → IsSound s → IsSound (record s { reader = read_step s.ring s.reader })
after_read_access {s} v = record {
  size = v.size;
  after = v.after;
  few = v.few;
  writer_ok = WriterOk-same s (read_step s.ring s.reader) s.since s.writer v.writer_ok;
  window = v.window;
  reader_ok =
      ReaderOk-same s (read_step s.ring s.reader) (read_step s.ring s.reader)
        (read_step-ReaderOk v s.reader v.reader_ok);
}

after_read_call :
    {s : System}
    → IsSound s
    → IsSound (record s { reader = looking 0; since = s.ring.time_bounds_queue_counter })
after_read_call {s} v = record {
  size = v.size;
  after = v.after;
  few = v.few;
  writer_ok = WriterOk-same s (looking 0) s.ring.time_bounds_queue_counter s.writer v.writer_ok;
  window = v.window;
  reader_ok = (omega arith, omega arith);
}

Step-IsSound : {s t : System} → IsSound s → Step s t → upcoming t ≤ u64_mod → IsSound t
Step-IsSound {s} v (write_call t u idle) few =
    after_write_call v t u idle (omega (arith, length-append s.updates ((t, u) ∷ [])))
Step-IsSound v write_access few = after_write_access v
Step-IsSound v (read_call free) few = after_read_call v
Step-IsSound v read_access few = after_read_access v

Step-upcoming : {s t : System} → Step s t → upcoming s ≤ upcoming t
Step-upcoming {s} (write_call t u idle) = omega (arith, length-append s.updates ((t, u) ∷ []))
Step-upcoming write_access = omega arith
Step-upcoming (read_call free) = omega arith
Step-upcoming read_access = omega arith

Reach-upcoming : {s t : System} → Reach s t → upcoming s ≤ upcoming t
Reach-upcoming here = omega arith
Reach-upcoming (next path step) = omega (arith, Reach-upcoming path, Step-upcoming step)

pub Reach-IsSound : {s t : System} → IsSound s → Reach s t → upcoming t ≤ u64_mod → IsSound t
Reach-IsSound v here few = v
Reach-IsSound {s} v (next {t} {u} path step) few =
    Step-IsSound (Reach-IsSound v path (omega (arith, Step-upcoming step))) step few

start-IsSound :
    {r : CaRingBuffer} → IsTimed r → r.time_bounds_queue_counter < u64_mod → IsSound (start r)
start-IsSound {r} v lt =
    let c = r.time_bounds_queue_counter in
    let zeroth : c - c ≡ 0 = omega arith in
    let current : bounds_at r c ≡ entry (bounds_of (start r) c) c = rw zeroth (
      ap (λ i. record { start_time = start_time r; end_time = end_time r; update_counter = i })
        v.current) in
    record {
      size = v.size;
      after = omega arith;
      few = omega arith;
      writer_ok = refl;
      window = λ n lo hi near.
          let e : r.time_bounds_queue_counter ≡ n = omega arith in
          subst (λ m. bounds_at r m ≡ entry (bounds_of (start r) m) m) e current;
      reader_ok = tt;
    }

module _ {r : CaRingBuffer} (v : IsTimed r) {s : System} (path : Reach (start r) s)
    (few : upcoming s ≤ u64_mod) where
  first-Reach : r.time_bounds_queue_counter < u64_mod
  first-Reach = omega (arith, Reach-upcoming path)

  -- One thread gets and one sets the bounds of an object whose queue was up to date at the start,
  -- interleaved in any order, before 2^64 updates: if `GetTimeBounds` returns two times, and fewer
  -- than 32 updates have begun after the one whose number the counter held when it was called, one
  -- that was under way at the call included, the times are those of one update, of the one in force
  -- when it was called or of a later one that has been made.
  pub get_time_bounds-untorn :
      (t u : ℕ)
      → s.reader ≡ returned (some (t, u))
      → upcoming s ≤ s.since + time_bounds_queue_size
      → (c : ℕ) × (s.since ≤ c) × (c ≤ s.ring.time_bounds_queue_counter) × (bounds_of s c ≡ (t, u))
  get_time_bounds-untorn t u e near =
      let ok : ReaderOk s (returned (some (t, u))) =
        ReaderOk-eq s s.reader _ e
          (Reach-IsSound (start-IsSound v first-Reach) path few).reader_ok in
      (ok.0, omega (arith, ok.1), ok.1.2, ok.2 (omega (arith, ok.1)))

  -- One thread gets and one sets the bounds of an object whose queue was up to date at the start,
  -- interleaved in any order, before 2^64 updates: a call of `GetTimeBounds` since whose beginning
  -- fewer than 248 updates have been made has not failed.
  pub get_time_bounds-succeeds :
      s.ring.time_bounds_queue_counter < s.since + 248 → s.reader ≢ returned none
  get_time_bounds-succeeds few_made e =
      let late =
        ReaderOk-eq s s.reader (returned none) e
          (Reach-IsSound (start-IsSound v first-Reach) path few).reader_ok in
      absurd (omega arith)
