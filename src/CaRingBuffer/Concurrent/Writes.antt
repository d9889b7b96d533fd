-- ===== src/CaRingBuffer/Concurrent/Writes.antt =====
-- The accesses of the writer, and the calls, keep what holds between the accesses.
use mathlib.Core.Path.{subst}
use cxxaudio_utilities.Base.{
  ℕ, ◌+◌, ◌-◌, ◌≤◌, ◌<◌, ◌≡◌, inl, inr, refl, sym, ap, ◌∙◌, arith, true, false, Bool-cases, ltb,
  none, some, [], ◌∷◌, ◌++◌, length, length-append, get_or-append, u64_mod,
}
use cxxaudio_utilities.CaRingBuffer.{TimeBounds, bounds_at}
use cxxaudio_utilities.CaRingBuffer.Concurrent.{
  Writer, resting, numbered, start_set, end_set, stamped, Reader, away, looking, counted,
  start_read, end_read, returned, change, with_start, with_end, with_counter, next_counter,
  write_step, System, bounds_of, upcoming,
}
use cxxaudio_utilities.CaRingBuffer.Concurrent.Invariant.{
  change-size, bounds_at-change, bounds_at-change_other, entry, WriterOk, ReaderOk, IsSound,
  WriterOk-eq,
}

-- What the reader has loaded stays right when updates begin, and when the counter grows.
pub ReaderOk-later :
    (s t : System) (x : Reader)
    → t.first ≡ s.first
    → t.since ≡ s.since
    → s.ring.time_bounds_queue_counter ≤ t.ring.time_bounds_queue_counter
    → upcoming s ≤ upcoming t
    → ((n : ℕ) → s.first ≤ n → n ≤ s.ring.time_bounds_queue_counter → bounds_of t n ≡ bounds_of s n)
    → ReaderOk s x
    → ReaderOk t x
ReaderOk-later s t away f z le more same ok = tt
ReaderOk-later s t (looking i) f z le more same ok = (omega arith, ok.1)
ReaderOk-later s t (counted i c) f z le more same ok =
    ((omega arith, omega arith, omega arith), ok.1)
ReaderOk-later s t (start_read i c a) f z le more same ok = (
  (omega arith, omega arith, omega arith),
  ok.1,
  λ near. ap (λ (b : ℕ × ℕ). b.0) (same c ok.0.1 ok.0.2) ∙ ok.2 (omega arith),
)
ReaderOk-later s t (end_read i c a b) f z le more same ok = (
  (omega arith, omega arith, omega arith),
  ok.1,
  λ near. same c ok.0.1 ok.0.2 ∙ ok.2 (omega arith),
)
ReaderOk-later s t (returned none) f z le more same ok = omega arith
ReaderOk-later s t (returned (some b)) f z le more same ok = (
  ok.0,
  (omega (arith, ok.1), omega (arith, ok.1), omega (arith, ok.1)),
  λ near. same ok.0 ok.1.1 ok.1.2 ∙ ok.2 (omega arith),
)

-- `SetTimeBounds` is called.
bounds_of-begun :
    (s : System) (x : ℕ × ℕ) (n : ℕ)
    → s.first ≤ n
    → n < upcoming s
    → bounds_of (record s { updates = s.updates ++ x ∷ [] }) n ≡ bounds_of s n
bounds_of-begun s x n lo hi =
    let inside : ltb (n - s.first) (length s.updates) ≡ true = ground arith in
    get_or-append s.updates (x ∷ []) (n - s.first) (0, 0) ∙ rw inside refl

pub after_write_call :
    {s : System}
    → IsSound s
    → (t u : ℕ) → s.writer ≡ resting
    → upcoming s < u64_mod
    → IsSound (record s {
      writer = numbered (next_counter s.ring) t u;
      updates = s.updates ++ (t, u) ∷ [];
    })
after_write_call {s} v t u e room =
    let x : ℕ × ℕ = (t, u) in
    let s' : System = record s {
      writer = numbered (next_counter s.ring) t u;
      updates = s.updates ++ x ∷ [];
    } in
    let idle : upcoming s ≡ s.ring.time_bounds_queue_counter + 1 =
      WriterOk-eq s s.writer resting e v.writer_ok in
    let one : length s'.updates ≡ length s.updates + 1 = length-append s.updates (x ∷ []) in
    let c : next_counter s.ring ≡ s.ring.time_bounds_queue_counter + 1 = omega arith in
    let behind : ltb (next_counter s.ring - s.first) (length s.updates) ≡ false =
      ground (arith, v.after) in
    let zeroth : next_counter s.ring - s.first - length s.updates ≡ 0 = omega (arith, v.after) in
    let new : bounds_of s' (next_counter s.ring) ≡ x =
      get_or-append s.updates (x ∷ []) (next_counter s.ring - s.first) (0, 0)
      ∙ rw (behind, zeroth) refl in
    record {
      size = v.size;
      after = v.after;
      few = omega arith;
      writer_ok = ((c, omega arith, new), tt);
      window = λ n lo hi near.
          v.window n lo hi (omega arith)
          ∙ ap (λ b. entry b n) (sym (bounds_of-begun s x n lo (omega arith)));
      reader_ok =
          ReaderOk-later s s' s.reader refl refl (omega arith) (omega arith)
            (λ n lo hi. bounds_of-begun s x n lo (omega arith)) v.reader_ok;
    }

-- A store to the entry of the update that the writer works on.
stored-IsSound :
    {s : System}
    → IsSound s
    → (c : ℕ) (b : TimeBounds) (w : Writer) → c ≡ s.ring.time_bounds_queue_counter + 1
    → upcoming s ≡ c + 1
    → WriterOk (record s { ring = change s.ring c b; writer = w }) w
    → IsSound (record s { ring = change s.ring c b; writer = w })
stored-IsSound {s} v c b w e more ok = record {
  size = change-size s.ring v.size c b;
  after = v.after;
  few = v.few;
  writer_ok = ok;
  window = λ n lo hi near.
      bounds_at-change_other s.ring c n b (omega arith) (omega arith) ∙ v.window n lo hi near;
  reader_ok =
      ReaderOk-later s (record s { ring = change s.ring c b; writer = w }) s.reader refl refl
        (omega arith) (omega arith) (λ n lo hi. refl) v.reader_ok;
}

-- The counter is stored.
published-IsSound :
    {s : System}
    → IsSound s
    → (c t u : ℕ) → WriterOk s (stamped c t u)
    → IsSound
        (record s { ring = record s.ring { time_bounds_queue_counter = c }; writer = resting })
published-IsSound {s} v c t u ok =
    let s' : System = record s {
      ring = record s.ring { time_bounds_queue_counter = c };
      writer = resting;
    } in
    record {
      size = v.size;
      after = omega (arith, ok.0, v.after);
      few = v.few;
      writer_ok = omega (arith, ok.0);
      window = λ n lo hi near. elim (Bool-cases (ltb n c)) [
        | inl old ↦ v.window n lo (ground (arith, ok.0)) near
        | inr new ↦
            let e : c ≡ n = ground arith in
            subst (λ m. bounds_at s.ring m ≡ entry (bounds_of s m) m) e
              (ok.1 ∙ ap (λ x. entry x c) (sym ok.0.2))
      ];
      reader_ok =
          ReaderOk-later s s' s.reader refl refl (omega (arith, ok.0)) (omega arith)
            (λ n lo hi. refl) v.reader_ok;
    }

write_access-IsSound :
    {s : System}
    → IsSound s
    → (w : Writer) → WriterOk s w
    → IsSound (record s { ring = (write_step s.ring w).0; writer = (write_step s.ring w).1 })
unfolding write_step
write_access-IsSound {s} v resting ok = record {
  size = v.size;
  after = v.after;
  few = v.few;
  writer_ok = ok;
  window = v.window;
  reader_ok =
      ReaderOk-later s (record s { writer = resting }) s.reader refl refl (omega arith)
        (omega arith) (λ n lo hi. refl) v.reader_ok;
}
write_access-IsSound {s} v (numbered c t u) ok =
    let b = with_start (bounds_at s.ring c) t in
    let at : bounds_at (change s.ring c b) c ≡ b = bounds_at-change s.ring v.size c b in
    stored-IsSound v c b (start_set c t u) ok.0.0 ok.0.1
      (ok.0, ap (λ (x : TimeBounds). x.start_time) at)
write_access-IsSound {s} v (start_set c t u) ok =
    let b = with_end (bounds_at s.ring c) u in
    let at : bounds_at (change s.ring c b) c ≡ b = bounds_at-change s.ring v.size c b in
    stored-IsSound v c b (end_set c t u) ok.0.0 ok.0.1 (
      ok.0,
      ap (λ (x : TimeBounds). x.start_time) at ∙ ok.1,
      ap (λ (x : TimeBounds). x.end_time) at,
    )
write_access-IsSound {s} v (end_set c t u) ok =
    let b = with_counter (bounds_at s.ring c) c in
    let at : bounds_at (change s.ring c b) c ≡ b = bounds_at-change s.ring v.size c b in
    stored-IsSound v c b (stamped c t u) ok.0.0 ok.0.1 (
      ok.0,
      at
          ∙ ap
              (λ x.
                with_counter
                  (with_end (with_start (bounds_at s.ring c) x) (bounds_at s.ring c).end_time) c)
              ok.1
          ∙ ap (λ x. record { start_time = t; end_time = x; update_counter = c }) ok.2,
    )
write_access-IsSound v (stamped c t u) ok = published-IsSound v c t u ok

-- Every access of the writer keeps what holds.
pub after_write_access :
    {s : System}
    → IsSound s
    → IsSound (record s {
      ring = (write_step s.ring s.writer).0;
      writer = (write_step s.ring s.writer).1;
    })
after_write_access {s} v = write_access-IsSound v s.writer v.writer_ok
