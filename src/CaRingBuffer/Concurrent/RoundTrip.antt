-- ===== src/CaRingBuffer/Concurrent/RoundTrip.antt =====
-- `GetTimeBounds` after `SetTimeBounds`, of SFBCARingBuffer.cpp, by their accesses and as whole
-- calls.
use mathlib.Core.Path.{subst}
use cxxaudio_utilities.Base.{
  ℕ, zero, suc, ◌+◌, ◌≡◌, refl, sym, ap, ap₂, ◌∙◌, arith, inl, inr, true, false, Bool-cases, some,
  List, [], ◌∷◌, length, bit_and, ltb,
}
use cxxaudio_utilities.CaRingBuffer.{
  CaRingBuffer, TimeBounds, time_bounds_queue_size, time_bounds_queue_mask, bounds_at, start_time,
  end_time, set_at, set_time_bounds, get_time_bounds, get_time_bounds_in,
}
use cxxaudio_utilities.CaRingBuffer.Concurrent.Invariant.{bounds_at-change}
use cxxaudio_utilities.CaRingBuffer.Concurrent.{
  Writer, resting, numbered, looking, returned, write_step, next_counter, rounds, change,
  with_start, with_end, with_counter,
}
use cxxaudio_utilities.CaRingBuffer.Concurrent.Alone.{
  writes, reads, accesses, passed, times, after_round, reads-looking, reads-returned,
}

get_time_bounds_in-again :
    (n : ℕ) (r : CaRingBuffer)
    → passed (λ _. r) r.time_bounds_queue_counter ≡ false
    → get_time_bounds_in (suc n) r ≡ get_time_bounds_in n r
unfolding get_time_bounds_in
get_time_bounds_in-again n r other = rw other refl

get_time_bounds_in-found :
    (n : ℕ) (r : CaRingBuffer)
    → passed (λ _. r) r.time_bounds_queue_counter ≡ true
    → get_time_bounds_in (suc n) r ≡ some (times (λ _. r))
unfolding get_time_bounds_in
get_time_bounds_in-found n r same = rw same refl

reads_alone :
    (k i : ℕ) (r : CaRingBuffer)
    → i + suc k ≡ rounds
    → reads (accesses (suc k)) (λ _. r) (looking i) ≡ returned (get_time_bounds_in (suc k) r)
unfolding get_time_bounds_in
reads_alone zero i r e = elim (Bool-cases (passed (λ _. r) r.time_bounds_queue_counter)) [
  | inl same ↦ reads-looking 0 i (λ _. r) ∙ rw same refl
  | inr other ↦
      let last : ltb (i + 1) rounds ≡ false = ground arith in
      reads-looking 0 i (λ _. r) ∙ rw (other, last) refl
]
reads_alone (suc k) i r e = elim (Bool-cases (passed (λ _. r) r.time_bounds_queue_counter)) [
  | inl same ↦
      let n = accesses (suc k) in
      let now : after_round (λ _. r) i ≡ returned (some (times (λ _. r))) = rw same refl in
      reads-looking n i (λ _. r)
      ∙ ap (reads n (λ _. r)) now
      ∙ reads-returned n (λ _. r) (some (times (λ _. r)))
      ∙ ap returned (sym (get_time_bounds_in-found (suc k) r same))
  | inr other ↦
      let again : ltb (i + 1) rounds ≡ true = ground arith in
      let now : after_round (λ _. r) i ≡ looking (i + 1) = rw (other, again) refl in
      reads-looking (accesses (suc k)) i (λ _. r)
      ∙ ap (reads (accesses (suc k)) (λ _. r)) now
      ∙ reads_alone k (i + 1) r (omega arith)
      ∙ ap returned (sym (get_time_bounds_in-again (suc k) r other))
]

set_at-set_at :
    (i : ℕ) (a b : TimeBounds) (xs : List TimeBounds) → set_at i b (set_at i a xs) ≡ set_at i b xs
set_at-set_at i a b [] = refl
set_at-set_at zero a b (x ∷ xs) = refl
set_at-set_at (suc i) a b (x ∷ xs) = ap (λ ys. x ∷ ys) (set_at-set_at i a b xs)

change-change :
    (r : CaRingBuffer) (c : ℕ) (a b : TimeBounds) → change (change r c a) c b ≡ change r c b
change-change r c a b =
    ap (λ q. record r { time_bounds_queue = q })
      (set_at-set_at (bit_and c time_bounds_queue_mask) a b r.time_bounds_queue)

-- Without another thread, the accesses of `SetTimeBounds` and of `GetTimeBounds` one after the
-- other are the two calls, for an object whose queue has its 32 entries.
accesses-alone :
    (r : CaRingBuffer) (start end' : ℕ)
    → length r.time_bounds_queue ≡ time_bounds_queue_size
    → (writes 4 (r, numbered (next_counter r) start end') ≡ (set_time_bounds r start end', resting))
      × (reads 32 (λ _. r) (looking 0) ≡ returned (get_time_bounds r))
unfolding write_step set_time_bounds get_time_bounds
accesses-alone r start end' size =
    let c = next_counter r in
    let b = bounds_at r c in
    let r1 = change r c (with_start b start) in
    let r2 = change r c (with_end (with_start b start) end') in
    let at1 : bounds_at r1 c ≡ with_start b start = bounds_at-change r size c _ in
    let at2 : bounds_at r2 c ≡ with_end (with_start b start) end' = bounds_at-change r size c _ in
    let two : change r1 c (with_end (bounds_at r1 c) end') ≡ r2 =
      ap (λ x. change r1 c (with_end x end')) at1 ∙ change-change r c _ _ in
    let three : change r2 c (with_counter (bounds_at r2 c) c)
        ≡ change r c (record { start_time = start; end_time = end'; update_counter = c }) =
      ap (λ x. change r2 c (with_counter x c)) at2 ∙ change-change r c _ _ in
    let done : CaRingBuffer → CaRingBuffer × Writer =
      λ x. (record x { time_bounds_queue_counter = c }, resting) in
    (
      ap (λ x. done (change x c (with_counter (bounds_at x c) c))) two ∙ ap done three,
      reads_alone 7 0 r refl,
    )

set_time_bounds-found :
    (r : CaRingBuffer) (start end' : ℕ)
    → length r.time_bounds_queue ≡ time_bounds_queue_size
    → let r' = set_time_bounds r start end' in
      (start_time r' ≡ start)
      × (end_time r' ≡ end')
      × (passed (λ _. r') r'.time_bounds_queue_counter ≡ true)
unfolding set_time_bounds
set_time_bounds-found r start end' size =
    let c = next_counter r in
    let b : TimeBounds = record { start_time = start; end_time = end'; update_counter = c } in
    let found : bounds_at (change r c b) c ≡ b = bounds_at-change r size c b in
    let number : (bounds_at (change r c b) c).update_counter ≡ c =
      ap (λ (x : TimeBounds). x.update_counter) found in
    (
      ap (λ (x : TimeBounds). x.start_time) found,
      ap (λ (x : TimeBounds). x.end_time) found,
      ground (arith, number),
    )

-- On an object whose queue has its 32 entries, after the four accesses of `SetTimeBounds` the call
-- has ended, `StartTime` and `EndTime` are the times that were set, and without another thread
-- `GetTimeBounds` returns the two after the four accesses of its first round, as it does when it is
-- called as a whole.
pub reads-writes :
    (r : CaRingBuffer) (start end' : ℕ)
    → length r.time_bounds_queue ≡ time_bounds_queue_size
    → let (r', writer) = writes 4 (r, numbered (next_counter r) start end') in
      (writer ≡ resting)
      × (start_time r' ≡ start)
      × (end_time r' ≡ end')
      × (reads 4 (λ _. r') (looking 0) ≡ returned (some (start, end')))
      × (get_time_bounds r' ≡ some (start, end'))
unfolding get_time_bounds
reads-writes r start end' size =
    let r' = set_time_bounds r start end' in
    let found = set_time_bounds-found r start end' size in
    let returns : reads 4 (λ _. r') (looking 0) ≡ returned (some (start_time r', end_time r')) =
      reads-looking 0 0 (λ _. r') ∙ rw found.2 refl in
    let whole : get_time_bounds r' ≡ some (start_time r', end_time r') =
      get_time_bounds_in-found 7 r' found.2 in
    let times_set = ap₂ (λ (t u : ℕ). some (t, u)) found.0 found.1 in
    subst
      (λ x.
        (x.1 ≡ resting)
        × (start_time x.0 ≡ start)
        × (end_time x.0 ≡ end')
        × (reads 4 (λ _. x.0) (looking 0) ≡ returned (some (start, end')))
        × (get_time_bounds x.0 ≡ some (start, end')))
      (sym (accesses-alone r start end' size).0)
      (refl, found.0, found.1, returns ∙ ap returned times_set, whole ∙ times_set)
