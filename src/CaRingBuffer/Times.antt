-- ===== src/CaRingBuffer/Times.antt =====
-- The queue of time bounds: the entry that the counter stands for holds the bounds set last, and
-- clamping a range of times to them.
use cxxaudio_utilities.Base.{
  ℕ, zero, suc, ◌+◌, ◌%◌, ◌≤◌, ◌<◌, ◌≡◌, refl, ap, ◌∙◌, arith, inl, inr, Bool-cases, true, false,
  ◌||◌, some, List, [], ◌∷◌, length, get_or, bit_and, bit_and_mask, min, max, ltb, ◌==◌,
  if◌then◌else◌, u64_mod,
}
use cxxaudio_utilities.CaRingBuffer.{
  CaRingBuffer, TimeBounds, no_bounds, time_bounds_queue_size, time_bounds_queue_mask, bounds_at,
  start_time, end_time, set_at, set_time_bounds, get_time_bounds, get_time_bounds_in,
  clamp_times_to_bounds,
}

pub length-set_at :
    (i : ℕ) (b : TimeBounds) (xs : List TimeBounds) → length (set_at i b xs) ≡ length xs
length-set_at i b [] = refl
length-set_at zero b (x ∷ xs) = refl
length-set_at (suc i) b (x ∷ xs) = ap suc (length-set_at i b xs)

pub get_or-set_at :
    (i : ℕ) (b : TimeBounds) (xs : List TimeBounds)
    → i < length xs
    → get_or (set_at i b xs) i no_bounds ≡ b
get_or-set_at i b [] h = absurd (omega arith)
get_or-set_at zero b (x ∷ xs) h = refl
get_or-set_at (suc i) b (x ∷ xs) h = get_or-set_at i b xs (omega arith)

pub index-lt : (counter : ℕ) → bit_and counter time_bounds_queue_mask < time_bounds_queue_size
index-lt counter = omega (arith, bit_and_mask 5 counter)

-- The queue has its size, and its current entry is up to date; the audio between its times fits.
pub record IsTimed (r : CaRingBuffer) : Type 0 where
  pub size : length r.time_bounds_queue ≡ time_bounds_queue_size
  pub current :
      (bounds_at r r.time_bounds_queue_counter).update_counter ≡ r.time_bounds_queue_counter
  pub ordered : start_time r ≤ end_time r
  pub fits : end_time r ≤ start_time r + r.capacity_frames

-- What setting the bounds leaves.
pub record IsBetween (r : CaRingBuffer) (start end' : ℕ) : Type 0 where
  pub from : start_time r ≡ start
  pub until : end_time r ≡ end'
  pub timed : IsTimed r

pub set_time_bounds-IsBetween :
    {r : CaRingBuffer}
    → IsTimed r
    → (start end' : ℕ) → start ≤ end'
    → end' ≤ start + r.capacity_frames
    → IsBetween (set_time_bounds r start end') start end'
unfolding set_time_bounds
set_time_bounds-IsBetween {r} v start end' le fits =
    let counter = (r.time_bounds_queue_counter + 1) % u64_mod in
    let i = bit_and counter time_bounds_queue_mask in
    let next : TimeBounds = record {
      start_time = start;
      end_time = end';
      update_counter = counter;
    } in
    let set : get_or (set_at i next r.time_bounds_queue) i no_bounds ≡ next =
      get_or-set_at i next r.time_bounds_queue (omega (arith, v.size, index-lt counter)) in
    let from : _ ≡ start = ap (λ (b : TimeBounds). b.start_time) set in
    let until : _ ≡ end' = ap (λ (b : TimeBounds). b.end_time) set in
    record {
      from = from;
      until = until;
      timed = record {
        size = length-set_at i next r.time_bounds_queue ∙ v.size;
        current = ap (λ (b : TimeBounds). b.update_counter) set;
        ordered = omega (arith, from, until);
        fits = omega (arith, from, until);
      };
    }

-- With a queue that is up to date, `GetTimeBounds` succeeds with the current times.
pub get_time_bounds_lem :
    {r : CaRingBuffer} → IsTimed r → get_time_bounds r ≡ some (start_time r, end_time r)
unfolding get_time_bounds get_time_bounds_in
get_time_bounds_lem {r} v =
    let same : ((bounds_at r r.time_bounds_queue_counter).update_counter
          == r.time_bounds_queue_counter)
        ≡ true =
      ground (arith, v.current) in
    rw same refl

-- With time bounds that are in order, `ClampTimesToBounds` of a range of times succeeds with the
-- times that the range and the bounds have in common, or with a range of no times if they have
-- none in common.
pub clamp_times_to_bounds_lem :
    {r : CaRingBuffer}
    → IsTimed r
    → (start end' : ℕ)
    → let first = max start (start_time r) in
      let last = min end' (end_time r) in
      (t : ℕ) × (clamp_times_to_bounds r start end'
        ≡ some (if ltb first last then (first, last) else (t, t)))
unfolding clamp_times_to_bounds
clamp_times_to_bounds_lem {r} v start end' =
    let first = max start (start_time r) in
    let last = min end' (end_time r) in
    elim (Bool-cases (ltb (end_time r) start || ltb end' (start_time r))) [
      | inl apart ↦
          let none_common : ltb first last ≡ false = ground (arith, v.ordered) in
          (start, rw (get_time_bounds_lem v, apart, none_common) refl)
      | inr close ↦ elim (Bool-cases (ltb first last)) [
        | inl common ↦
            let at_last : max last first ≡ last = ground arith in
            (start, rw (get_time_bounds_lem v, close, common, at_last) refl)
        | inr none_common ↦
            let at_first : max last first ≡ first = ground arith in
            (first, rw (get_time_bounds_lem v, close, none_common, at_first) refl)
      ]
    ]
