-- ===== src/CaRingBuffer/Concurrent/Alone.antt =====
-- The accesses of a call of `SetTimeBounds` or `GetTimeBounds`, of SFBCARingBuffer.cpp, one after
-- the other; whatever other threads do, a reader is done after a fixed number of them.
use cxxaudio_utilities.Base.{
  ℕ, zero, suc, ◌+◌, ◌≡◌, refl, ap, ◌∙◌, arith, inl, inr, Bool, true, false, Bool-cases, Option,
  none, some, ltb, ◌==◌, if◌then◌else◌,
}
use cxxaudio_utilities.CaRingBuffer.{CaRingBuffer, bounds_at}
use cxxaudio_utilities.CaRingBuffer.Concurrent.{
  Writer, Reader, looking, returned, write_step, read_step, rounds,
}

-- `n` accesses of a writer; and of a reader that finds the memory `f t` at its access `t`.
abbrev pub writes : ℕ → CaRingBuffer × Writer → CaRingBuffer × Writer
writes zero x = x
writes (suc n) x = writes n (write_step x.0 x.1)

abbrev pub reads : ℕ → (ℕ → CaRingBuffer) → Reader → Reader
reads zero f x = x
reads (suc n) f x = reads n (λ t. f (suc t)) (read_step (f 0) x)

pub reads-returned :
    (n : ℕ) (f : ℕ → CaRingBuffer) (o : Option (ℕ × ℕ)) → reads n f (returned o) ≡ returned o
unfolding read_step
reads-returned zero f o = refl
reads-returned (suc n) f o = reads-returned n (λ t. f (suc t)) o

-- The accesses of a number of rounds.
abbrev pub accesses : ℕ → ℕ
accesses zero = 0
accesses (suc k) = suc (suc (suc (suc (accesses k))))

-- A round, of four accesses.
abbrev pub passed : (ℕ → CaRingBuffer) → ℕ → Bool
passed f c = (bounds_at (f 3) c).update_counter == c

abbrev pub times : (ℕ → CaRingBuffer) → ℕ × ℕ
times f =
    let c = (f 0).time_bounds_queue_counter in
    ((bounds_at (f 1) c).start_time, (bounds_at (f 2) c).end_time)

abbrev pub after_round : (ℕ → CaRingBuffer) → ℕ → Reader
after_round f i =
    let c = (f 0).time_bounds_queue_counter in
    if passed f c
    then returned (some (times f))
    else (if ltb (i + 1) rounds then looking (i + 1) else returned none)

pub reads-looking :
    (n i : ℕ) (f : ℕ → CaRingBuffer)
    → reads (suc (suc (suc (suc n)))) f (looking i)
      ≡ reads n (λ t. f (suc (suc (suc (suc t))))) (after_round f i)
unfolding read_step
reads-looking n i f = refl

reads-done :
    (k i : ℕ) (f : ℕ → CaRingBuffer)
    → i + suc k ≡ rounds
    → (o : Option (ℕ × ℕ)) × (reads (accesses (suc k)) f (looking i) ≡ returned o)
reads-done zero i f e = elim (Bool-cases (passed f (f 0).time_bounds_queue_counter)) [
  | inl same ↦ (some (times f), reads-looking 0 i f ∙ rw same refl)
  | inr other ↦
      let last : ltb (i + 1) rounds ≡ false = ground arith in
      (none, reads-looking 0 i f ∙ rw (other, last) refl)
]
reads-done (suc k) i f e = elim (Bool-cases (passed f (f 0).time_bounds_queue_counter)) [
  | inl same ↦
      let n = accesses (suc k) in
      let now : after_round f i ≡ returned (some (times f)) = rw same refl in
      (
        some (times f),
        reads-looking n i f
            ∙ ap (reads n (λ t. f (suc (suc (suc (suc t)))))) now
            ∙ reads-returned n (λ t. f (suc (suc (suc (suc t))))) (some (times f)),
      )
  | inr other ↦
      let again : ltb (i + 1) rounds ≡ true = ground arith in
      let rest = reads-done k (i + 1) (λ t. f (suc (suc (suc (suc t))))) (omega arith) in
      (rest.0, reads-looking (accesses (suc k)) i f ∙ rw (other, again) rest.1)
]

-- `GetTimeBounds` returns after at most 32 accesses, whatever it finds in the shared memory at each
-- of them.
pub get_time_bounds-returns :
    (f : ℕ → CaRingBuffer) → (o : Option (ℕ × ℕ)) × (reads 32 f (looking 0) ≡ returned o)
get_time_bounds-returns f = reads-done 7 0 f refl
