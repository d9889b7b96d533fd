-- ===== src/CaRingBuffer/Concurrent/Invariant.antt =====
-- What holds between the accesses of a reader and a writer of the time bounds.
use cxxaudio_utilities.Base.{
  ℕ, zero, suc, ◌+◌, ◌*◌, ◌≤◌, ◌<◌, ◌≡◌, ◌≢◌, refl, sym, ap, ◌∙◌, arith, none, some, List, [], ◌∷◌,
  length, get_or, bit_and, bit_and_mask, u64_mod,
}
use cxxaudio_utilities.CaRingBuffer.{
  CaRingBuffer, TimeBounds, no_bounds, time_bounds_queue_size, time_bounds_queue_mask, bounds_at,
  set_at,
}
use cxxaudio_utilities.CaRingBuffer.Times.{length-set_at, get_or-set_at, index-lt}
use cxxaudio_utilities.CaRingBuffer.Concurrent.{
  Writer, resting, numbered, start_set, end_set, stamped, Reader, away, looking, counted,
  start_read, end_read, returned, change, System, bounds_of, upcoming,
}

get_or-set_at_other :
    (i j : ℕ) (b : TimeBounds) (xs : List TimeBounds)
    → i ≢ j
    → get_or (set_at i b xs) j no_bounds ≡ get_or xs j no_bounds
get_or-set_at_other i j b [] h = refl
get_or-set_at_other zero zero b (x ∷ xs) h = absurd (h refl)
get_or-set_at_other zero (suc j) b (x ∷ xs) h = refl
get_or-set_at_other (suc i) zero b (x ∷ xs) h = refl
get_or-set_at_other (suc i) (suc j) b (x ∷ xs) h = get_or-set_at_other i j b xs λ e. h (ap suc e)

-- Fewer than 32 updates apart, two numbers have different entries.
slots_differ :
    (c n : ℕ)
    → n < c
    → c < n + time_bounds_queue_size
    → bit_and c time_bounds_queue_mask ≢ bit_and n time_bounds_queue_mask
slots_differ c n lt near = omega (arith, bit_and_mask 5 c, bit_and_mask 5 n)

module _ (r : CaRingBuffer) (size : length r.time_bounds_queue ≡ time_bounds_queue_size) where
  pub change-size :
      (c : ℕ) (b : TimeBounds) → length (change r c b).time_bounds_queue ≡ time_bounds_queue_size
  change-size c b = length-set_at (bit_and c time_bounds_queue_mask) b r.time_bounds_queue ∙ size

  pub bounds_at-change : (c : ℕ) (b : TimeBounds) → bounds_at (change r c b) c ≡ b
  bounds_at-change c b =
      get_or-set_at (bit_and c time_bounds_queue_mask) b r.time_bounds_queue
        (omega (arith, size, index-lt c))

pub bounds_at-change_other :
    (r : CaRingBuffer) (c n : ℕ) (b : TimeBounds)
    → n < c
    → c < n + time_bounds_queue_size
    → bounds_at (change r c b) n ≡ bounds_at r n
bounds_at-change_other r c n b lt near =
    get_or-set_at_other (bit_and c time_bounds_queue_mask) (bit_and n time_bounds_queue_mask) b
      r.time_bounds_queue (slots_differ c n lt near)

-- The entry of an update that is complete.
abbrev pub entry : ℕ × ℕ → ℕ → TimeBounds
entry b n = record { start_time = b.0; end_time = b.1; update_counter = n }

-- A writer in a call works on the update after the published one, and has stored what its place
-- in the call says.
abbrev pub Working : System → ℕ → ℕ → ℕ → Type 0
Working s c t u =
    (c ≡ s.ring.time_bounds_queue_counter + 1) × (upcoming s ≡ c + 1) × (bounds_of s c ≡ (t, u))

abbrev pub WriterOk : System → Writer → Type 0
WriterOk s resting = upcoming s ≡ s.ring.time_bounds_queue_counter + 1
WriterOk s (numbered c t u) = Working s c t u × Unit {0}
WriterOk s (start_set c t u) = Working s c t u × ((bounds_at s.ring c).start_time ≡ t)
WriterOk s (end_set c t u) =
    Working s c t u × ((bounds_at s.ring c).start_time ≡ t) × ((bounds_at s.ring c).end_time ≡ u)
WriterOk s (stamped c t u) = Working s c t u × (bounds_at s.ring c ≡ entry (t, u) c)

-- A number that the reader loads has been published, and later than all rounds before it allow.
abbrev pub Loaded : System → ℕ → ℕ → Type 0
Loaded s i c = (s.since + 31 * i ≤ c) × (s.first ≤ c) × (c ≤ s.ring.time_bounds_queue_counter)

-- What the reader has loaded is of the update with that number, if that is not overtaken.
abbrev pub ReaderOk : System → Reader → Type 0
ReaderOk s away = Unit
ReaderOk s (looking i) = (s.since + 31 * i ≤ s.ring.time_bounds_queue_counter) × (i < 8)
ReaderOk s (counted i c) = Loaded s i c × (i < 8)
ReaderOk s (start_read i c t) =
    Loaded s i c × (i < 8) × (upcoming s ≤ c + time_bounds_queue_size → (bounds_of s c).0 ≡ t)
ReaderOk s (end_read i c t u) =
    Loaded s i c × (i < 8) × (upcoming s ≤ c + time_bounds_queue_size → bounds_of s c ≡ (t, u))
ReaderOk s (returned none) = s.since + 248 ≤ s.ring.time_bounds_queue_counter
ReaderOk s (returned (some b)) =
    (c : ℕ) × Loaded s 0 c × (upcoming s ≤ c + time_bounds_queue_size → bounds_of s c ≡ b)

-- The entries of the last 32 updates are complete, unless one that has begun takes their place.
abbrev pub Window : System → Type 0
Window s =
    (n : ℕ)
    → s.first ≤ n
    → n ≤ s.ring.time_bounds_queue_counter
    → upcoming s ≤ n + time_bounds_queue_size
    → bounds_at s.ring n ≡ entry (bounds_of s n) n

pub record IsSound (s : System) : Type 0 where
  pub size : length s.ring.time_bounds_queue ≡ time_bounds_queue_size
  pub after : s.first ≤ s.ring.time_bounds_queue_counter
  pub few : upcoming s ≤ u64_mod
  pub writer_ok : WriterOk s s.writer
  pub window : Window s
  pub reader_ok : ReaderOk s s.reader

pub WriterOk-eq : (s : System) (x y : Writer) → x ≡ y → WriterOk s x → WriterOk s y
WriterOk-eq s x y e ok = rw (sym e) ok

pub ReaderOk-eq : (s : System) (x y : Reader) → x ≡ y → ReaderOk s x → ReaderOk s y
ReaderOk-eq s x y e ok = rw (sym e) ok

-- What is said of a thread does not depend on the place of the other.
pub WriterOk-same :
    (s : System) (x : Reader) (c : ℕ) (w : Writer)
    → WriterOk s w
    → WriterOk (record s { reader = x; since = c }) w
WriterOk-same s x c resting ok = ok
WriterOk-same s x c (numbered a t u) ok = ok
WriterOk-same s x c (start_set a t u) ok = ok
WriterOk-same s x c (end_set a t u) ok = ok
WriterOk-same s x c (stamped a t u) ok = ok

pub ReaderOk-same :
    (s : System) (x y : Reader) → ReaderOk s y → ReaderOk (record s { reader = x }) y
ReaderOk-same s x away ok = tt
ReaderOk-same s x (looking i) ok = ok
ReaderOk-same s x (counted i c) ok = ok
ReaderOk-same s x (start_read i c t) ok = ok
ReaderOk-same s x (end_read i c t u) ok = ok
ReaderOk-same s x (returned none) ok = ok
ReaderOk-same s x (returned (some b)) ok = ok
