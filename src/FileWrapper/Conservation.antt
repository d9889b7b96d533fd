-- ===== src/FileWrapper/Conservation.antt =====
-- Two wrappers of audio files in a program: every file that the program gives to them is closed
-- once, or handed back, or still in one of them.
use cxxaudio_utilities.Base.{
  ℕ, ◌+◌, ◌≡◌, arith, Option, none, some, List, [], ◌∷◌, ◌++◌, ◌==◌, if◌then◌else◌,
}
use cxxaudio_utilities.FileWrapper.{Wrapper, close_old, reset, release, move_assign, swap, destroy}

-- The calls of the first wrapper, with the second one as their argument.
pub data Call : Type 0 where
  resets : Option ℕ → Call
  releases : Call
  move_assigns : Call
  swaps : Call
  destroys : Call

-- The two wrappers, the files given to them, those that they have closed and those handed back.
pub record Program : Type 0 where
  pub first : Wrapper
  pub second : Wrapper
  pub given : List (Option ℕ)
  pub closed : List ℕ
  pub returned : List (Option ℕ)

unfoldable pub step : Program → Call → Program
step p (resets file) =
    let r = reset p.closed p.first file in
    record p { closed = r.0; first = r.1; given = file ∷ p.given }
step p releases = let r = release p.first in record p { first = r.1; returned = r.0 ∷ p.returned }
step p move_assigns =
    let m = move_assign p.closed p.first p.second in
    record p { closed = m.0; first = m.1.0; second = m.1.1 }
step p swaps = let s = swap p.first p.second in record p { first = s.0; second = s.1 }
step p destroys = let d = destroy p.closed p.first in record p { closed = d.0; first = d.1 }

unfoldable pub run : Program → List Call → Program
run p [] = p
run p (c ∷ cs) = run (step p c) cs

-- How often a file is in a list, and in a pointer.
abbrev pub times : ℕ → List ℕ → ℕ
times file [] = 0
times file (f ∷ fs) = (if f == file then 1 else 0) + times file fs

abbrev pub in_pointer : ℕ → Option ℕ → ℕ
in_pointer file none = 0
in_pointer file (some f) = if f == file then 1 else 0

abbrev pub in_pointers : ℕ → List (Option ℕ) → ℕ
in_pointers file [] = 0
in_pointers file (o ∷ os) = in_pointer file o + in_pointers file os

pub times-append :
    (file : ℕ) (xs ys : List ℕ) → times file (xs ++ ys) ≡ times file xs + times file ys
times-append file [] ys = omega arith
times-append file (x ∷ xs) ys = omega (arith, times-append file xs ys)

times-close_old :
    (file : ℕ) (closed : List ℕ) (o : Option ℕ)
    → times file (close_old closed o) ≡ times file closed + in_pointer file o
unfolding close_old
times-close_old file closed none = omega arith
times-close_old file closed (some f) = omega (arith, times-append file closed (f ∷ []))

abbrev pub settled : ℕ → Program → ℕ
settled file p =
    times file p.closed
    + in_pointers file p.returned
    + in_pointer file p.first
    + in_pointer file p.second

-- What a step gives, and what it settles.
step-settled :
    (file : ℕ) (p : Program) (c : Call)
    → settled file (step p c) + in_pointers file p.given
      ≡ settled file p + in_pointers file (step p c).given
unfolding step reset release move_assign swap destroy
step-settled file p (resets o) = omega (arith, times-close_old file p.closed p.first)
step-settled file p releases = omega arith
step-settled file p move_assigns = omega (arith, times-close_old file p.closed p.first)
step-settled file p swaps = omega arith
step-settled file p destroys = omega (arith, times-close_old file p.closed p.first)

-- Whatever calls a program makes of two wrappers, resets, releases, moves, swaps and destructions:
-- as often as a file has been given to the wrappers it has been closed or handed back or is in one
-- of them, if that was so before.
pub given-settled :
    (file : ℕ) (p : Program) (calls : List Call)
    → in_pointers file p.given ≡ settled file p
    → in_pointers file (run p calls).given ≡ settled file (run p calls)
unfolding run
given-settled file p [] h = h
given-settled file p (c ∷ cs) h =
    given-settled file (step p c) cs (omega (arith, step-settled file p c))
