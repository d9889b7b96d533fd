-- ===== src/CfWrapper/Pool.antt =====
-- A program with a number of `CFWrapper` variables and references of its own, as steps.
use cxxaudio_utilities.Base.{
  ℕ, ◌+◌, ◌-◌, ◌<◌, ◌≡◌, ◌≢◌, true, false, Option, none, some, ◌==◌, if◌then◌else◌,
}
use cxxaudio_utilities.CfWrapper.{
  Wrapper, empty, wrap, Counts, set_count, same_object, copy_construct, copy_assign, destroy,
  move_construct, move_assign, assign_object, relinquish,
}

-- The variables from 0 up to `slots`; one that does not exist has a null pointer, like one that is
-- destroyed. `held` are the references that the program has besides the wrappers: those of
-- objects that it made or retained, and of pointers that a wrapper has relinquished.
pub record Pool : Type 0 where
  pub slots : ℕ
  pub wrapper : ℕ → Wrapper
  pub counts : Counts
  pub held : ℕ → ℕ

abbrev pub set_wrapper : (ℕ → Wrapper) → ℕ → Wrapper → ℕ → Wrapper
set_wrapper f i w j = if j == i then w else f j

-- A reference more, or one less, to what a pointer points to.
abbrev pub gain : (ℕ → ℕ) → Option ℕ → ℕ → ℕ
gain held none = held
gain held (some object) = set_count held object (held object + 1)

-- A reference goes back to the program if the wrapper owned the object.
abbrev pub regain : (ℕ → ℕ) → Wrapper → ℕ → ℕ
regain held w = if w.release then gain held w.object else held

-- A step that a program may take. It gives away a reference only if it has one, and it assigns an
-- object only to a wrapper of another one.
pub data Step (p : Pool) : Pool → Type 0 where
  make :
      (object : ℕ)
      → p.counts object ≡ 0
      → Step p (record p { counts = set_count p.counts object 1; held = set_count p.held object 1 })
  let_go :
      (object : ℕ)
      → 0 < p.held object
      → Step p (record p {
        counts = set_count p.counts object (p.counts object - 1);
        held = set_count p.held object (p.held object - 1);
      })
  adopt :
      (i object : ℕ)
      → i < p.slots
      → (p.wrapper i).object ≡ none
      → 0 < p.held object
      → Step p (record p {
        wrapper = set_wrapper p.wrapper i (wrap object true);
        held = set_count p.held object (p.held object - 1);
      })
  refer :
      (i object : ℕ)
      → i < p.slots
      → (p.wrapper i).object ≡ none
      → Step p (record p { wrapper = set_wrapper p.wrapper i (wrap object false) })
  copies :
      (i j : ℕ) (c : Counts) (w : Wrapper)
      → i < p.slots
      → j < p.slots
      → (p.wrapper i).object ≡ none
      → copy_construct p.counts (p.wrapper j) ≡ some (c, w)
      → Step p (record p { counts = c; wrapper = set_wrapper p.wrapper i w })
  copy_assigns :
      (i j : ℕ) (c : Counts) (w : Wrapper)
      → i < p.slots
      → j < p.slots
      → copy_assign p.counts (p.wrapper i) (p.wrapper j) ≡ some (c, w)
      → Step p (record p { counts = c; wrapper = set_wrapper p.wrapper i w })
  moves :
      (i j : ℕ)
      → i < p.slots
      → j < p.slots
      → i ≢ j
      → (p.wrapper i).object ≡ none
      → Step p (record p {
        wrapper =
            set_wrapper
              (set_wrapper p.wrapper i (move_construct (p.wrapper j)).0)
              j
              (move_construct (p.wrapper j)).1;
      })
  move_assigns :
      (i j : ℕ) (c : Counts) (v w : Wrapper)
      → i < p.slots
      → j < p.slots
      → i ≢ j
      → move_assign p.counts (p.wrapper i) (p.wrapper j) ≡ some (c, (v, w))
      → Step p (record p { counts = c; wrapper = set_wrapper (set_wrapper p.wrapper i v) j w })
  assigns :
      (i object : ℕ) (c : Counts) (w : Wrapper)
      → i < p.slots
      → 0 < p.held object
      → same_object (p.wrapper i).object (some object) ≡ false
      → assign_object p.counts (p.wrapper i) (some object) ≡ some (c, w)
      → Step p (record p {
        counts = c;
        wrapper = set_wrapper p.wrapper i w;
        held = set_count p.held object (p.held object - 1);
      })
  relinquishes :
      (i : ℕ)
      → i < p.slots
      → Step p (record p {
        wrapper = set_wrapper p.wrapper i (relinquish (p.wrapper i)).1;
        held = regain p.held (p.wrapper i);
      })
  destroys :
      (i : ℕ) (c : Counts) (w : Wrapper)
      → i < p.slots
      → destroy p.counts (p.wrapper i) ≡ some (c, w)
      → Step p (record p { counts = c; wrapper = set_wrapper p.wrapper i w })

pub data Reach (p : Pool) : Pool → Type 0 where
  here : Reach p p
  next : {q r : Pool} → Reach p q → Step q r → Reach p r

-- No objects, and no wrappers.
abbrev pub start : ℕ → Pool
start slots = record { slots = slots; wrapper = λ _. empty; counts = λ _. 0; held = λ _. 0 }
