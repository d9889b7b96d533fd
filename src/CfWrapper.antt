-- ===== src/CfWrapper.antt =====
-- `SFB::CFWrapper`, of include/SFBCFWrapper.hpp in Sources/CXXAudioUtilities: an object of Core
-- Foundation that is released at the end. Objects are numbers and a null pointer is `none`; the
-- number of references to each object is in a store that `CFRetain` and `CFRelease` change. A
-- retain or a release of an object without references, which is gone, makes the result `none`.
pub mod Pool
pub mod Balance
pub mod Lifetime
use cxxaudio_utilities.Base.{
  ℕ, ◌+◌, ◌-◌, Bool, true, false, not, ◌&&◌, Option, none, some, ◌==◌, if◌then◌else◌,
}

-- The private members.
pub record Wrapper : Type 0 where
  pub object : Option ℕ
  pub release : Bool

-- The constructor without arguments, and the one of a null pointer.
abbrev pub empty : Wrapper
empty = record { object = none; release = true }

-- The constructor with an object, and with whether it is to be owned.
abbrev pub wrap : ℕ → Bool → Wrapper
wrap object release = record { object = some object; release = release }

-- The number of references to each object.
abbrev pub Counts : Type 0
Counts = ℕ → ℕ

abbrev pub set_count : Counts → ℕ → ℕ → Counts
set_count c object n o = if o == object then n else c o

-- `CFRetain` and `CFRelease`.
unfoldable pub cf_retain : Counts → ℕ → Option Counts
cf_retain c object = if c object == 0 then none else some (set_count c object (c object + 1))

unfoldable pub cf_release : Counts → ℕ → Option Counts
cf_release c object = if c object == 0 then none else some (set_count c object (c object - 1))

-- `if(mObject && mRelease)` in front of a retain or of a release.
unfoldable pub retain_owned : Counts → Wrapper → Option Counts
retain_owned c w = elim w.object [
  | none ↦ some c
  | some object ↦ if w.release then cf_retain c object else some c
]

unfoldable pub release_owned : Counts → Wrapper → Option Counts
release_owned c w = elim w.object [
  | none ↦ some c
  | some object ↦ if w.release then cf_release c object else some c
]

-- Two pointers compared.
unfoldable pub same_object : Option ℕ → Option ℕ → Bool
same_object none none = true
same_object none (some b) = false
same_object (some a) none = false
same_object (some a) (some b) = a == b

unfoldable pub copy_construct : Counts → Wrapper → Option (Counts × Wrapper)
copy_construct c rhs = elim (retain_owned c rhs) [ none ↦ none | some c' ↦ some (c', rhs) ]

unfoldable pub copy_assign : Counts → Wrapper → Wrapper → Option (Counts × Wrapper)
copy_assign c this rhs =
    if same_object this.object rhs.object
    then some (c, this)
    else elim (release_owned c this) [ none ↦ none | some c' ↦ copy_construct c' rhs ]

-- The destructor leaves a null pointer behind.
unfoldable pub destroy : Counts → Wrapper → Option (Counts × Wrapper)
destroy c this = elim (release_owned c this) [
  | none ↦ none
  | some c' ↦ some (c', record this { object = none })
]

-- The new wrapper, and the one that is moved from.
unfoldable pub move_construct : Wrapper → Wrapper × Wrapper
move_construct rhs = (rhs, record rhs { object = none })

-- The assigned wrapper, and the one that is moved from.
unfoldable pub move_assign : Counts → Wrapper → Wrapper → Option (Counts × (Wrapper × Wrapper))
move_assign c this rhs =
    if same_object this.object rhs.object
    then some (c, (this, rhs))
    else elim (release_owned c this) [ none ↦ none | some c' ↦ some (c', move_construct rhs) ]

-- The assignment of an object.
unfoldable pub assign_object : Counts → Wrapper → Option ℕ → Option (Counts × Wrapper)
assign_object c this rhs =
    if same_object this.object rhs then some (c, this) else elim (release_owned c this) [
      | none ↦ none
      | some c' ↦ some (c', record { object = rhs; release = true })
    ]

unfoldable pub relinquish : Wrapper → Option ℕ × Wrapper
relinquish this = (this.object, record this { object = none })

-- The comparison, with `CFEqual` as a parameter.
unfoldable pub equal : (ℕ → ℕ → Bool) → Wrapper → Wrapper → Bool
equal cf_equal a b = if same_object a.object b.object then true else elim a.object [
  | none ↦ false
  | some x ↦ elim b.object [ none ↦ false | some y ↦ cf_equal x y ]
]
