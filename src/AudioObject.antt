-- ===== src/AudioObject.antt =====
-- `SFB::CAAudioObject`, of include/SFBCAAudioObject.hpp in Sources/CXXAudioUtilities, as far as it
-- queries and sets the properties of an audio object. What the system's calls return is a
-- parameter: a status, which is 0 for `noErr`, and what they store. A value is its bytes; an access
-- outside of one makes the result `none`. A qualifier is its bytes too, none by default.
pub mod Arrays
use cxxaudio_utilities.Base.{
  ℕ, ◌*◌, ◌/◌, Bool, true, false, not, Option, none, some, List, length, replicate, ◌==◌,
  if◌then◌else◌, Result, thrown, done, try_then, system_error, ◌>>=◌, memcpy,
}
use cxxaudio_utilities.PropertyAddress.{PropertyAddress}

-- What `AudioObjectGetPropertyData` returns and stores: a status, the size, and bytes.
pub record PropertyData : Type 0 where
  pub status : ℕ
  pub size : ℕ
  pub bytes : List ℕ

-- The calls of Core Audio, for an object, an address and a qualifier; the first two return a status
-- and a value, `property_data` is given a size too, and `set_property_data` bytes.
pub record System : Type 0 where
  pub has_property : ℕ → PropertyAddress → Bool
  pub is_property_settable : ℕ → PropertyAddress → ℕ × ℕ
  pub property_data_size : ℕ → PropertyAddress → List ℕ → ℕ × ℕ
  pub property_data : ℕ → PropertyAddress → List ℕ → ℕ → PropertyData
  pub set_property_data : ℕ → PropertyAddress → List ℕ → List ℕ → ℕ

-- `CAAudioObject`, with `kAudioObjectUnknown` as an argument where it is used.
pub record AudioObject : Type 0 where
  pub object_id : ℕ

abbrev pub from_object_id : ℕ → AudioObject
from_object_id object_id = record { object_id = object_id }

abbrev pub is_known : ℕ → AudioObject → Bool
is_known unknown o = not (o.object_id == unknown)

abbrev pub has_object_id : AudioObject → ℕ → Bool
has_object_id o rhs = o.object_id == rhs

-- `ThrowIfCAAudioObjectError`.
unfoldable pub throw_if_error : ℕ → Result (Unit {0})
throw_if_error result = if result == 0 then done tt else thrown (system_error result)

module _ (system : System) (this : AudioObject) (address : PropertyAddress) where
  abbrev pub has_property : Bool
  has_property = system.has_property this.object_id address

  unfoldable pub is_property_settable : Result Bool
  is_property_settable =
      let (result, settable) = system.is_property_settable this.object_id address in
      try_then (throw_if_error result) (λ _. done (not (settable == 0)))

  unfoldable pub get_property_data_size : List ℕ → Result ℕ
  get_property_data_size qualifier =
      let (result, size) = system.property_data_size this.object_id address qualifier in
      try_then (throw_if_error result) (λ _. done size)

  -- The size is an argument and a result, and so is the memory that is filled.
  unfoldable pub get_property_data : List ℕ → ℕ → List ℕ → Option (Result (Unit {0}) × ℕ × List ℕ)
  get_property_data qualifier size memory =
      let answer = system.property_data this.object_id address qualifier size in
      do
        memory' ← memcpy memory 0 answer.bytes 0 (length answer.bytes)
        some (throw_if_error answer.status, answer.size, memory')

  unfoldable pub set_property_data : List ℕ → List ℕ → Result (Unit {0})
  set_property_data qualifier bytes =
      throw_if_error (system.set_property_data this.object_id address qualifier bytes)

  -- The value that a call filled, if it did not throw.
  abbrev pub filled : Result (Unit {0}) × ℕ × List ℕ → Result (List ℕ)
  filled (result, size, memory) = try_then result (λ _. done memory)

  -- `value` is what the local variable holds before it is set.
  unfoldable pub arithmetic_property : List ℕ → List ℕ → Option (Result (List ℕ))
  arithmetic_property value qualifier = do
    found ← get_property_data qualifier (length value) value
    some (filled found)

  unfoldable pub struct_property : List ℕ → List ℕ → Option (Result (List ℕ))
  struct_property value qualifier = do
    found ← get_property_data qualifier (length value) value
    some (filled found)

  -- The bytes of the elements, of `size_of` bytes each. A vector without elements has no first one
  -- to take the address of.
  unfoldable pub array_of_size : ℕ → List ℕ → ℕ → Option (Result (List ℕ))
  array_of_size size_of qualifier size =
      let count = size / size_of in
      if count == 0 then none else (do
        found ← get_property_data qualifier size (replicate (count * size_of) 0)
        some (filled found))

  unfoldable pub array_property : ℕ → List ℕ → Option (Result (List ℕ))
  array_property size_of qualifier = elim (get_property_data_size qualifier) [
    | thrown e ↦ some (thrown e)
    | done size ↦ array_of_size size_of qualifier size
  ]
