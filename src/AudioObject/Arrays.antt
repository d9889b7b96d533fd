-- ===== src/AudioObject/Arrays.antt =====
-- What `ArrayProperty` returns, with and without elements.
use native.Mathlib.Nat.{div-eq_of_lt}
use cxxaudio_utilities.Base.{
  ℕ, zero, suc, ◌-◌, ◌*◌, ◌/◌, ◌≤◌, ◌<◌, ◌≡◌, refl, ap, ◌∙◌, arith, ◌==◌, false, none, some, List,
  ◌++◌, length, drop, take_all, replicate, length-replicate, thrown, done, try_then, system_error,
  memcpy_front,
}
use cxxaudio_utilities.PropertyAddress.{PropertyAddress}
use cxxaudio_utilities.AudioObject.{
  System, AudioObject, throw_if_error, get_property_data_size, get_property_data, array_of_size,
  array_property,
}

drop-replicate : (n m : ℕ) (x : ℕ) → drop n (replicate m x) ≡ replicate (m - n) x
drop-replicate zero m x = let same : m ≡ m - 0 = omega arith in ap (λ k. replicate k x) same
drop-replicate (suc n) zero x =
    let none_left : 0 ≡ 0 - suc n = omega arith in ap (λ k. replicate k x) none_left
drop-replicate (suc n) (suc m) x =
    let less : m - n ≡ suc m - suc n = omega arith in
    drop-replicate n m x ∙ ap (λ k. replicate k x) less

module _ (system : System) (this : AudioObject) (address : PropertyAddress)
    (qualifier : List ℕ) where
  size_found :
      (size : ℕ)
      → system.property_data_size this.object_id address qualifier ≡ (0, size)
      → get_property_data_size system this address qualifier ≡ done size
  unfolding get_property_data_size throw_if_error
  size_found size asked =
      ap (λ answer. try_then (throw_if_error answer.0) (λ _. done answer.1)) asked

  size_thrown :
      (status size : ℕ)
      → system.property_data_size this.object_id address qualifier ≡ (status, size)
      → 0 < status
      → get_property_data_size system this address qualifier ≡ thrown (system_error status)
  unfolding get_property_data_size throw_if_error
  size_thrown status size asked failed =
      let wrong : (status == 0) ≡ false = ground arith in
      ap (λ answer. try_then (throw_if_error answer.0) (λ _. done answer.1)) asked ∙ rw wrong refl

  -- `ArrayProperty` throws what the query of the size throws, and asks for no data then.
  array_property-thrown :
      (size_of status size : ℕ)
      → system.property_data_size this.object_id address qualifier ≡ (status, size)
      → 0 < status
      → array_property system this address size_of qualifier ≡ some (thrown (system_error status))
  unfolding array_property
  array_property-thrown size_of status size asked failed =
      rw (array_property, size_thrown status size asked failed) refl

  -- A property without elements is a fault: the vector is empty, and `ArrayProperty` takes the
  -- address of its first element.
  array_property-empty :
      (size_of size : ℕ)
      → system.property_data_size this.object_id address qualifier ≡ (0, size)
      → size < size_of
      → array_property system this address size_of qualifier ≡ none
  unfolding array_property array_of_size
  array_property-empty size_of size asked small =
      simp (array_property, size_found size asked, div-eq_of_lt {n = size} {m = size_of} small)

  -- `ArrayProperty` has as many elements as the size that was asked first has room for, whatever
  -- size the data turn out to have: with fewer bytes than that, the rest of the elements is zero.
  array_property-padded :
      (size_of size : ℕ)
      → system.property_data_size this.object_id address qualifier ≡ (0, size)
      → 0 < size / size_of
      → let answer = system.property_data this.object_id address qualifier size in
        answer.status ≡ 0
        → length answer.bytes ≤ size / size_of * size_of
        → array_property system this address size_of qualifier
          ≡ some
              (done (answer.bytes ++ replicate (size / size_of * size_of - length answer.bytes) 0))
  unfolding array_property array_of_size get_property_data throw_if_error
  array_property-padded size_of size asked some_elements found fits =
      let bytes = (system.property_data this.object_id address qualifier size).bytes in
      let room = size / size_of * size_of in
      let some_count : (size / size_of == 0) ≡ false = ground arith in
      let copied =
        memcpy_front (replicate room 0) bytes 0 (length bytes)
          (omega (arith, length-replicate {A = ℕ} room 0)) (omega arith) in
      simp (
        array_property,
        size_found size asked,
        some_count,
        copied,
        found,
        take_all (length bytes) bytes (omega arith),
        drop-replicate (length bytes) room 0,
      )
