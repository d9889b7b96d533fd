-- ===== src/PropertyAddress.antt =====
-- `SFB::CAPropertyAddress`, of include/SFBCAPropertyAddress.hpp in Sources/CXXAudioUtilities: the
-- address of a property of an audio object, and its comparison with and without wildcards. The
-- values of Core Audio's headers are parameters.
pub mod Congruence
use cxxaudio_utilities.Base.{ℕ, Bool, not, ◌&&◌, ◌||◌, ◌==◌}

-- `AudioObjectPropertyAddress`.
pub record PropertyAddress : Type 0 where
  pub selector : ℕ
  pub scope : ℕ
  pub element : ℕ

-- The constants of Core Audio that the class uses.
pub record Constants : Type 0 where
  pub scope_global : ℕ
  pub element_main : ℕ
  pub selector_wildcard : ℕ
  pub scope_wildcard : ℕ
  pub element_wildcard : ℕ

abbrev pub empty : PropertyAddress
empty = record { selector = 0; scope = 0; element = 0 }

-- The default arguments.
abbrev pub from_selector : Constants → ℕ → PropertyAddress
from_selector k selector = record {
  selector = selector;
  scope = k.scope_global;
  element = k.element_main;
}

unfoldable pub equal : PropertyAddress → PropertyAddress → Bool
equal a rhs = (a.selector == rhs.selector) && ((a.scope == rhs.scope) && (a.element == rhs.element))

unfoldable pub not_equal : PropertyAddress → PropertyAddress → Bool
not_equal a rhs = not (equal a rhs)

-- The test of one field.
abbrev pub congruent_in : ℕ → ℕ → ℕ → Bool
congruent_in wildcard x y = (x == y) || ((x == wildcard) || (y == wildcard))

unfoldable pub congruent : Constants → PropertyAddress → PropertyAddress → Bool
congruent k a rhs =
    congruent_in k.selector_wildcard a.selector rhs.selector
    && (congruent_in k.scope_wildcard a.scope rhs.scope
        && congruent_in k.element_wildcard a.element rhs.element)
