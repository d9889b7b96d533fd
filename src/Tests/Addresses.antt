-- ===== src/Tests/Addresses.antt =====
-- Property addresses, with 42 as the wildcard.
use cxxaudio_utilities.Base.{◌≡◌, ◌↔◌, true}
use cxxaudio_utilities.PropertyAddress.{PropertyAddress, Constants, congruent}
use cxxaudio_utilities.PropertyAddress.Congruence.{Matches, congruent_iff}

abbrev wildcards : Constants
wildcards = record {
  scope_global = 7;
  element_main = 0;
  selector_wildcard = 42;
  scope_wildcard = 42;
  element_wildcard = 42;
}

abbrev any_scope : PropertyAddress
any_scope = record { selector = 3; scope = 42; element = 0 }

abbrev any_element : PropertyAddress
any_element = record { selector = 3; scope = 7; element = 42 }

congruent_iff_example :
    (congruent wildcards any_scope any_element ≡ true)
    ↔ ((c : PropertyAddress) × Matches wildcards any_scope c × Matches wildcards any_element c)
congruent_iff_example = congruent_iff wildcards any_scope any_element
