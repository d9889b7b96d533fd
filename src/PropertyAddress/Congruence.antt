-- ===== src/PropertyAddress/Congruence.antt =====
-- What two congruent addresses have in common.
use cxxaudio_utilities.Base.{
  ℕ, ◌≡◌, ◌↔◌, ◌⊎◌, refl, arith, inl, inr, Bool, Bool-cases, true, false, ◌&&◌, ◌==◌,
}
use cxxaudio_utilities.PropertyAddress.{PropertyAddress, Constants, congruent_in, congruent}

-- A field admits a value when it is that value or the wildcard.
abbrev pub Admits : ℕ → ℕ → ℕ → Type 0
Admits wildcard x value = (x ≡ value) ⊎ (x ≡ wildcard)

-- An address admits another one when each of its fields does.
abbrev pub Matches : Constants → PropertyAddress → PropertyAddress → Type 0
Matches k a c =
    Admits k.selector_wildcard a.selector c.selector
    × Admits k.scope_wildcard a.scope c.scope
    × Admits k.element_wildcard a.element c.element

common_value :
    (wildcard x y : ℕ)
    → congruent_in wildcard x y ≡ true
    → (value : ℕ) × Admits wildcard x value × Admits wildcard y value
common_value wildcard x y h = elim (Bool-cases (x == wildcard)) [
  | inl any ↦ (y, inr (ground arith), inl refl)
  | inr this ↦ (
    x,
    inl refl,
    elim (Bool-cases (x == y)) [ inl same ↦ inl (ground arith) | inr other ↦ inr (ground arith) ],
  )
]

congruent_of_common :
    (wildcard x y value : ℕ)
    → Admits wildcard x value
    → Admits wildcard y value
    → congruent_in wildcard x y ≡ true
congruent_of_common wildcard x y value (inl e) (inl e') = ground arith
congruent_of_common wildcard x y value (inl e) (inr e') = ground arith
congruent_of_common wildcard x y value (inr e) b = ground arith

all_three : (p q s : Bool) → (p && (q && s)) ≡ true → (p ≡ true) × (q ≡ true) × (s ≡ true)
all_three true true true h = (refl, refl, refl)
all_three true true false h = absurd (ground arith)
all_three true false s h = absurd (ground arith)
all_three false q s h = absurd (ground arith)

-- Two addresses are congruent exactly if there is an address that both admit, where a wildcard
-- field admits every value.
pub congruent_iff :
    (k : Constants) (a b : PropertyAddress)
    → (congruent k a b ≡ true) ↔ ((c : PropertyAddress) × Matches k a c × Matches k b c)
unfolding congruent
congruent_iff k a b = (
  λ h.
      let parts = all_three _ _ _ h in
      let s = common_value k.selector_wildcard a.selector b.selector parts.0 in
      let p = common_value k.scope_wildcard a.scope b.scope parts.1 in
      let e = common_value k.element_wildcard a.element b.element parts.2 in
      (record { selector = s.0; scope = p.0; element = e.0 }, (s.1, p.1, e.1), (s.2, p.2, e.2)),
  λ m.
      let s =
        congruent_of_common k.selector_wildcard a.selector b.selector m.0.selector m.1.0 m.2.0 in
      let p = congruent_of_common k.scope_wildcard a.scope b.scope m.0.scope m.1.1 m.2.1 in
      let e = congruent_of_common k.element_wildcard a.element b.element m.0.element m.1.2 m.2.2 in
      rw (s, p, e) refl,
)
