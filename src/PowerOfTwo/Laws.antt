-- ===== src/PowerOfTwo/Laws.antt =====
-- What `NextPowerOfTwo` returns over the range that its callers admit.
use native.Mathlib.Decide.{dec_lt}
use native.Mathlib.Nat.{pow-le-pow_right, two-pow-succ, mod-eq_of_lt}
use cxxaudio_utilities.Base.{
  ℕ, zero, suc, ◌+◌, ◌-◌, ◌*◌, ◌%◌, ◌^◌, ◌≤◌, ◌<◌, ◌≡◌, refl, arith, inl, inr, Bool-cases, leb,
  leb→le, two-pow-pos, u32_mod,
}
use cxxaudio_utilities.PowerOfTwo.{leading_zeros, clz, next_power_of_two}

-- The highest one of `x` is its bit `place`, with `z` zeros above it in a word of `w` bits.
record HighestOne (w x z : ℕ) : Type 0 where
  place : ℕ
  width : place + z + 1 ≡ w
  above : 2 ^ place ≤ x
  below : x < 2 ^ suc place

leading_zeros-HighestOne : (w x : ℕ) → 0 < x → x < 2 ^ w → HighestOne w x (leading_zeros w x)
unfolding leading_zeros
leading_zeros-HighestOne zero x p h = absurd (omega arith)
leading_zeros-HighestOne (suc w) x p h = elim (Bool-cases (leb (2 ^ w) x)) [
  | inl high ↦
      rw high (record { place = w; width = omega arith; above = leb→le _ _ high; below = h })
  | inr low ↦
      let small : x < 2 ^ w = ground arith in
      let rest = leading_zeros-HighestOne w x p small in
      rw low (record {
        place = rest.place;
        width = omega (arith, rest.width);
        above = rest.above;
        below = rest.below;
      })
]

-- The result is a power of two that a `uint32_t` holds, and its exponent.
pub record IsCapacity (c : ℕ) : Type 0 where
  pub exponent : ℕ
  pub is_power : c ≡ 2 ^ exponent
  pub at_least : 2 ≤ c
  pub at_most : c ≤ 0x8000_0000

pub record IsNextPower (x c : ℕ) : Type 0 where
  pub capacity : IsCapacity c
  pub reaches : x ≤ c
  pub least : c < 2 * x

place_bound : (x place : ℕ) → x ≤ 0x8000_0000 → 2 ^ place ≤ x - 1 → 0 < x → place < 31
place_bound x place hi above p = elim (dec_lt place 31) [
  | yes h ↦ h
  | no h ↦
      absurd
        (omega (arith, pow-le-pow_right {n = 2} (omega arith) {i = 31} {j = place} (omega arith)))
]

next_power_of_two_at :
    (x : ℕ)
    → 2 ≤ x
    → x ≤ 0x8000_0000
    → HighestOne 32 (x - 1) (clz (x - 1))
    → IsNextPower x (next_power_of_two x)
unfolding next_power_of_two
next_power_of_two_at x lo hi one =
    let shift : 32 - clz (x - 1) ≡ suc one.place = omega (arith, one.width) in
    let place : one.place < 31 = place_bound x one.place hi one.above (omega arith) in
    let fits : 2 ^ suc one.place ≤ 0x8000_0000 =
      pow-le-pow_right {n = 2} (omega arith) {i = suc one.place} {j = 31} place in
    let value : 2 ^ (32 - clz (x - 1)) % u32_mod ≡ 2 ^ suc one.place =
      rw shift (mod-eq_of_lt (omega (arith, fits))) in
    let twice : 2 ^ suc one.place ≡ 2 ^ one.place + 2 ^ one.place = two-pow-succ one.place in
    rw value (record {
      capacity = record {
        exponent = suc one.place;
        is_power = refl;
        at_least = omega (arith, twice, two-pow-pos one.place);
        at_most = fits;
      };
      reaches = omega (arith, one.below);
      least = omega (arith, one.above, twice);
    })

clz-HighestOne : (x : ℕ) → 0 < x → x < 2 ^ 32 → HighestOne 32 x (clz x)
unfolding clz
clz-HighestOne x p h = leading_zeros-HighestOne 32 x p h

-- For `x` from 2 to 2^31 the result is a power of two, at least `x` and below `2 * x`: it is the
-- smallest power of two that is greater than or equal to `x`.
pub next_power_of_two-IsNextPower :
    (x : ℕ) → 2 ≤ x → x ≤ 0x8000_0000 → IsNextPower x (next_power_of_two x)
next_power_of_two-IsNextPower x lo hi =
    next_power_of_two_at x lo hi (clz-HighestOne (x - 1) (omega arith) (omega arith))
