-- ===== src/Tests/Stamps.antt =====
-- Time stamps whose floating-point numbers are natural numbers and NaN.
use cxxaudio_utilities.Base.{ℕ, ◌≡◌, refl, arith, Bool, true, false, Option, none, some, ltb, ◌==◌}
use cxxaudio_utilities.TimeStamp.{
  Floats, Flags, equal, less, greater, less_or_equal, greater_or_equal, from_sample_time,
}
use cxxaudio_utilities.TimeStamp.Comparison.{AreOrdered, AreBits, compared_from_both_sides}

-- `none` is NaN.
compare_numbers : (ℕ → ℕ → Bool) → Option ℕ → Option ℕ → Bool
compare_numbers f (some a) (some b) = f a b
compare_numbers f (some a) none = false
compare_numbers f none b = false

abbrev numbers : Floats (Option ℕ)
numbers = record {
  zero = some 0;
  equal = compare_numbers (λ a b. a == b);
  less = compare_numbers (λ a b. ltb a b);
  greater = compare_numbers (λ a b. ltb b a);
}

numbers-AreOrdered : AreOrdered numbers
unfolding compare_numbers
numbers-AreOrdered = record { equal_sym = same; less-greater = turned; less-not = alone }
  where
    same : (a b : Option ℕ) → numbers.equal a b ≡ numbers.equal b a
    same (some a) (some b) = ground arith
    same (some a) none = refl
    same none (some b) = refl
    same none none = refl

    turned : (a b : Option ℕ) → numbers.less a b ≡ numbers.greater b a
    turned (some a) (some b) = refl
    turned (some a) none = refl
    turned none (some b) = refl
    turned none none = refl

    alone :
        (a b : Option ℕ)
        → numbers.less a b ≡ true
        → (numbers.equal a b ≡ false) × (numbers.greater a b ≡ false)
    alone (some a) (some b) h = (ground arith, ground arith)
    alone (some a) none h = (refl, refl)
    alone none b h = (refl, refl)

abbrev valid : Flags
valid = record {
  sample_time_valid = 1;
  host_time_valid = 2;
  rate_scalar_valid = 4;
  word_clock_time_valid = 8;
  smpte_time_valid = 16;
}

valid-AreBits : AreBits valid
valid-AreBits = record {
  sample_bit = 0;
  sample_is = refl;
  host_bit = 1;
  host_is = refl;
  word_clock_bit = 3;
  word_clock_is = refl;
}

compared_from_both_sides_example :
    let t = from_sample_time numbers valid (some 3) in
    let u = from_sample_time numbers valid (some 5) in
    (equal numbers valid t u ≡ equal numbers valid u t)
    × (less numbers valid t u ≡ greater numbers valid u t)
    × (less_or_equal numbers valid t u ≡ greater_or_equal numbers valid u t)
compared_from_both_sides_example =
    compared_from_both_sides numbers valid numbers-AreOrdered valid-AreBits
      (from_sample_time numbers valid (some 3)) (from_sample_time numbers valid (some 5))
