-- ===== src/TimeStamp/Comparison.antt =====
-- The comparisons of two time stamps, from both sides.
use native.Mathlib.Nat.{mod-lt, zero-mul, one-mul}
use cxxaudio_utilities.Base.{
  ℕ, ◌*◌, ◌/◌, ◌%◌, ◌^◌, ◌<◌, ◌≡◌, refl, sym, ap, ap₂, ◌∙◌, arith, inl, inr, Bool, Bool-cases, true,
  false, ◌&&◌, ◌||◌, ◌==◌, ltb, bit_and, bit_and_bit, two-pow-pos, if◌then◌else◌,
}
use cxxaudio_utilities.TimeStamp.{
  Floats, Flags, TimeStamp, has, other_has, sample_time_is_valid, host_time_is_valid,
  word_clock_time_is_valid, equal, less, greater, less_or_equal, greater_or_equal,
}

-- What IEEE 754 says of the comparisons, NaN included.
pub record AreOrdered {F : Type 0} (floats : Floats F) : Type 0 where
  pub equal_sym : (a b : F) → floats.equal a b ≡ floats.equal b a
  pub less-greater : (a b : F) → floats.less a b ≡ floats.greater b a
  pub less-not :
      (a b : F) → floats.less a b ≡ true → (floats.equal a b ≡ false) × (floats.greater a b ≡ false)

-- What Core Audio says of the flags that the comparisons use: each is one bit.
pub record AreBits (c : Flags) : Type 0 where
  pub sample_bit : ℕ
  pub sample_is : c.sample_time_valid ≡ 2 ^ sample_bit
  pub host_bit : ℕ
  pub host_is : c.host_time_valid ≡ 2 ^ host_bit
  pub word_clock_bit : ℕ
  pub word_clock_is : c.word_clock_time_valid ≡ 2 ^ word_clock_bit

-- A choice by two flags, from the one side and from the other.
mirrored :
    {x x' y y' p p' q q' : Bool}
    → x ≡ x'
    → y ≡ y'
    → p ≡ p'
    → q ≡ q'
    → (if x && y' then p else q) ≡ (if y && x' then p' else q')
mirrored {x} {x'} {y} {y'} {p} {p'} {q} {q'} ex ey ep eq = rw (ex, sym ey, ep, eq) (both x' y)
  where
    both : (a b : Bool) → (if a && b then p' else q') ≡ (if b && a then p' else q')
    both true true = refl
    both true false = refl
    both false true = refl
    both false false = refl

-- Three results chosen by one condition.
alone :
    (b : Bool) {p p' p'' q q' q'' : Bool}
    → (p ≡ true → (p' ≡ false) × (p'' ≡ false))
    → (q ≡ true → (q' ≡ false) × (q'' ≡ false))
    → (if b then p else q) ≡ true
    → ((if b then p' else q') ≡ false) × ((if b then p'' else q'') ≡ false)
alone true hp hq h = hp h
alone false hp hq h = hq h

ltb-alone : (a b : ℕ) → ltb a b ≡ true → ((a == b) ≡ false) × (ltb b a ≡ false)
ltb-alone a b h = (ground arith, ground arith)

module _ {F : Type 0} (floats : Floats F) (c : Flags) where
  -- For a flag of one bit the two tests agree.
  has-other_has :
      (flag i : ℕ) (t : TimeStamp F)
      → flag ≡ 2 ^ i
      → has floats c flag t ≡ other_has floats c flag t
  unfolding has other_has
  has-other_has flag i t e =
      let masked : bit_and t.flags flag ≡ t.flags / 2 ^ i % 2 * flag =
        rw e (bit_and_bit i t.flags) in
      let pos : 0 < flag = omega (arith, e, two-pow-pos i) in
      elim (Bool-cases (t.flags / 2 ^ i % 2 == 0)) [
        | inl clear ↦
            let d : t.flags / 2 ^ i % 2 ≡ 0 = ground arith in
            let none_set : bit_and t.flags flag ≡ 0 =
              masked ∙ ap (λ (x : ℕ). x * flag) d ∙ zero-mul flag in
            rw none_set (ground arith)
        | inr set ↦
            let two_pos : 0 < 2 = omega arith in
            let d : t.flags / 2 ^ i % 2 ≡ 1 = ground (arith, mod-lt (t.flags / 2 ^ i) two_pos) in
            let whole_flag : bit_and t.flags flag ≡ flag =
              masked ∙ ap (λ (x : ℕ). x * flag) d ∙ one-mul flag in
            rw whole_flag (ground arith)
      ]

  module _ (ordered : AreOrdered floats) (bits : AreBits c) where
    sample :
        (x : TimeStamp F)
        → has floats c c.sample_time_valid x ≡ other_has floats c c.sample_time_valid x
    sample x = has-other_has c.sample_time_valid bits.sample_bit x bits.sample_is

    host :
        (x : TimeStamp F)
        → has floats c c.host_time_valid x ≡ other_has floats c c.host_time_valid x
    host x = has-other_has c.host_time_valid bits.host_bit x bits.host_is

    word_clock :
        (x : TimeStamp F)
        → has floats c c.word_clock_time_valid x ≡ other_has floats c c.word_clock_time_valid x
    word_clock x = has-other_has c.word_clock_time_valid bits.word_clock_bit x bits.word_clock_is

    equal_sides : (t u : TimeStamp F) → equal floats c t u ≡ equal floats c u t
    unfolding equal sample_time_is_valid host_time_is_valid word_clock_time_is_valid
    equal_sides t u =
        mirrored (sample t) (sample u) (ordered.equal_sym t.sample_time u.sample_time) (
          mirrored (host t) (host u) (ground arith)
            (mirrored (word_clock t) (word_clock u) (ground arith) refl))

    less_sides : (t u : TimeStamp F) → less floats c t u ≡ greater floats c u t
    unfolding less greater sample_time_is_valid host_time_is_valid word_clock_time_is_valid
    less_sides t u =
        mirrored (sample t) (sample u) (ordered.less-greater t.sample_time u.sample_time)
          (mirrored (host t) (host u) refl (mirrored (word_clock t) (word_clock u) refl refl))

    -- With flags of one bit each, and comparisons of `Float64` as in IEEE 754, the operators of two
    -- time stamps agree from both sides: `==` is symmetric, `<` is `>` of the other side, and `<=`
    -- is `>=` of the other side.
    pub compared_from_both_sides :
        (t u : TimeStamp F)
        → (equal floats c t u ≡ equal floats c u t)
          × (less floats c t u ≡ greater floats c u t)
          × (less_or_equal floats c t u ≡ greater_or_equal floats c u t)
    unfolding less_or_equal greater_or_equal
    compared_from_both_sides t u =
        (equal_sides t u, less_sides t u, ap₂ ◌||◌ (less_sides t u) (equal_sides t u))

  module _ (ordered : AreOrdered floats) where
    -- With comparisons of `Float64` as in IEEE 754, a time stamp that is less than another is neither
    -- equal to it nor greater.
    pub less_alone :
        (t u : TimeStamp F)
        → less floats c t u ≡ true
        → (equal floats c t u ≡ false) × (greater floats c t u ≡ false)
    unfolding less greater equal
    less_alone t u = alone _ (ordered.less-not t.sample_time u.sample_time) (
        alone _ (ltb-alone t.host_time u.host_time)
          (alone _ (ltb-alone t.word_clock_time u.word_clock_time) (λ e. (refl, refl))))
