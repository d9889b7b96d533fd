-- ===== src/CfWrapper/Balance.antt =====
-- What each operation of a `CFWrapper` does to the number of references and to those that the
-- wrappers own: the two change by the same amount.
use cxxaudio_utilities.Base.{
  ℕ, ◌+◌, ◌-◌, ◌≤◌, ◌≡◌, ◌⊎◌, refl, arith, inl, inr, Bool, true, false, Bool-cases, Option, none,
  some, ◌==◌, if◌then◌else◌,
}
use cxxaudio_utilities.CfWrapper.{
  Wrapper, wrap, Counts, set_count, cf_retain, cf_release, retain_owned, release_owned, same_object,
  copy_construct, copy_assign, destroy, move_construct, move_assign, assign_object,
}

abbrev pub owned : Option ℕ → Bool → ℕ → ℕ
owned none release o = 0
owned (some x) false o = 0
owned (some x) true o = if o == x then 1 else 0

-- The references to `o` that a wrapper owns: one or none.
abbrev pub owns : Wrapper → ℕ → ℕ
owns w = owned w.object w.release

-- A retain adds what the wrapper owns, and a release takes it away; neither faults on an object
-- that has the references.
record Retained (c : Counts) (w : Wrapper) : Type 0 where
  out : Counts
  returns : retain_owned c w ≡ some out
  adds : (o : ℕ) → out o ≡ c o + owns w o

record Released (c : Counts) (w : Wrapper) : Type 0 where
  out : Counts
  returns : release_owned c w ≡ some out
  takes : (o : ℕ) → out o + owns w o ≡ c o

retain_owned-Retained :
    (c : Counts) (object : Option ℕ) (release : Bool)
    → ((o : ℕ) → owned object release o ≤ c o)
    → Retained c (record { object = object; release = release })
unfolding retain_owned cf_retain
retain_owned-Retained c none release alive = record {
  out = c;
  returns = refl;
  adds = λ o. omega arith;
}
retain_owned-Retained c (some x) false alive = record {
  out = c;
  returns = refl;
  adds = λ o. omega arith;
}
retain_owned-Retained c (some x) true alive =
    let there : (c x == 0) ≡ false = ground (arith, alive x) in
    record {
      out = set_count c x (c x + 1);
      returns = rw there refl;
      adds = λ o. elim (Bool-cases (o == x)) [
        | inl e ↦ let same : o ≡ x = ground arith in rw same (ground arith)
        | inr ne ↦ rw ne (omega arith)
      ];
    }

release_owned-Released :
    (c : Counts) (object : Option ℕ) (release : Bool)
    → ((o : ℕ) → owned object release o ≤ c o)
    → Released c (record { object = object; release = release })
unfolding release_owned cf_release
release_owned-Released c none release alive = record {
  out = c;
  returns = refl;
  takes = λ o. omega arith;
}
release_owned-Released c (some x) false alive = record {
  out = c;
  returns = refl;
  takes = λ o. omega arith;
}
release_owned-Released c (some x) true alive =
    let there : (c x == 0) ≡ false = ground (arith, alive x) in
    record {
      out = set_count c x (c x - 1);
      returns = rw there refl;
      takes = λ o. elim (Bool-cases (o == x)) [
        | inl e ↦ let same : o ≡ x = ground arith in let one = alive x in rw same (ground arith)
        | inr ne ↦ rw ne (omega arith)
      ];
    }

-- An operation returns, and gives and takes references as the ownership of the wrapper changes.
pub record Balanced (c : Counts) (before : ℕ → ℕ) (A : Type 0) (after : A → ℕ → ℕ)
    (result : Option (Counts × A)) : Type 0 where
  pub out : Counts × A
  pub returns : result ≡ some out
  pub balance : (o : ℕ) → out.0 o + before o ≡ c o + after out.1 o

abbrev pub Alive : Counts → Wrapper → Type 0
Alive c w = (o : ℕ) → owns w o ≤ c o

pub copy_construct-Balanced :
    (c : Counts) (rhs : Wrapper)
    → Alive c rhs
    → Balanced c (λ _. 0) Wrapper owns (copy_construct c rhs)
unfolding copy_construct
copy_construct-Balanced c rhs alive =
    let r = retain_owned-Retained c rhs.object rhs.release alive in
    record {
      out = (r.out, rhs);
      returns = rw (copy_construct, r.returns) refl;
      balance = λ o. omega (arith, r.adds o);
    }

-- Wrappers of different objects do not own the same one.
apart :
    (a b : Option ℕ) (r s : Bool) (o : ℕ)
    → same_object a b ≡ false
    → (owned a r o ≡ 0) ⊎ (owned b s o ≡ 0)
unfolding same_object
apart none b r s o h = inl refl
apart (some x) none r s o h = inr refl
apart (some x) (some y) false s o h = inl refl
apart (some x) (some y) true false o h = inr refl
apart (some x) (some y) true true o h = ground arith

pub copy_assign-Balanced :
    (c : Counts) (this rhs : Wrapper)
    → Alive c this
    → Alive c rhs
    → Balanced c (owns this) Wrapper owns (copy_assign c this rhs)
unfolding copy_assign
copy_assign-Balanced c this rhs alive alive' =
    elim (Bool-cases (same_object this.object rhs.object)) [
      | inl same ↦ record { out = (c, this); returns = rw same refl; balance = λ o. refl }
      | inr differ ↦
          let d = release_owned-Released c this.object this.release alive in
          let k = copy_construct-Balanced d.out rhs λ o. omega (
            arith,
            d.takes o,
            alive' o,
            apart this.object rhs.object this.release rhs.release o differ,
          ) in
          record {
            out = k.out;
            returns = rw (copy_assign, differ, d.returns) k.returns;
            balance = λ o. omega (arith, d.takes o, k.balance o);
          }
    ]

pub destroy-Balanced :
    (c : Counts) (this : Wrapper)
    → Alive c this
    → Balanced c (owns this) Wrapper owns (destroy c this)
unfolding destroy
destroy-Balanced c this alive =
    let d = release_owned-Released c this.object this.release alive in
    record {
      out = (d.out, record this { object = none });
      returns = rw (destroy, d.returns) refl;
      balance = λ o. omega (arith, d.takes o);
    }

pub move_construct-owns :
    (rhs : Wrapper) (o : ℕ)
    → owns (move_construct rhs).0 o + owns (move_construct rhs).1 o ≡ owns rhs o
unfolding move_construct
move_construct-owns rhs o = omega arith

abbrev pub both : Wrapper × Wrapper → ℕ → ℕ
both p o = owns p.0 o + owns p.1 o

pub move_assign-Balanced :
    (c : Counts) (this rhs : Wrapper)
    → Alive c this
    → Balanced c (both (this, rhs)) (Wrapper × Wrapper) both (move_assign c this rhs)
unfolding move_assign
move_assign-Balanced c this rhs alive = elim (Bool-cases (same_object this.object rhs.object)) [
  | inl same ↦ record { out = (c, (this, rhs)); returns = rw same refl; balance = λ o. refl }
  | inr differ ↦
      let d = release_owned-Released c this.object this.release alive in
      record {
        out = (d.out, move_construct rhs);
        returns = rw (move_assign, differ, d.returns) refl;
        balance = λ o. omega (arith, d.takes o, move_construct-owns rhs o);
      }
]

-- With the reference that comes with the assigned object.
pub assign_object-Balanced :
    (c : Counts) (this : Wrapper) (object : ℕ)
    → Alive c this
    → same_object this.object (some object) ≡ false
    → Balanced c
        (λ o. owns this o + owned (some object) true o)
        Wrapper
        owns
        (assign_object c this (some object))
unfolding assign_object
assign_object-Balanced c this object alive differ =
    let d = release_owned-Released c this.object this.release alive in
    record {
      out = (d.out, wrap object true);
      returns = rw (assign_object, differ, d.returns) refl;
      balance = λ o. omega (arith, d.takes o);
    }
