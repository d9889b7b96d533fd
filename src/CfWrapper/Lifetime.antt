-- ===== src/CfWrapper/Lifetime.antt =====
-- Over all steps of a program with `CFWrapper` variables: the number of references to an object is
-- what the program and the wrappers own, so that no operation touches an object that is gone, and
-- no reference is left behind.
use cxxaudio_utilities.Base.{
  ℕ, zero, suc, ◌+◌, ◌-◌, ◌<◌, ◌≤◌, ◌≡◌, ◌≢◌, refl, sym, ap, ◌∙◌, arith, inl, inr, Bool, true,
  false, Bool-cases, Option, none, some, ◌==◌,
}
use cxxaudio_utilities.CfWrapper.{
  Wrapper, empty, wrap, Counts, set_count, copy_construct, copy_assign, destroy, move_construct,
  move_assign, relinquish,
}
use cxxaudio_utilities.CfWrapper.Pool.{
  Pool, set_wrapper, regain, Step, make, let_go, adopt, refer, copies, copy_assigns, moves,
  move_assigns, assigns, relinquishes, destroys, Reach, here, next, start,
}
use cxxaudio_utilities.CfWrapper.Balance.{
  owned, owns, Alive, Balanced, copy_construct-Balanced, copy_assign-Balanced, destroy-Balanced,
  move_construct-owns, both, move_assign-Balanced, assign_object-Balanced,
}

-- The references to `o` that the first `n` wrappers own.
abbrev pub total : ℕ → (ℕ → Wrapper) → ℕ → ℕ
total zero f o = 0
total (suc n) f o = owns (f n) o + total n f o

total-same :
    (n i : ℕ) (f : ℕ → Wrapper) (w : Wrapper) (o : ℕ)
    → n ≤ i
    → total n (set_wrapper f i w) o ≡ total n f o
total-same zero i f w o h = refl
total-same (suc n) i f w o h =
    let other : (n == i) ≡ false = ground arith in
    let rest = total-same n i f w o (omega arith) in rw other (omega arith)

total-set_wrapper :
    (n i : ℕ) (f : ℕ → Wrapper) (w : Wrapper) (o : ℕ)
    → i < n
    → total n (set_wrapper f i w) o + owns (f i) o ≡ total n f o + owns w o
total-set_wrapper zero i f w o h = absurd (omega arith)
total-set_wrapper (suc n) i f w o h = elim (Bool-cases (n == i)) [
  | inl e ↦
      let same : n ≡ i = ground arith in
      let rest = total-same n i f w o (omega arith) in
      let own : owns (f i) o ≡ owns (f n) o = rw same refl in rw e (omega arith)
  | inr ne ↦ let rest = total-set_wrapper n i f w o (ground arith) in rw ne (omega arith)
]

owns-le_total : (n i : ℕ) (f : ℕ → Wrapper) (o : ℕ) → i < n → owns (f i) o ≤ total n f o
owns-le_total zero i f o h = absurd (omega arith)
owns-le_total (suc n) i f o h = elim (Bool-cases (n == i)) [
  | inl e ↦ let same : n ≡ i = ground arith in rw (sym same) (omega arith)
  | inr ne ↦ omega (arith, owns-le_total n i f o (ground arith))
]

-- Every reference is owned by the program or by a wrapper.
pub record Accounted (p : Pool) : Type 0 where
  pub sum : (o : ℕ) → p.counts o ≡ p.held o + total p.slots p.wrapper o

balance_of :
    {c : Counts} {before : ℕ → ℕ} {A : Type 0} {after : A → ℕ → ℕ} {result : Option (Counts × A)}
    → Balanced c before A after result
    → (c' : Counts) (a : A) → result ≡ some (c', a)
    → (o : ℕ) → c' o + before o ≡ c o + after a o
balance_of {c} {before} {A} {after} b c' a e o =
    let same : b.out ≡ (c', a) = cc (b.returns, e) in
    ap (λ (x : Counts × A). x.0 o + before o) (sym same)
    ∙ b.balance o
    ∙ ap (λ (x : Counts × A). c o + after x.1 o) same

vacant-owns : (w : Wrapper) (o : ℕ) → w.object ≡ none → owns w o ≡ 0
vacant-owns w o e = rw e refl

total-set_two :
    (n i j : ℕ) (f : ℕ → Wrapper) (v w : Wrapper) (o : ℕ)
    → i < n
    → j < n
    → i ≢ j
    → total n (set_wrapper (set_wrapper f i v) j w) o + both (f i, f j) o
      ≡ total n f o + both (v, w) o
total-set_two n i j f v w o lt lt' ne =
    let other : (j == i) ≡ false = ground arith in
    let one = total-set_wrapper n i f v o lt in
    let kept : owns (set_wrapper f i v j) o ≡ owns (f j) o = rw other refl in
    let two = total-set_wrapper n j (set_wrapper f i v) w o lt' in omega arith

count_of : (c : Counts) (x o : ℕ) → (o == x) ≡ true → c o ≡ c x
count_of c x o e = let same : o ≡ x = ground arith in ap c same

set_count-fewer :
    (c : Counts) (x o : ℕ) → 0 < c x → set_count c x (c x - 1) o + owned (some x) true o ≡ c o
set_count-fewer c x o h = elim (Bool-cases (o == x)) [
  | inl e ↦ let self = count_of c x o e in rw e (omega arith)
  | inr ne ↦ rw ne (omega arith)
]

set_count-more : (c : Counts) (x o : ℕ) → set_count c x (c x + 1) o ≡ c o + owned (some x) true o
set_count-more c x o = elim (Bool-cases (o == x)) [
  | inl e ↦ let self = count_of c x o e in rw e (omega arith)
  | inr ne ↦ rw ne (omega arith)
]

set_count-first : (c : Counts) (x o : ℕ) → c x ≡ 0 → set_count c x 1 o ≡ c o + owned (some x) true o
set_count-first c x o h = elim (Bool-cases (o == x)) [
  | inl e ↦ let self = count_of c x o e in rw e (omega arith)
  | inr ne ↦ rw ne (omega arith)
]

regain-owned :
    (held : ℕ → ℕ) (object : Option ℕ) (release : Bool) (o : ℕ)
    → regain held (record { object = object; release = release }) o
      ≡ held o + owned object release o
regain-owned held none true o = omega arith
regain-owned held none false o = omega arith
regain-owned held (some x) false o = omega arith
regain-owned held (some x) true o = set_count-more held x o

module _ {p : Pool} (v : Accounted p) where
  alive : (i : ℕ) → i < p.slots → Alive p.counts (p.wrapper i)
  alive i lt o = omega (arith, v.sum o, owns-le_total p.slots i p.wrapper o lt)

  pub Step-Accounted : {q : Pool} → Step p q → Accounted q
  unfolding relinquish
  Step-Accounted (make object gone) = record {
    sum = λ o. omega (
      arith,
      v.sum o,
      set_count-first p.counts object o gone,
      set_count-first p.held object o (omega (arith, v.sum object)),
    );
  }
  Step-Accounted (let_go object some_held) = record {
    sum = λ o. omega (
      arith,
      v.sum o,
      set_count-fewer p.counts object o (omega (arith, v.sum object)),
      set_count-fewer p.held object o some_held,
    );
  }
  Step-Accounted (adopt i object lt vacant some_held) = record {
    sum = λ o. omega (
      arith,
      v.sum o,
      total-set_wrapper p.slots i p.wrapper (wrap object true) o lt,
      vacant-owns (p.wrapper i) o vacant,
      set_count-fewer p.held object o some_held,
    );
  }
  Step-Accounted (refer i object lt vacant) = record {
    sum = λ o. omega (
      arith,
      v.sum o,
      total-set_wrapper p.slots i p.wrapper (wrap object false) o lt,
      vacant-owns (p.wrapper i) o vacant,
    );
  }
  Step-Accounted (copies i j c w lt lt' vacant e) = record {
    sum = λ o. omega (
      arith,
      v.sum o,
      balance_of (copy_construct-Balanced p.counts (p.wrapper j) (alive j lt')) c w e o,
      total-set_wrapper p.slots i p.wrapper w o lt,
      vacant-owns (p.wrapper i) o vacant,
    );
  }
  Step-Accounted (copy_assigns i j c w lt lt' e) = record {
    sum = λ o. omega (
      arith,
      v.sum o,
      balance_of
          (copy_assign-Balanced p.counts (p.wrapper i) (p.wrapper j) (alive i lt) (alive j lt')) c w
          e o,
      total-set_wrapper p.slots i p.wrapper w o lt,
    );
  }
  Step-Accounted (moves i j lt lt' ne vacant) = record {
    sum = λ o. omega (
      arith,
      v.sum o,
      move_construct-owns (p.wrapper j) o,
      total-set_two p.slots i j p.wrapper (move_construct (p.wrapper j)).0
          (move_construct (p.wrapper j)).1 o lt lt' ne,
      vacant-owns (p.wrapper i) o vacant,
    );
  }
  Step-Accounted (move_assigns i j c w w' lt lt' ne e) = record {
    sum = λ o. omega (
      arith,
      v.sum o,
      balance_of (move_assign-Balanced p.counts (p.wrapper i) (p.wrapper j) (alive i lt)) c (w, w')
          e o,
      total-set_two p.slots i j p.wrapper w w' o lt lt' ne,
    );
  }
  Step-Accounted (assigns i object c w lt some_held differ e) = record {
    sum = λ o. omega (
      arith,
      v.sum o,
      balance_of (assign_object-Balanced p.counts (p.wrapper i) object (alive i lt) differ) c w e o,
      total-set_wrapper p.slots i p.wrapper w o lt,
      set_count-fewer p.held object o some_held,
    );
  }
  Step-Accounted (relinquishes i lt) = record {
    sum = λ o. omega (
      arith,
      v.sum o,
      total-set_wrapper p.slots i p.wrapper (relinquish (p.wrapper i)).1 o lt,
      regain-owned p.held (p.wrapper i).object (p.wrapper i).release o,
    );
  }
  Step-Accounted (destroys i c w lt e) = record {
    sum = λ o. omega (
      arith,
      v.sum o,
      balance_of (destroy-Balanced p.counts (p.wrapper i) (alive i lt)) c w e o,
      total-set_wrapper p.slots i p.wrapper w o lt,
    );
  }

total-empty : (n o : ℕ) → total n (λ _. empty) o ≡ 0
total-empty zero o = refl
total-empty (suc n) o = omega (arith, total-empty n o)

Reach-Accounted : {p q : Pool} → Accounted p → Reach p q → Accounted q
Reach-Accounted v here = v
Reach-Accounted v (next path step) = Step-Accounted (Reach-Accounted v path) step

start-Accounted : (slots : ℕ) → Accounted (start slots)
start-Accounted slots = record { sum = λ o. omega (arith, total-empty slots o) }

-- In a program that starts without objects, gives away only references that it has, and assigns an
-- object only to a wrapper of another one: the number of references to an object is at any time the
-- sum of those that the program has and those that its wrappers own.
pub counts-accounted :
    (slots : ℕ) {p : Pool}
    → Reach (start slots) p
    → (o : ℕ) → p.counts o ≡ p.held o + total p.slots p.wrapper o
counts-accounted slots path o = let v = Reach-Accounted (start-Accounted slots) path in v.sum o

-- In such a program, every owning wrapper has an object that is there, and copying, assigning,
-- moving and destroying wrappers never fault: no object is retained or released that is gone.
pub wrappers-alive :
    (slots : ℕ) {p : Pool}
    → Reach (start slots) p
    → (i j : ℕ) → i < p.slots
    → j < p.slots
    → ((o : ℕ) → owns (p.wrapper i) o ≤ p.counts o)
      × Balanced p.counts (λ _. 0) Wrapper owns (copy_construct p.counts (p.wrapper i))
      × Balanced p.counts
          (owns (p.wrapper i))
          Wrapper
          owns
          (copy_assign p.counts (p.wrapper i) (p.wrapper j))
      × Balanced p.counts
          (both (p.wrapper i, p.wrapper j))
          (Wrapper × Wrapper)
          both
          (move_assign p.counts (p.wrapper i) (p.wrapper j))
      × Balanced p.counts (owns (p.wrapper i)) Wrapper owns (destroy p.counts (p.wrapper i))
wrappers-alive slots {p} path i j lt lt' =
    let v = Reach-Accounted (start-Accounted slots) path in
    let a = alive v i lt in
    (
      a,
      copy_construct-Balanced p.counts (p.wrapper i) a,
      copy_assign-Balanced p.counts (p.wrapper i) (p.wrapper j) a (alive v j lt'),
      move_assign-Balanced p.counts (p.wrapper i) (p.wrapper j) a,
      destroy-Balanced p.counts (p.wrapper i) a,
    )
