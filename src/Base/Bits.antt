-- ===== src/Base/Bits.antt =====
-- Masks: `x & (2 ^ k - 1)` and `x & 2 ^ k` as arithmetic, at every width.
use Prim.Native.Nat.{ℕ, zero, suc, ◌+◌, ◌-◌, ◌*◌, ◌/◌, ◌%◌, ◌^◌, ◌≤◌, ◌<◌, min}
use Prim.Native.Nat.{bit_and, bit_or, max, digits, bit_and-bitwise, bit_or-bitwise}
use mathlib.Core.Path.{◌≡◌, refl, sym, ap, ◌∙◌}
use native.Mathlib.Omega.{arith}
use native.Mathlib.Nat.{two-pow-succ, one-le-pow, div-div-eq-div-mul, div-add-mod, mod-lt}
use native.Mathlib.Nat.{
  mod-eq_of_lt, pow-le-pow_right, mod-le, div-mul-le_self, le_trans, mul-le-mul_right,
  add-mul-mod_self_left,
}

-- The recursion over binary digits that both operations are: `end'` is what is left when the first
-- word has no more digits, and `op` joins two digits.
module _ (end' : ℕ → ℕ) (op : ℕ → ℕ → ℕ) where
  no_digits : (k y : ℕ) → digits end' op k 0 y ≡ end' y
  no_digits zero y = refl
  no_digits (suc k) y = refl

  -- The result does not depend on the fuel, as long as that reaches the first word.
  surplus : (k l x y : ℕ) → (x ≤ k) × (x ≤ l) → digits end' op k x y ≡ digits end' op l x y
  surplus k l zero y e = no_digits k y ∙ sym (no_digits l y)
  surplus (suc k) (suc l) (suc x) y e =
      ap (λ high. high * 2 + op (suc x % 2) (y % 2))
        (surplus k l (suc x / 2) (y / 2) (omega arith, omega arith))
  surplus zero l (suc x) y e = absurd (omega (arith, e.0))
  surplus (suc k) zero (suc x) y e = absurd (omega (arith, e.1))

  -- The law for the lowest digits.
  lowest :
      ((y : ℕ) → end' y ≡ end' (y / 2) * 2 + op 0 (y % 2))
      → (x y : ℕ)
      → digits end' op x x y ≡ digits end' op (x / 2) (x / 2) (y / 2) * 2 + op (x % 2) (y % 2)
  lowest at_end zero y = at_end y
  lowest at_end (suc x) y =
      ap (λ high. high * 2 + op (suc x % 2) (y % 2))
        (surplus x (suc x / 2) (suc x / 2) (y / 2) (omega arith, omega arith))

bit_and_step : (a b : ℕ) → bit_and a b ≡ bit_and (a / 2) (b / 2) * 2 + min (a % 2) (b % 2)
bit_and_step a b =
    bit_and-bitwise a b
    ∙ lowest (λ y. zero) min (λ y. omega arith) a b
    ∙ ap (λ high. high * 2 + min (a % 2) (b % 2)) (sym (bit_and-bitwise (a / 2) (b / 2)))

bit_or_step : (a b : ℕ) → bit_or a b ≡ bit_or (a / 2) (b / 2) * 2 + max (a % 2) (b % 2)
bit_or_step a b =
    bit_or-bitwise a b
    ∙ lowest (λ y. y) max (λ y. omega arith) a b
    ∙ ap (λ high. high * 2 + max (a % 2) (b % 2)) (sym (bit_or-bitwise (a / 2) (b / 2)))

-- With a second word of no ones, by recursion on a bound of the first.
and_or-zero : (bound a : ℕ) → a ≤ bound → (bit_and a 0 ≡ 0) × (bit_or a 0 ≡ a)
and_or-zero bound zero le = (bit_and-bitwise 0 0, bit_or-bitwise 0 0)
and_or-zero (suc bound) (suc a) le =
    let half = and_or-zero bound (suc a / 2) (omega arith) in
    (omega (arith, bit_and_step (suc a) 0, half.0), omega (arith, bit_or_step (suc a) 0, half.1))
and_or-zero zero (suc a) le = absurd (omega arith)

pub bit_and-zero : (a : ℕ) → bit_and a 0 ≡ 0
bit_and-zero a = (and_or-zero a a (omega arith)).0

pub two-pow-pos : (k : ℕ) → 0 < 2 ^ k
two-pow-pos k = one-le-pow k 2 (omega arith)

-- The lowest digit of a remainder by an even number.
mod-double : (a m : ℕ) → 0 < m → a % (m + m) ≡ a / 2 % m * 2 + a % 2
mod-double a m h =
    let r = a / 2 % m * 2 + a % 2 in
    let e : a ≡ r + (m + m) * (a / 2 / m) = omega (arith, div-add-mod (a / 2) m) in
    let small : r < m + m = omega (arith, mod-lt (a / 2) h) in
    ap (λ (t : ℕ). t % (m + m)) e ∙ add-mul-mod_self_left r (m + m) (a / 2 / m) ∙ mod-eq_of_lt small

-- A mask of `k` low bits is the remainder by `2 ^ k`.
pub bit_and_mask : (k a : ℕ) → bit_and a (2 ^ k - 1) ≡ a % 2 ^ k
bit_and_mask zero a = omega (arith, bit_and-zero a)
bit_and_mask (suc k) a = ground (
  arith,
  bit_and_step a (2 ^ suc k - 1),
  bit_and_mask k (a / 2),
  mod-double a (2 ^ k) (two-pow-pos k),
  two-pow-succ k,
  two-pow-pos k,
)

-- A mask of the single bit `k`.
pub bit_and_bit : (k a : ℕ) → bit_and a (2 ^ k) ≡ a / 2 ^ k % 2 * 2 ^ k
bit_and_bit zero a = omega (arith, bit_and_step a 1, bit_and-zero (a / 2))
bit_and_bit (suc k) a =
    let twice : 2 ^ suc k ≡ 2 * 2 ^ k = omega (arith, two-pow-succ k) in
    let half : 2 ^ suc k / 2 ≡ 2 ^ k = omega (arith, twice) in
    let quotient : a / 2 ^ suc k ≡ a / 2 / 2 ^ k =
      ap (λ (t : ℕ). a / t) twice ∙ sym (div-div-eq-div-mul a 2 (2 ^ k)) in
    let digit : a / 2 ^ suc k % 2 * 2 ^ suc k ≡ 2 * (a / 2 / 2 ^ k % 2 * 2 ^ k) =
      rw (quotient, twice) (omega arith) in
    let low : bit_and (a / 2) (2 ^ suc k / 2) ≡ a / 2 / 2 ^ k % 2 * 2 ^ k =
      rw half (bit_and_bit k (a / 2)) in
    omega (arith, bit_and_step a (2 ^ suc k), low, digit, twice)

half_pow : (k : ℕ) → 2 ^ suc k / 2 ≡ 2 ^ k
half_pow k = omega (arith, two-pow-succ k)

div-pow-suc : (a k : ℕ) → a / 2 ^ suc k ≡ a / 2 / 2 ^ k
div-pow-suc a k =
    let twice : 2 ^ suc k ≡ 2 * 2 ^ k = omega (arith, two-pow-succ k) in
    ap (λ (t : ℕ). a / t) twice ∙ sym (div-div-eq-div-mul a 2 (2 ^ k))

-- Setting a bit that is clear adds it.
pub bit_or_bit : (k a : ℕ) → a / 2 ^ k % 2 ≡ 0 → bit_or a (2 ^ k) ≡ a + 2 ^ k
bit_or_bit zero a clear =
    omega (arith, bit_or_step a 1, (and_or-zero (a / 2) (a / 2) (omega arith)).1)
bit_or_bit (suc k) a clear =
    let clear' : a / 2 / 2 ^ k % 2 ≡ 0 = rw (← div-pow-suc a k) clear in
    let high : bit_or (a / 2) (2 ^ suc k / 2) ≡ a / 2 + 2 ^ k =
      rw (half_pow k) (bit_or_bit k (a / 2) clear') in
    omega (arith, bit_or_step a (2 ^ suc k), high, two-pow-succ k)

pub bit-le : (a m : ℕ) → a / m % 2 * m ≤ a
bit-le a m = le_trans (mul-le-mul_right m (mod-le (a / m) 2)) (div-mul-le_self a m)

-- The mask of all bits of a word but one takes that bit away.
pub bit_and_clear :
    (w k a : ℕ) → k < w → a < 2 ^ w → bit_and a (2 ^ w - 1 - 2 ^ k) ≡ a - a / 2 ^ k % 2 * 2 ^ k
bit_and_clear zero k a h fits = absurd (omega arith)
bit_and_clear (suc w) zero a h fits =
    let half : (2 ^ suc w - 1 - 1) / 2 ≡ 2 ^ w - 1 = omega (arith, two-pow-succ w) in
    let high : bit_and (a / 2) ((2 ^ suc w - 1 - 1) / 2) ≡ a / 2 =
      rw half (bit_and_mask w (a / 2) ∙ mod-eq_of_lt (omega (arith, two-pow-succ w))) in
    omega (arith, bit_and_step a (2 ^ suc w - 1 - 1), high, two-pow-succ w, two-pow-pos w)
bit_and_clear (suc w) (suc k) a h fits =
    let below : 2 ^ suc k ≤ 2 ^ w =
      pow-le-pow_right {n = 2} (omega arith) {i = suc k} {j = w} (omega arith) in
    let half : (2 ^ suc w - 1 - 2 ^ suc k) / 2 ≡ 2 ^ w - 1 - 2 ^ k =
      omega (arith, two-pow-succ w, two-pow-succ k, below) in
    let high : bit_and (a / 2) ((2 ^ suc w - 1 - 2 ^ suc k) / 2)
        ≡ a / 2 - a / 2 / 2 ^ k % 2 * 2 ^ k =
      rw half (bit_and_clear w k (a / 2) (omega arith) (omega (arith, two-pow-succ w))) in
    let digit : a / 2 ^ suc k % 2 * 2 ^ suc k ≡ 2 * (a / 2 / 2 ^ k % 2 * 2 ^ k) =
      let twice : 2 ^ suc k ≡ 2 * 2 ^ k = omega (arith, two-pow-succ k) in
      rw (div-pow-suc a k, twice) (omega arith) in
    omega (
      arith,
      bit_and_step a (2 ^ suc w - 1 - 2 ^ suc k),
      high,
      digit,
      two-pow-succ w,
      two-pow-succ k,
      two-pow-pos k,
      below,
      bit-le (a / 2) (2 ^ k),
    )

-- A clear bit of a word can be set within the word.
pub set_bit-lt : (w k a : ℕ) → k < w → a < 2 ^ w → a / 2 ^ k % 2 ≡ 0 → a + 2 ^ k < 2 ^ w
set_bit-lt zero k a h fits clear = absurd (omega arith)
set_bit-lt (suc w) zero a h fits clear = omega (arith, two-pow-succ w)
set_bit-lt (suc w) (suc k) a h fits clear =
    let clear' : a / 2 / 2 ^ k % 2 ≡ 0 = rw (← div-pow-suc a k) clear in
    omega (
      arith,
      set_bit-lt w k (a / 2) (omega arith) (omega (arith, two-pow-succ w)) clear',
      two-pow-succ w,
      two-pow-succ k,
    )
