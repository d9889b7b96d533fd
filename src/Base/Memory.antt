-- ===== src/Base/Memory.antt =====
-- Memory blocks as lists of bytes, and the copies of the C library on them.
use Prim.Native.Nat.{ℕ, ◌+◌, ◌-◌, ◌≤◌}
use mathlib.Core.Path.{◌≡◌, ap, ◌∙◌}
use mathlib.Core.Bool.{Bool, true, false, ◌&&◌}
use mathlib.Core.Option.{Option, none, some}
use mathlib.Core.List.{List, ◌++◌}
use native.Mathlib.Omega.{arith}
use cxxaudio_utilities.Base.Tests.{ltb, leb, if◌then◌else◌}
use cxxaudio_utilities.Base.Lists.{
  length, get_or, take, drop, replicate, length-append, length-take, length-drop, length-replicate,
  get_or-append, get_or_ext, get_or-take, get_or-drop, get_or-replicate,
}

-- A chain of accesses: `none` is an access out of bounds or through a null pointer.
infixl 5 ◌>>=◌
abbrev pub ◌>>=◌ {ℓ κ} : {A : Type ℓ} {B : Type κ} → Option A → (A → Option B) → Option B
none >>= f = none
some a >>= f = f a

-- A fault unless `b` holds.
abbrev pub check : Bool → Option (Unit {0})
check true = some tt
check false = none

infixl 5 ◌>>◌
abbrev pub ◌>>◌ {ℓ} : {B : Type ℓ} → Option (Unit {0}) → Option B → Option B
m >> k = m >>= λ _. k

abbrev pub byte_at : List ℕ → ℕ → ℕ
byte_at m i = get_or m i 0

-- `dst` with the bytes of `new` from `d` on.
pub overwrite : List ℕ → ℕ → List ℕ → List ℕ
overwrite dst d new = take d dst ++ (new ++ drop (d + length new) dst)

-- The `n` bytes from `s` on.
pub slice : List ℕ → ℕ → ℕ → List ℕ
slice src s n = take n (drop s src)

-- memcpy(dst + d, src + s, n).
unfoldable pub memcpy : List ℕ → ℕ → List ℕ → ℕ → ℕ → Option (List ℕ)
unfolding overwrite slice
memcpy dst d src s n =
    if leb (d + n) (length dst) && leb (s + n) (length src)
    then some (overwrite dst d (slice src s n))
    else none

-- memset(dst + d, 0, n).
unfoldable pub memset_zero : List ℕ → ℕ → ℕ → Option (List ℕ)
unfolding overwrite
memset_zero dst d n =
    if leb (d + n) (length dst) then some (overwrite dst d (replicate n 0)) else none

pub length-slice : (src : List ℕ) (s n : ℕ) → s + n ≤ length src → length (slice src s n) ≡ n
unfolding slice
length-slice src s n h = omega (arith, length-take n (drop s src), length-drop s src)

pub byte_at-slice :
    (src : List ℕ) (s n i : ℕ)
    → byte_at (slice src s n) i ≡ (if ltb i n then byte_at src (s + i) else 0)
unfolding slice
byte_at-slice src s n i = ground (arith, get_or-take n (drop s src) i 0, get_or-drop s src i 0)

pub length-overwrite :
    (dst : List ℕ) (d : ℕ) (new : List ℕ)
    → d + length new ≤ length dst
    → length (overwrite dst d new) ≡ length dst
unfolding overwrite
length-overwrite dst d new h = omega (
  arith,
  length-append (take d dst) (new ++ drop (d + length new) dst),
  length-append new (drop (d + length new) dst),
  length-take d dst,
  length-drop (d + length new) dst,
)

pub byte_at-overwrite :
    (dst : List ℕ) (d : ℕ) (new : List ℕ) (i : ℕ)
    → d + length new ≤ length dst
    → byte_at (overwrite dst d new) i ≡ (
        if ltb i d
        then byte_at dst i
        else (if ltb i (d + length new) then byte_at new (i - d) else byte_at dst i))
unfolding overwrite
byte_at-overwrite dst d new i h = ground (
  arith,
  get_or-append (take d dst) (new ++ drop (d + length new) dst) i 0,
  get_or-append new (drop (d + length new) dst) (i - length (take d dst)) 0,
  length-take d dst,
  get_or-take d dst i 0,
  get_or-drop (d + length new) dst (i - length (take d dst) - length new) 0,
)

-- A copy that did not fault, index by index.
pub record Copied (dst : List ℕ) (d : ℕ) (src : List ℕ) (s n : ℕ) (result : Option (List ℕ))
    : Type 0 where
  pub out : List ℕ
  pub returns : result ≡ some out
  pub same_length : length out ≡ length dst
  pub at :
      (i : ℕ)
      → byte_at out i ≡ (
          if ltb i d
          then byte_at dst i
          else (if ltb i (d + n) then byte_at src (s + (i - d)) else byte_at dst i))

-- A copy inside both blocks does not fault.
pub memcpy-Copied :
    (dst : List ℕ) (d : ℕ) (src : List ℕ) (s n : ℕ)
    → d + n ≤ length dst
    → s + n ≤ length src
    → Copied dst d src s n (memcpy dst d src s n)
memcpy-Copied dst d src s n hd hs =
    let width : length (slice src s n) ≡ n = length-slice src s n hs in
    record {
      out = overwrite dst d (slice src s n);
      returns = unfold memcpy in ground arith;
      same_length = length-overwrite dst d (slice src s n) (omega (arith, width));
      at = λ i.
          ground (
            arith,
            width,
            byte_at-overwrite dst d (slice src s n) i,
            byte_at-slice src s n (i - d),
          );
    }

-- A clearing inside its block does not fault, index by index.
pub record Cleared (dst : List ℕ) (d n : ℕ) (result : Option (List ℕ)) : Type 0 where
  pub out : List ℕ
  pub returns : result ≡ some out
  pub same_length : length out ≡ length dst
  pub at :
      (i : ℕ)
      → byte_at out i
        ≡ (if ltb i d then byte_at dst i else (if ltb i (d + n) then 0 else byte_at dst i))

pub memset_zero-Cleared :
    (dst : List ℕ) (d n : ℕ) → d + n ≤ length dst → Cleared dst d n (memset_zero dst d n)
memset_zero-Cleared dst d n h =
    let width : length {A = ℕ} (replicate n 0) ≡ n = length-replicate n 0 in
    record {
      out = overwrite dst d (replicate n 0);
      returns = unfold memset_zero in ground arith;
      same_length = length-overwrite dst d (replicate n 0) (omega (arith, width));
      at = λ i. ground (
        arith,
        width,
        byte_at-overwrite dst d (replicate n 0) i,
        get_or-replicate {A = ℕ} n 0 (i - d) 0,
      );
    }

-- A copy to the start of a block.
pub memcpy_front :
    (dst src : List ℕ) (s n : ℕ)
    → n ≤ length dst
    → s + n ≤ length src
    → memcpy dst 0 src s n ≡ some (take n (drop s src) ++ drop n dst)
memcpy_front dst src s n hd hs =
    let c = memcpy-Copied dst 0 src s n (omega arith) hs in
    let width : length (take n (drop s src)) ≡ n =
      omega (arith, length-take n (drop s src), length-drop s src) in
    c.returns
    ∙ ap some (
        get_or_ext 0 c.out (take n (drop s src) ++ drop n dst)
          (omega (
            arith,
            c.same_length,
            width,
            length-append (take n (drop s src)) (drop n dst),
            length-drop n dst,
          ))
          λ i h. ground (
            arith,
            width,
            c.at i,
            get_or-append (take n (drop s src)) (drop n dst) i 0,
            get_or-take n (drop s src) i 0,
            get_or-drop s src i 0,
            get_or-drop n dst (i - n) 0,
          ))
