-- ===== src/CaRingBuffer/Silence.antt =====
-- `ZeroRange` puts silence behind the audio of every channel.
use cxxaudio_utilities.Base.{
  ℕ, ◌+◌, ◌-◌, ◌≤◌, ◌<◌, ◌≡◌, refl, ap, ap₂, ◌∙◌, arith, Option, some, List, [], ◌∷◌, ◌++◌, length,
  replicate, length-replicate, get_or-replicate, take_all, Cleared, memset_zero-Cleared,
}
use cxxaudio_utilities.RingBuffer.Invariant.{wrap}
use cxxaudio_utilities.RingBuffer.Copies.{segment, distance, Stored}
use cxxaudio_utilities.RingBuffer.Advance.{segment-Stored}
use cxxaudio_utilities.AudioRingBuffer.Channels.{AllSized, segments}
use cxxaudio_utilities.CaRingBuffer.{zero_range}

-- Every row with `n` zero bytes behind it.
abbrev pub quieted : ℕ → List (List ℕ) → List (List ℕ)
quieted n [] = []
quieted n (q ∷ qs) = (q ++ replicate n 0) ∷ quieted n qs

-- The blocks after `k` bytes more of silence in every channel.
pub record Quieted (cap p n k : ℕ) (blocks out : List (List ℕ)) : Type 0 where
  pub sized : AllSized cap out
  pub rows : segments cap p (n + k) out ≡ quieted k (segments cap p n blocks)
  pub same_count : length out ≡ length blocks

-- The row of a channel whose block has the zeros, and after one clearing inside the block and two
-- that go round its end.
quiet_row :
    (cap p w n k : ℕ) {m : List ℕ} {result : Option (List ℕ)}
    → p < cap
    → n + k ≤ cap
    → w ≡ wrap cap (p + n)
    → (s : Stored m (replicate k 0) cap w k result)
    → segment s.out cap p (n + k) ≡ segment m cap p n ++ replicate k 0
quiet_row cap p w n k {m} inside small start s =
    let width : length {A = ℕ} (replicate k 0) ≡ k = length-replicate k 0 in
    segment-Stored m (replicate k 0) cap p w n k inside small start (omega (arith, width)) s
    ∙ ap (λ z. segment m cap p n ++ z) (take_all k (replicate k 0) (omega (arith, width)))

quiet_once :
    (cap p w n k : ℕ) {m : List ℕ} {result : Option (List ℕ)}
    → p < cap
    → n + k ≤ cap
    → w ≡ wrap cap (p + n)
    → w + k ≤ cap
    → (c : Cleared m w k result) → segment c.out cap p (n + k) ≡ segment m cap p n ++ replicate k 0
quiet_once cap p w n k {m} inside small start flat c =
    let s : Stored m (replicate k 0) cap w k (some c.out) = record {
      out = c.out;
      returns = refl;
      same_length = c.same_length;
      at = λ j h. ground (arith, c.at j, get_or-replicate {A = ℕ} k 0 (distance cap w j) 0);
    } in
    quiet_row cap p w n k inside small start s

quiet_twice :
    (cap p w n k : ℕ) {m : List ℕ} {one two : Option (List ℕ)}
    → p < cap
    → n + k ≤ cap
    → w ≡ wrap cap (p + n)
    → cap ≤ w + k
    → (c : Cleared m w (cap - w) one) → (d : Cleared c.out 0 (k - (cap - w)) two)
    → segment d.out cap p (n + k) ≡ segment m cap p n ++ replicate k 0
quiet_twice cap p w n k {m} inside small start over c d =
    let w_in : w < cap = ground arith in
    let s : Stored m (replicate k 0) cap w k (some d.out) = record {
      out = d.out;
      returns = refl;
      same_length = d.same_length ∙ c.same_length;
      at = λ j h. ground (arith, c.at j, d.at j, get_or-replicate {A = ℕ} k 0 (distance cap w j) 0);
    } in
    quiet_row cap p w n k inside small start s

module _ (cap p w n k : ℕ) (inside : p < cap) (small : n + k ≤ cap)
    (start : w ≡ wrap cap (p + n)) where
  pub record QuietFlat (blocks : List (List ℕ)) (result : Option (List (List ℕ))) : Type 0 where
    pub out : List (List ℕ)
    pub returns : result ≡ some out
    pub quieted_by : Quieted cap p n k blocks out

  pub zero_range-QuietFlat :
      w + k ≤ cap
      → (blocks : List (List ℕ)) → AllSized cap blocks
      → QuietFlat blocks (zero_range blocks (length blocks) w k)
  unfolding zero_range
  zero_range-QuietFlat flat [] sized = record {
    out = [];
    returns = refl;
    quieted_by = record { sized = tt; rows = refl; same_count = refl };
  }
  zero_range-QuietFlat flat (b ∷ bs) sized =
      let c = memset_zero-Cleared b w k (omega (arith, sized.0)) in
      let rest = zero_range-QuietFlat flat bs sized.1 in
      record {
        out = c.out ∷ rest.out;
        returns = rw (c.returns, rest.returns) refl;
        quieted_by = record {
          sized = (c.same_length ∙ sized.0, rest.quieted_by.sized);
          rows = ap₂ ◌∷◌ (quiet_once cap p w n k inside small start flat c) rest.quieted_by.rows;
          same_count = omega (arith, rest.quieted_by.same_count);
        };
      }

  pub record QuietRound (blocks : List (List ℕ)) (result : Option (List (List ℕ))) : Type 0 where
    pub one : List (List ℕ)
    pub first : result ≡ some one
    pub out : List (List ℕ)
    pub second : zero_range one (length blocks) 0 (k - (cap - w)) ≡ some out
    pub quieted_by : Quieted cap p n k blocks out

  pub zero_range-QuietRound :
      cap ≤ w + k
      → (blocks : List (List ℕ)) → AllSized cap blocks
      → QuietRound blocks (zero_range blocks (length blocks) w (cap - w))
  unfolding zero_range
  zero_range-QuietRound over [] sized = record {
    one = [];
    first = refl;
    out = [];
    second = refl;
    quieted_by = record { sized = tt; rows = refl; same_count = refl };
  }
  zero_range-QuietRound over (b ∷ bs) sized =
      let w_in : w < cap = ground arith in
      let c = memset_zero-Cleared b w (cap - w) (omega (arith, sized.0)) in
      let d = memset_zero-Cleared c.out 0 (k - (cap - w)) (omega (arith, sized.0, c.same_length)) in
      let rest = zero_range-QuietRound over bs sized.1 in
      record {
        one = c.out ∷ rest.one;
        first = rw (c.returns, rest.first) refl;
        out = d.out ∷ rest.out;
        second = rw (d.returns, rest.second) refl;
        quieted_by = record {
          sized = (d.same_length ∙ c.same_length ∙ sized.0, rest.quieted_by.sized);
          rows = ap₂ ◌∷◌ (quiet_twice cap p w n k inside small start over c d) rest.quieted_by.rows;
          same_count = omega (arith, rest.quieted_by.same_count);
        };
      }
