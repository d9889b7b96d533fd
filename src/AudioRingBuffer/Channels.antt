-- ===== src/AudioRingBuffer/Channels.antt =====
-- The audio of every channel in bytes, and what `StoreABL` does to it.
use cxxaudio_utilities.Base.{
  ℕ, ◌+◌, ◌-◌, ◌≤◌, ◌<◌, ◌≡◌, refl, ap₂, ◌∙◌, arith, Option, some, List, [], ◌∷◌, ◌++◌, length,
  take, min, sub32, u32_mod, leb, true, Copied, memcpy-Copied,
}
use cxxaudio_utilities.BufferList.{AudioBuffer}
use cxxaudio_utilities.RingBuffer.Invariant.{wrap}
use cxxaudio_utilities.RingBuffer.Copies.{segment, Stored}
use cxxaudio_utilities.RingBuffer.Advance.{segment-Stored}
use cxxaudio_utilities.AudioRingBuffer.{store_abl}

-- Every block has `size` bytes.
abbrev pub AllSized : ℕ → List (List ℕ) → Type 0
AllSized size [] = Unit
AllSized size (b ∷ bs) = (length b ≡ size) × AllSized size bs

-- Every buffer of a list has room for `n` bytes by its own size, and memory for that size.
abbrev pub AllHave : ℕ → List AudioBuffer → Type 0
AllHave n [] = Unit
AllHave n (a ∷ as') =
    ((n ≤ a.data_byte_size) × (a.data_byte_size ≤ length a.memory) × (a.data_byte_size < u32_mod))
    × AllHave n as'

-- The `n` bytes from `p` on of every block, going round at `cap`.
abbrev pub segments : ℕ → ℕ → ℕ → List (List ℕ) → List (List ℕ)
segments cap p n [] = []
segments cap p n (b ∷ bs) = segment b cap p n ∷ segments cap p n bs

-- Every row with the first `n` bytes of its buffer behind it.
abbrev pub appended : ℕ → List (List ℕ) → List AudioBuffer → List (List ℕ)
appended n (q ∷ qs) (a ∷ as') = (q ++ take n a.memory) ∷ appended n qs as'
appended n qs [] = qs
appended n [] (a ∷ as') = []

-- The row of a channel after one copy that stays inside the block, and after two that go round its
-- end.
grown_once :
    (cap p w n k : ℕ) {m src : List ℕ} {result : Option (List ℕ)}
    → p < cap
    → n + k ≤ cap
    → w ≡ wrap cap (p + n)
    → w + k ≤ cap
    → k ≤ length src
    → (c : Copied m w src 0 k result)
    → segment c.out cap p (n + k) ≡ segment m cap p n ++ take k src
grown_once cap p w n k {m} {src} inside small start flat fits c =
    let s : Stored m src cap w k (some c.out) = record {
      out = c.out;
      returns = refl;
      same_length = c.same_length;
      at = λ j h. ground (arith, c.at j);
    } in
    segment-Stored m src cap p w n k inside small start fits s

grown_twice :
    (cap p w n k : ℕ) {m src : List ℕ} {one two : Option (List ℕ)}
    → p < cap
    → n + k ≤ cap
    → w ≡ wrap cap (p + n)
    → cap ≤ w + k
    → k ≤ length src
    → (c : Copied m w src 0 (cap - w) one) → (d : Copied c.out 0 src (cap - w) (k - (cap - w)) two)
    → segment d.out cap p (n + k) ≡ segment m cap p n ++ take k src
grown_twice cap p w n k {m} {src} inside small start over fits c d =
    let w_in : w < cap = ground arith in
    let s : Stored m src cap w k (some d.out) = record {
      out = d.out;
      returns = refl;
      same_length = d.same_length ∙ c.same_length;
      at = λ j h. ground (arith, c.at j, d.at j);
    } in
    segment-Stored m src cap p w n k inside small start fits s

-- The blocks after `k` bytes more of every channel.
pub record Grown (cap p n k : ℕ) (blocks : List (List ℕ)) (list : List AudioBuffer)
    (out : List (List ℕ)) : Type 0 where
  pub sized : AllSized cap out
  pub rows : segments cap p (n + k) out ≡ appended k (segments cap p n blocks) list
  pub same_count : length out ≡ length blocks

-- As many bytes are copied as asked for when the buffer has them.
pub whole : (s n size : ℕ) → s + n ≤ size → size < u32_mod → min n (sub32 size s) ≡ n
whole s n size h small = omega arith

module _ (cap p w n k : ℕ) (inside : p < cap) (small : n + k ≤ cap)
    (start : w ≡ wrap cap (p + n)) where
  pub record StoredFlat (blocks : List (List ℕ)) (list : List AudioBuffer)
      (result : Option (List (List ℕ))) : Type 0 where
    pub out : List (List ℕ)
    pub returns : result ≡ some out
    pub grown : Grown cap p n k blocks list out

  pub store_abl-StoredFlat :
      w + k ≤ cap
      → (blocks : List (List ℕ)) (list : List AudioBuffer) → length list ≡ length blocks
      → AllSized cap blocks
      → AllHave k list
      → StoredFlat blocks list (store_abl blocks w list 0 k)
  unfolding store_abl
  store_abl-StoredFlat flat [] [] same sized have = record {
    out = [];
    returns = refl;
    grown = record { sized = tt; rows = refl; same_count = refl };
  }
  store_abl-StoredFlat flat [] (a ∷ as') same sized have = absurd (omega (arith, same))
  store_abl-StoredFlat flat (b ∷ bs) [] same sized have = absurd (omega (arith, same))
  store_abl-StoredFlat flat (b ∷ bs) (a ∷ as') same sized have =
      let c = memcpy-Copied b w a.memory 0 k (omega (arith, sized.0)) (omega (arith, have.0)) in
      let rest = store_abl-StoredFlat flat bs as' (omega (arith, same)) sized.1 have.1 in
      let all = whole 0 k a.data_byte_size (omega (arith, have.0)) have.0.2 in
      let ok : leb 0 a.data_byte_size ≡ true = ground arith in
      record {
        out = c.out ∷ rest.out;
        returns = rw (ok, all, c.returns, rest.returns) refl;
        grown = record {
          sized = (c.same_length ∙ sized.0, rest.grown.sized);
          rows =
              ap₂ ◌∷◌ (grown_once cap p w n k inside small start flat (omega (arith, have.0)) c)
                rest.grown.rows;
          same_count = omega (arith, rest.grown.same_count);
        };
      }

  pub record StoredRound (blocks : List (List ℕ)) (list : List AudioBuffer)
      (result : Option (List (List ℕ))) : Type 0 where
    pub one : List (List ℕ)
    pub first : result ≡ some one
    pub out : List (List ℕ)
    pub second : store_abl one 0 list (cap - w) (k - (cap - w)) ≡ some out
    pub grown : Grown cap p n k blocks list out

  pub store_abl-StoredRound :
      cap ≤ w + k
      → (blocks : List (List ℕ)) (list : List AudioBuffer) → length list ≡ length blocks
      → AllSized cap blocks
      → AllHave k list
      → StoredRound blocks list (store_abl blocks w list 0 (cap - w))
  unfolding store_abl
  store_abl-StoredRound over [] [] same sized have = record {
    one = [];
    first = refl;
    out = [];
    second = refl;
    grown = record { sized = tt; rows = refl; same_count = refl };
  }
  store_abl-StoredRound over [] (a ∷ as') same sized have = absurd (omega (arith, same))
  store_abl-StoredRound over (b ∷ bs) [] same sized have = absurd (omega (arith, same))
  store_abl-StoredRound over (b ∷ bs) (a ∷ as') same sized have =
      let z = cap - w in
      let w_in : w < cap = ground arith in
      let c = memcpy-Copied b w a.memory 0 z (omega (arith, sized.0)) (omega (arith, have.0)) in
      let d =
        memcpy-Copied c.out 0 a.memory z (k - z) (omega (arith, sized.0, c.same_length))
          (omega (arith, have.0)) in
      let rest = store_abl-StoredRound over bs as' (omega (arith, same)) sized.1 have.1 in
      let all = whole 0 z a.data_byte_size (omega (arith, have.0)) have.0.2 in
      let all' = whole z (k - z) a.data_byte_size (omega (arith, have.0)) have.0.2 in
      let ok : leb 0 a.data_byte_size ≡ true = ground arith in
      let ok' : leb z a.data_byte_size ≡ true = ground arith in
      record {
        one = c.out ∷ rest.one;
        first = rw (ok, all, c.returns, rest.first) refl;
        out = d.out ∷ rest.out;
        second = rw (ok', all', d.returns, rest.second) refl;
        grown = record {
          sized = (d.same_length ∙ c.same_length ∙ sized.0, rest.grown.sized);
          rows =
              ap₂ ◌∷◌ (grown_twice cap p w n k inside small start over (omega (arith, have.0)) c d)
                rest.grown.rows;
          same_count = omega (arith, rest.grown.same_count);
        };
      }
