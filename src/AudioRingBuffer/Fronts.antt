-- ===== src/AudioRingBuffer/Fronts.antt =====
-- What `FetchABL` copies of the audio of every channel, in bytes.
use cxxaudio_utilities.Base.{
  ℕ, ◌+◌, ◌-◌, ◌≤◌, ◌<◌, ◌≡◌, refl, sym, ap, ap₂, ◌∙◌, arith, Option, some, List, [], ◌∷◌, ◌++◌,
  length, drop, leb, true, Copied, memcpy-Copied,
}
use cxxaudio_utilities.BufferList.{AudioBuffer}
use cxxaudio_utilities.RingBuffer.Invariant.{wrap}
use cxxaudio_utilities.RingBuffer.Copies.{segment, segment_ext, segment_of_two}
use cxxaudio_utilities.RingBuffer.Advance.{take-segment, drop-segment}
use cxxaudio_utilities.ByteQueue.{deliver}
use cxxaudio_utilities.AudioRingBuffer.{fetch_abl}
use cxxaudio_utilities.AudioRingBuffer.Channels.{AllSized, AllHave, segments, whole}

-- Every buffer with the first `n` bytes of its row at its start.
abbrev pub delivered : ℕ → List (List ℕ) → List AudioBuffer → List AudioBuffer
delivered n (q ∷ qs) (a ∷ as') = record a { memory = deliver q a.memory n } ∷ delivered n qs as'
delivered n qs [] = []
delivered n [] (a ∷ as') = a ∷ as'

-- Every row without its first `n` bytes.
abbrev pub dropped : ℕ → List (List ℕ) → List (List ℕ)
dropped n [] = []
dropped n (q ∷ qs) = drop n q ∷ dropped n qs

-- One copy, and two that go round the end of the block, deliver the front of a row.
front_once :
    (cap p n k : ℕ) {dst m : List ℕ} {result : Option (List ℕ)}
    → k ≤ n
    → p + k ≤ cap
    → k ≤ length dst
    → (c : Copied dst 0 m p k result) → c.out ≡ deliver (segment m cap p n) dst k
front_once cap p n k {dst} {m} le flat fits c =
    segment_ext c.out m dst cap p k fits c.same_length (λ i h. ground (arith, c.at i))
    ∙ ap (λ q. q ++ drop k dst) (sym (take-segment m cap p n k le))

front_twice :
    (cap p n k : ℕ) {dst m : List ℕ} {one two : Option (List ℕ)}
    → k ≤ n
    → k ≤ cap
    → p < cap
    → cap ≤ p + k
    → k ≤ length dst
    → (c : Copied dst 0 m p (cap - p) one) → (d : Copied c.out (cap - p) m 0 (k - (cap - p)) two)
    → d.out ≡ deliver (segment m cap p n) dst k
front_twice cap p n k {dst} {m} le small inside over fits c d =
    segment_of_two dst m cap p k small inside over fits c d
    ∙ ap (λ q. q ++ drop k dst) (sym (take-segment m cap p n k le))

module _ (cap p n k : ℕ) (inside : p < cap) (le : k ≤ n) (small : n ≤ cap) where
  pub fetch_abl-delivered :
      p + k ≤ cap
      → (blocks : List (List ℕ)) (list : List AudioBuffer) → length list ≡ length blocks
      → AllSized cap blocks
      → AllHave k list
      → fetch_abl list 0 blocks p k ≡ some (delivered k (segments cap p n blocks) list)
  unfolding fetch_abl
  fetch_abl-delivered flat [] [] same sized have = refl
  fetch_abl-delivered flat (b ∷ bs) [] same sized have = absurd (omega (arith, same))
  fetch_abl-delivered flat [] (a ∷ as') same sized have = absurd (omega (arith, same))
  fetch_abl-delivered flat (b ∷ bs) (a ∷ as') same sized have =
      let c = memcpy-Copied a.memory 0 b p k (omega (arith, have.0)) (omega (arith, sized.0)) in
      let rest = fetch_abl-delivered flat bs as' (omega (arith, same)) sized.1 have.1 in
      let all = whole 0 k a.data_byte_size (omega (arith, have.0)) have.0.2 in
      let ok : leb 0 a.data_byte_size ≡ true = ground arith in
      let front = front_once cap p n k le flat (omega (arith, have.0)) c in
      rw (ok, all, c.returns, rest, front) refl

  pub record FetchedRound (blocks : List (List ℕ)) (list : List AudioBuffer)
      (result : Option (List AudioBuffer)) : Type 0 where
    pub one : List AudioBuffer
    pub first : result ≡ some one
    pub second :
        fetch_abl one (cap - p) blocks 0 (k - (cap - p))
        ≡ some (delivered k (segments cap p n blocks) list)

  pub fetch_abl-FetchedRound :
      cap ≤ p + k
      → (blocks : List (List ℕ)) (list : List AudioBuffer) → length list ≡ length blocks
      → AllSized cap blocks
      → AllHave k list
      → FetchedRound blocks list (fetch_abl list 0 blocks p (cap - p))
  unfolding fetch_abl
  fetch_abl-FetchedRound over [] [] same sized have = record {
    one = [];
    first = refl;
    second = refl;
  }
  fetch_abl-FetchedRound over (b ∷ bs) [] same sized have = absurd (omega (arith, same))
  fetch_abl-FetchedRound over [] (a ∷ as') same sized have = absurd (omega (arith, same))
  fetch_abl-FetchedRound over (b ∷ bs) (a ∷ as') same sized have =
      let z = cap - p in
      let c = memcpy-Copied a.memory 0 b p z (omega (arith, have.0)) (omega (arith, sized.0)) in
      let d =
        memcpy-Copied c.out z b 0 (k - z) (omega (arith, have.0, c.same_length))
          (omega (arith, sized.0)) in
      let rest = fetch_abl-FetchedRound over bs as' (omega (arith, same)) sized.1 have.1 in
      let all = whole 0 z a.data_byte_size (omega (arith, have.0)) have.0.2 in
      let all' = whole z (k - z) a.data_byte_size (omega (arith, have.0)) have.0.2 in
      let ok : leb 0 a.data_byte_size ≡ true = ground arith in
      let ok' : leb z a.data_byte_size ≡ true = ground arith in
      let front = front_twice cap p n k le (omega arith) inside over (omega (arith, have.0)) c d in
      record {
        one = record a { memory = c.out } ∷ rest.one;
        first = rw (ok, all, c.returns, rest.first) refl;
        second = rw (ok', all', d.returns, rest.second, front) refl;
      }

-- Leaving out the front of every channel moves its start.
pub dropped-segments :
    (cap p n k : ℕ) (blocks : List (List ℕ))
    → p < cap
    → k ≤ n
    → n ≤ cap
    → dropped k (segments cap p n blocks) ≡ segments cap (wrap cap (p + k)) (n - k) blocks
dropped-segments cap p n k [] inside le small = refl
dropped-segments cap p n k (b ∷ bs) inside le small =
    ap₂ ◌∷◌ (drop-segment b cap p n k inside le small)
      (dropped-segments cap p n k bs inside le small)
