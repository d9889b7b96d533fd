-- ===== src/CaRingBuffer/Passes.antt =====
-- The passes of `Read` over the buffers of a list, byte by byte: each clears or fills a part of
-- every buffer.
use cxxaudio_utilities.Base.{
  ℕ, ◌+◌, ◌-◌, ◌≤◌, ◌≡◌, refl, ap, ◌∙◌, arith, true, Option, some, List, [], ◌∷◌, length, ltb, leb,
  if◌then◌else◌, byte_at, memcpy-Copied, memset_zero-Cleared,
}
use cxxaudio_utilities.BufferList.{AudioBuffer}
use cxxaudio_utilities.AudioRingBuffer.{fetch_abl}
use cxxaudio_utilities.AudioRingBuffer.Channels.{AllSized, AllHave, whole}
use cxxaudio_utilities.CaRingBuffer.{zero_abl}

-- Byte `i` of a buffer after some passes, from the block of its channel and its memory before them.
abbrev pub Bytes : Type 0
Bytes = List ℕ → List ℕ → ℕ → ℕ

abbrev pub untouched : Bytes
untouched b m i = byte_at m i

-- Each pass after others.
abbrev pub cleared : ℕ → ℕ → Bytes → Bytes
cleared o n f b m i = if ltb i o then f b m i else (if ltb i (o + n) then 0 else f b m i)

abbrev pub fetched : ℕ → ℕ → ℕ → Bytes → Bytes
fetched d s n f b m i =
    if ltb i d then f b m i else (if ltb i (d + n) then byte_at b (s + (i - d)) else f b m i)

-- A list after passes: the memory has new bytes, and all else is the same.
abbrev pub Became : Bytes → List (List ℕ) → List AudioBuffer → List AudioBuffer → Type 0
Became f (b ∷ bs) (a ∷ as') (o ∷ os) =
    ((o ≡ record a { memory = o.memory })
      × (length o.memory ≡ length a.memory)
      × ((i : ℕ) → byte_at o.memory i ≡ f b a.memory i))
    × Became f bs as' os
Became f [] [] [] = Unit
Became f blocks list out = ⊥

pub Became-untouched :
    (blocks : List (List ℕ)) (list : List AudioBuffer)
    → length list ≡ length blocks
    → Became untouched blocks list list
Became-untouched [] [] same = tt
Became-untouched [] (a ∷ as') same = absurd (omega (arith, same))
Became-untouched (b ∷ bs) [] same = absurd (omega (arith, same))
Became-untouched (b ∷ bs) (a ∷ as') same =
    ((refl, refl, λ i. refl), Became-untouched bs as' (omega (arith, same)))

-- Passes with the same effect.
pub Became-same :
    {f g : Bytes} (blocks : List (List ℕ)) (list out : List AudioBuffer)
    → ((b m : List ℕ) (i : ℕ) → f b m i ≡ g b m i)
    → Became f blocks list out
    → Became g blocks list out
Became-same [] [] [] e h = tt
Became-same (b ∷ bs) (a ∷ as') (o ∷ os) e h =
    ((h.0.0, h.0.1, λ i. h.0.2 i ∙ e b a.memory i), Became-same bs as' os e h.1)
Became-same [] [] (o ∷ os) e h = absurd h
Became-same [] (a ∷ as') out e h = absurd h
Became-same (b ∷ bs) [] out e h = absurd h
Became-same (b ∷ bs) (a ∷ as') [] e h = absurd h

-- One pass more.
pub record Pass (f : Bytes) (blocks : List (List ℕ)) (list : List AudioBuffer)
    (result : Option (List AudioBuffer)) : Type 0 where
  pub out : List AudioBuffer
  pub returns : result ≡ some out
  pub became : Became f blocks list out

pub zero_abl-Pass :
    (f : Bytes) (o n size : ℕ) (blocks : List (List ℕ)) (list now : List AudioBuffer)
    → o + n ≤ size
    → AllHave size list
    → Became f blocks list now
    → Pass (cleared o n f) blocks list (zero_abl now o n)
unfolding zero_abl
zero_abl-Pass f o n size [] [] [] fits have h = record { out = []; returns = refl; became = tt }
zero_abl-Pass f o n size [] [] (x ∷ xs) fits have h = absurd h
zero_abl-Pass f o n size [] (a ∷ as') now fits have h = absurd h
zero_abl-Pass f o n size (b ∷ bs) [] now fits have h = absurd h
zero_abl-Pass f o n size (b ∷ bs) (a ∷ as') [] fits have h = absurd h
zero_abl-Pass f o n size (b ∷ bs) (a ∷ as') (x ∷ xs) fits have h =
    let same_size : x.data_byte_size ≡ a.data_byte_size =
      ap (λ (y : AudioBuffer). y.data_byte_size) h.0.0 in
    let c = memset_zero-Cleared x.memory o n (omega (arith, have.0, h.0.1)) in
    let rest = zero_abl-Pass f o n size bs as' xs fits have.1 h.1 in
    let all =
      whole o n x.data_byte_size (omega (arith, have.0, same_size))
        (omega (arith, have.0, same_size)) in
    let ok : leb o x.data_byte_size ≡ true = ground (arith, have.0, same_size) in
    record {
      out = record x { memory = c.out } ∷ rest.out;
      returns = rw (ok, all, c.returns, rest.returns) refl;
      became = (
        (
          ap (λ (y : AudioBuffer). record y { memory = c.out }) h.0.0,
          c.same_length ∙ h.0.1,
          λ i. ground (arith, c.at i, h.0.2 i),
        ),
        rest.became,
      );
    }

pub fetch_abl-Pass :
    (f : Bytes) (d s n size cap : ℕ) (blocks : List (List ℕ)) (list now : List AudioBuffer)
    → d + n ≤ size
    → s + n ≤ cap
    → AllHave size list
    → AllSized cap blocks
    → Became f blocks list now
    → Pass (fetched d s n f) blocks list (fetch_abl now d blocks s n)
unfolding fetch_abl
fetch_abl-Pass f d s n size cap [] [] [] fits inside have sized h = record {
  out = [];
  returns = refl;
  became = tt;
}
fetch_abl-Pass f d s n size cap [] [] (x ∷ xs) fits inside have sized h = absurd h
fetch_abl-Pass f d s n size cap [] (a ∷ as') now fits inside have sized h = absurd h
fetch_abl-Pass f d s n size cap (b ∷ bs) [] now fits inside have sized h = absurd h
fetch_abl-Pass f d s n size cap (b ∷ bs) (a ∷ as') [] fits inside have sized h = absurd h
fetch_abl-Pass f d s n size cap (b ∷ bs) (a ∷ as') (x ∷ xs) fits inside have sized h =
    let same_size : x.data_byte_size ≡ a.data_byte_size =
      ap (λ (y : AudioBuffer). y.data_byte_size) h.0.0 in
    let c =
      memcpy-Copied x.memory d b s n (omega (arith, have.0, h.0.1)) (omega (arith, sized.0)) in
    let rest = fetch_abl-Pass f d s n size cap bs as' xs fits inside have.1 sized.1 h.1 in
    let all =
      whole d n x.data_byte_size (omega (arith, have.0, same_size))
        (omega (arith, have.0, same_size)) in
    let ok : leb d x.data_byte_size ≡ true = ground (arith, have.0, same_size) in
    record {
      out = record x { memory = c.out } ∷ rest.out;
      returns = rw (ok, all, c.returns, rest.returns) refl;
      became = (
        (
          ap (λ (y : AudioBuffer). record y { memory = c.out }) h.0.0,
          c.same_length ∙ h.0.1,
          λ i. ground (arith, c.at i, h.0.2 i),
        ),
        rest.became,
      );
    }
