-- ===== src/CaRingBuffer/Heard.antt =====
-- The buffers that `Read` leaves, as lists of bytes, and that its passes make them.
use cxxaudio_utilities.Base.{
  ℕ, ◌+◌, ◌-◌, ◌≤◌, ◌<◌, ◌≡◌, refl, sym, ap, ap₂, ◌∙◌, arith, inl, inr, Bool-cases, true, ◌&&◌,
  ◌||◌, List, [], ◌∷◌, ◌++◌, length, take, drop, replicate, ltb, leb, if◌then◌else◌, byte_at,
  get_or_ext, get_or-append, get_or-replicate, get_or-take, get_or-drop, length-append,
  length-replicate, length-take, length-drop,
}
use cxxaudio_utilities.BufferList.{AudioBuffer}
use cxxaudio_utilities.RingBuffer.Invariant.{wrap}
use cxxaudio_utilities.RingBuffer.Copies.{segment, byte_at-segment, length-segment}
use cxxaudio_utilities.AudioRingBuffer.Channels.{AllHave, segments}
use cxxaudio_utilities.CaRingBuffer.Passes.{Became}
use cxxaudio_utilities.CaRingBuffer.Fetching.{around, played}

-- Silence, a part of a row, silence, and the rest of the memory.
abbrev pub sounded : ℕ → ℕ → ℕ → ℕ → List ℕ → List ℕ → List ℕ
sounded lead from mid tail q m =
    replicate lead 0 ++ (take mid (drop from q) ++ (replicate tail 0 ++ drop (lead + mid + tail) m))

abbrev pub heard : ℕ → ℕ → ℕ → ℕ → List (List ℕ) → List AudioBuffer → List AudioBuffer
heard lead from mid tail (q ∷ qs) (a ∷ as') =
    record a { memory = sounded lead from mid tail q a.memory } ∷ heard lead from mid tail qs as'
heard lead from mid tail qs [] = []
heard lead from mid tail [] (a ∷ as') = a ∷ as'

pub byte_at-end :
    (tail t : ℕ) (m : List ℕ) (i : ℕ)
    → byte_at (replicate tail 0 ++ drop t m) i
      ≡ (if ltb i tail then 0 else byte_at m (t + (i - tail)))
byte_at-end tail t m i = ground (
  arith,
  get_or-append (replicate tail 0) (drop t m) i 0,
  length-replicate {A = ℕ} tail 0,
  get_or-replicate {A = ℕ} tail 0 i 0,
  get_or-drop t m (i - tail) 0,
)

byte_at-middle :
    (from mid : ℕ) (q rest : List ℕ) (i : ℕ)
    → from + mid ≤ length q
    → byte_at (take mid (drop from q) ++ rest) i
      ≡ (if ltb i mid then byte_at q (from + i) else byte_at rest (i - mid))
byte_at-middle from mid q rest i fits = ground (
  arith,
  get_or-append (take mid (drop from q)) rest i 0,
  length-take mid (drop from q),
  length-drop from q,
  get_or-take mid (drop from q) i 0,
  get_or-drop from q i 0,
)

byte_at-sounded :
    (lead from mid tail : ℕ) (q m : List ℕ) (i : ℕ)
    → from + mid ≤ length q
    → byte_at (sounded lead from mid tail q m) i ≡ (
        if leb lead i && ltb i (lead + mid)
        then byte_at q (from + (i - lead))
        else (if ltb i lead || (leb (lead + mid) i && ltb i (lead + mid + tail))
            then 0
            else byte_at m i))
byte_at-sounded lead from mid tail q m i fits =
    let end' = replicate tail 0 ++ drop (lead + mid + tail) m in
    let behind : lead + mid + tail ≤ i → lead + mid + tail + (i - lead - mid - tail) ≡ i =
      λ h. omega arith in
    ground (
      arith,
      get_or-append (replicate lead 0) (take mid (drop from q) ++ end') i 0,
      length-replicate {A = ℕ} lead 0,
      get_or-replicate {A = ℕ} lead 0 i 0,
      byte_at-middle from mid q end' (i - lead) fits,
      byte_at-end tail (lead + mid + tail) m (i - lead - mid),
      behind,
    )

length-sounded :
    (lead from mid tail : ℕ) (q m : List ℕ)
    → from + mid ≤ length q
    → lead + mid + tail ≤ length m
    → length (sounded lead from mid tail q m) ≡ length m
length-sounded lead from mid tail q m fits fits' =
    let end' = replicate tail 0 ++ drop (lead + mid + tail) m in
    omega (
      arith,
      length-append (replicate lead 0) (take mid (drop from q) ++ end'),
      length-append (take mid (drop from q)) end',
      length-append (replicate tail 0) (drop (lead + mid + tail) m),
      length-replicate {A = ℕ} lead 0,
      length-replicate {A = ℕ} tail 0,
      length-take mid (drop from q),
      length-drop from q,
      length-drop (lead + mid + tail) m,
    )

module _ (cap p0 p n lead from mid tail : ℕ) (inside : p0 < cap) (small : n ≤ cap)
    (part : from + mid ≤ n) (start : p ≡ wrap cap (p0 + from)) where
  -- Byte by byte, with the row in place of the block.
  sounded_byte :
      (b m : List ℕ) (i : ℕ)
      → played cap p lead mid tail b m i ≡ (
          if leb lead i && ltb i (lead + mid)
          then byte_at (segment b cap p0 n) (from + (i - lead))
          else around lead mid tail b m i)
  sounded_byte b m i = elim (Bool-cases (leb lead i && ltb i (lead + mid))) [
    | inl within ↦
        let low : ltb (from + (i - lead)) n ≡ true = ground arith in
        let same_index : wrap cap (p + (i - lead)) ≡ wrap cap (p0 + (from + (i - lead))) =
          ground arith in
        let in_row : byte_at (segment b cap p0 n) (from + (i - lead))
            ≡ byte_at b (wrap cap (p0 + (from + (i - lead)))) =
          byte_at-segment b cap p0 n (from + (i - lead))
          ∙ ap (λ t. if t then byte_at b (wrap cap (p0 + (from + (i - lead)))) else 0) low in
        rw within (ap (byte_at b) same_index ∙ sym in_row)
    | inr without ↦ rw without refl
  ]

  sounded_row :
      (b m out : List ℕ)
      → lead + mid + tail ≤ length m
      → length out ≡ length m
      → ((i : ℕ) → byte_at out i ≡ played cap p lead mid tail b m i)
      → out ≡ sounded lead from mid tail (segment b cap p0 n) m
  sounded_row b m out fits same at' =
      let q = segment b cap p0 n in
      let fits' : from + mid ≤ length q = omega (arith, length-segment b cap p0 n) in
      get_or_ext 0 out (sounded lead from mid tail q m)
        (same ∙ sym (length-sounded lead from mid tail q m fits' fits))
        λ i h. at' i ∙ sounded_byte b m i ∙ sym (byte_at-sounded lead from mid tail q m i fits')

  pub Became-heard :
      (blocks : List (List ℕ)) (list out : List AudioBuffer)
      → AllHave (lead + mid + tail) list
      → Became (played cap p lead mid tail) blocks list out
      → out ≡ heard lead from mid tail (segments cap p0 n blocks) list
  Became-heard [] [] [] have h = refl
  Became-heard (b ∷ bs) (a ∷ as') (o ∷ os) have h =
      ap₂ ◌∷◌
        (h.0.0
          ∙ ap (λ x. record a { memory = x })
              (sounded_row b a.memory o.memory (omega (arith, have.0)) h.0.1 h.0.2))
        (Became-heard bs as' os have.1 h.1)
  Became-heard [] [] (o ∷ os) have h = absurd h
  Became-heard [] (a ∷ as') out have h = absurd h
  Became-heard (b ∷ bs) [] out have h = absurd h
  Became-heard (b ∷ bs) (a ∷ as') [] have h = absurd h
