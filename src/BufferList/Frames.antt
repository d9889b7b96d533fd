-- ===== src/BufferList/Frames.antt =====
-- The contents of a buffer list, the invariant of an allocated one, and `SetFrameLength`.
use native.Mathlib.Nat.{mul-le-mul_right, mod-eq_of_lt}
use cxxaudio_utilities.Base.{
  ℕ, ◌*◌, ◌≤◌, ◌<◌, ◌≡◌, refl, arith, true, false, none, some, List, [], ◌∷◌, length, take, ltb,
  leb, inl, inr, Bool-cases, if◌then◌else◌, mul32, u32_mod, ap, ◌∙◌,
}
use cxxaudio_utilities.BufferList.{AudioBuffer, BufferList, set_sizes, set_frame_length}

-- The first `n` bytes of each buffer.
abbrev pub heads : ℕ → List AudioBuffer → List (List ℕ)
heads n [] = []
heads n (a ∷ as') = take n a.memory ∷ heads n as'

-- The valid bytes of each channel stream.
unfoldable pub contents : BufferList → List (List ℕ)
contents b = elim b.list [
  | none ↦ []
  | some bufs ↦ heads (b.frame_length * b.format.bytes_per_frame) bufs
]

abbrev pub AllWide : ℕ → List AudioBuffer → Type 0
AllWide n [] = Unit
AllWide n (a ∷ as') = (n ≤ length a.memory) × AllWide n as'

-- Each buffer has memory for the capacity, whose size fits 32 bits, and the length is within it.
pub record Holds (b : BufferList) (bufs : List AudioBuffer) : Type 0 where
  pub allocated : b.list ≡ some bufs
  pub wide : AllWide (b.frame_capacity * b.format.bytes_per_frame) bufs
  pub bytes_fit : b.frame_capacity * b.format.bytes_per_frame < u32_mod
  pub frames_fit : b.frame_capacity < u32_mod
  pub within : b.frame_length ≤ b.frame_capacity

pub AllWide-set_sizes :
    (n k : ℕ) (bufs : List AudioBuffer) → AllWide n bufs → AllWide n (set_sizes k bufs)
unfolding set_sizes
AllWide-set_sizes n k [] w = w
AllWide-set_sizes n k (a ∷ as') w = (w.0, AllWide-set_sizes n k as' w.1)

pub heads-set_sizes :
    (n k : ℕ) (bufs : List AudioBuffer) → heads n (set_sizes k bufs) ≡ heads n bufs
unfolding set_sizes
heads-set_sizes n k [] = refl
heads-set_sizes n k (a ∷ as') = ap (◌∷◌ (take n a.memory)) (heads-set_sizes n k as')

length-set_sizes : (k : ℕ) (bufs : List AudioBuffer) → length (set_sizes k bufs) ≡ length bufs
unfolding set_sizes
length-set_sizes k [] = refl
length-set_sizes k (a ∷ as') = omega (arith, length-set_sizes k as')

-- What an operation leaves: the format and capacity as they were, and a new length and contents.
pub record Leaves (b b' : BufferList) (n : ℕ) (rows : List (List ℕ)) : Type 0 where
  pub buffers : List AudioBuffer
  pub holds : Holds b' buffers
  pub now : contents b' ≡ rows
  pub new_length : b'.frame_length ≡ n
  pub same_format : b'.format ≡ b.format
  pub same_capacity : b'.frame_capacity ≡ b.frame_capacity

module _ {b : BufferList} {bufs : List AudioBuffer} (v : Holds b bufs) where
  pub contents-heads : contents b ≡ heads (b.frame_length * b.format.bytes_per_frame) bufs
  unfolding contents
  contents-heads = rw v.allocated

module _ {b : BufferList} {bufs : List AudioBuffer} (v : Holds b bufs) where
  -- A number of frames within the capacity has a size that does not wrap.
  pub byte_size-le :
      (n : ℕ)
      → n ≤ b.frame_capacity
      → n * b.format.bytes_per_frame ≤ b.frame_capacity * b.format.bytes_per_frame
  byte_size-le n le = mul-le-mul_right b.format.bytes_per_frame le

  pub byte_size :
      (n : ℕ)
      → n ≤ b.frame_capacity
      → mul32 n b.format.bytes_per_frame ≡ n * b.format.bytes_per_frame
  byte_size n le = mod-eq_of_lt (omega (arith, byte_size-le n le, v.bytes_fit))

  -- A length within the capacity is set, and the buffers' memory is as it was.
  pub set_frame_length-Leaves :
      (n : ℕ)
      → n ≤ b.frame_capacity
      → Leaves b (set_frame_length b n).1 n (heads (n * b.format.bytes_per_frame) bufs)
  unfolding set_frame_length
  set_frame_length-Leaves n le =
      let size = mul32 n b.format.bytes_per_frame in
      let fits : ltb b.frame_capacity n ≡ false = ground arith in
      let b' : BufferList = record b { list = some (set_sizes size bufs); frame_length = n } in
      let v' : Holds b' (set_sizes size bufs) = record {
        allocated = refl;
        wide = AllWide-set_sizes (b.frame_capacity * b.format.bytes_per_frame) size bufs v.wide;
        bytes_fit = v.bytes_fit;
        frames_fit = v.frames_fit;
        within = le;
      } in
      let after : set_frame_length b n ≡ (true, b') = rw (v.allocated, fits) in
      rw after (record {
        buffers = set_sizes size bufs;
        holds = v';
        now = contents-heads v' ∙ heads-set_sizes (n * b.format.bytes_per_frame) size bufs;
        new_length = refl;
        same_format = refl;
        same_capacity = refl;
      })

  -- On an allocated buffer list, `SetFrameLength` succeeds exactly if the length is within the
  -- capacity. The buffers' memory is as it was: with the new length each channel stream has the
  -- first bytes of its memory, as many as that length takes, and without success nothing changes.
  pub set_frame_length_lem :
      (n : ℕ)
      → let ok = leb n b.frame_capacity in
        let len = if ok then n else b.frame_length in
        ((set_frame_length b n).0 ≡ ok)
        × Leaves b (set_frame_length b n).1 len (heads (len * b.format.bytes_per_frame) bufs)
  unfolding set_frame_length
  set_frame_length_lem n = elim (Bool-cases (leb n b.frame_capacity)) [
    | inl ok ↦
        let le : n ≤ b.frame_capacity = ground arith in
        let fits : ltb b.frame_capacity n ≡ false = ground arith in
        let succeeds : (set_frame_length b n).0 ≡ true = rw (v.allocated, fits) in
        rw ok (succeeds, set_frame_length-Leaves n le)
    | inr over ↦
        let refuses : ltb b.frame_capacity n ≡ true = ground arith in
        let same : set_frame_length b n ≡ (false, b) = rw (v.allocated, refuses) in
        let kept : (set_frame_length b n).0 ≡ false = ap (λ p. p.0) same in
        rw (over, kept, ap (λ p. p.1) same)
          (
            refl,
            record {
              buffers = bufs;
              holds = v;
              now = contents-heads v;
              new_length = refl;
              same_format = refl;
              same_capacity = refl;
            },
          )
  ]
