-- ===== src/BufferList/Inference.antt =====
-- `InferFrameLengthFromABL`, where it returns and where it throws, and the constructor with a
-- capacity, which turns the failures of `Allocate` into exceptions.
use mathlib.Core.Path.{subst}
use cxxaudio_utilities.Base.{
  ℕ, ◌*◌, ◌/◌, ◌≤◌, ◌<◌, ◌≡◌, ◌⊎◌, refl, sym, arith, inl, inr, Bool, true, false, Bool-cases,
  Option, some, List, [], ◌∷◌, replicate, ltb, ◌==◌, if◌then◌else◌, u32_mod, Result, thrown, done,
  bad_alloc, invalid_argument, logic_error,
}
use cxxaudio_utilities.StreamDescription.{
  StreamDescription, Constants, channel_stream_count, interleaved_channel_count,
}
use cxxaudio_utilities.BufferList.{
  AudioBuffer, BufferList, empty, Layout, allocation_size, allocate,
}
use cxxaudio_utilities.BufferList.Frames.{heads, contents, contents-heads, Holds, Leaves}
use cxxaudio_utilities.BufferList.Allocation.{
  Allocation, cleared_buffer, buffer_list_allocate-Allocation,
}
use cxxaudio_utilities.BufferList.Calls.{construct, infer_frame_length_from_abl, sizes_consistent}

-- Every buffer has the size.
abbrev pub AllSized : ℕ → List AudioBuffer → Type 0
AllSized n [] = Unit
AllSized n (a ∷ as') = (a.data_byte_size ≡ n) × AllSized n as'

sizes_consistent-AllSized :
    (n : ℕ) (bufs : List AudioBuffer) → sizes_consistent n bufs ≡ true → AllSized n bufs
unfolding sizes_consistent
sizes_consistent-AllSized n [] h = tt
sizes_consistent-AllSized n (a ∷ as') h =
    (ground arith, sizes_consistent-AllSized n as' (ground arith))

AllSized-sizes_consistent :
    (n : ℕ) (bufs : List AudioBuffer) → AllSized n bufs → sizes_consistent n bufs ≡ true
unfolding sizes_consistent
AllSized-sizes_consistent n [] h = refl
AllSized-sizes_consistent n (a ∷ as') h =
    let rest = AllSized-sizes_consistent n as' h.1 in ground (arith, h.0)

-- What a call ends with, on an allocated list with buffers: the length that all sizes stand for,
-- with the channel streams cut to it, or an exception.
pub data Inference (b : BufferList) (a : AudioBuffer) (as' : List AudioBuffer)
    : Option (Result (Bool × BufferList)) → Type 0 where
  inferred :
      (b' : BufferList)
      → AllSized a.data_byte_size (a ∷ as')
      → a.data_byte_size / b.format.bytes_per_frame ≤ b.frame_capacity
      → Leaves b b'
          (a.data_byte_size / b.format.bytes_per_frame)
          (heads (a.data_byte_size / b.format.bytes_per_frame * b.format.bytes_per_frame) (a ∷ as'))
      → Inference b a as' (some (done (true, b')))
  inconsistent :
      ¬ AllSized a.data_byte_size (a ∷ as') → Inference b a as' (some (thrown logic_error))
  too_long :
      b.frame_capacity < a.data_byte_size / b.format.bytes_per_frame
      → Inference b a as' (some (thrown logic_error))

-- `InferFrameLengthFromABL` on an allocated buffer list with buffers and frames of at least one
-- byte: it throws `logic_error` if the sizes of the buffers differ, or stand for more frames than
-- the capacity; otherwise the length is as many whole frames as the size has, and the channel
-- streams have that many of the bytes of their memory.
pub infer_frame_length_from_abl-Inference :
    {b : BufferList} {a : AudioBuffer} {as' : List AudioBuffer}
    → Holds b (a ∷ as')
    → 0 < b.format.bytes_per_frame
    → Inference b a as' (infer_frame_length_from_abl b)
unfolding infer_frame_length_from_abl
infer_frame_length_from_abl-Inference {b} {a} {as'} v pos =
    let size = a.data_byte_size in
    let n = size / b.format.bytes_per_frame in
    let some_bytes : (b.format.bytes_per_frame == 0) ≡ false = ground arith in
    elim (Bool-cases (sizes_consistent size (a ∷ as'))) [
      | inr differ ↦
          let not_all : ¬ AllSized size (a ∷ as') = λ all.
            let same = AllSized-sizes_consistent size (a ∷ as') all in absurd (cc (same, differ)) in
          let throws : infer_frame_length_from_abl b ≡ some (thrown logic_error) =
            rw (v.allocated, differ) refl in
          subst (Inference b a as') (sym throws) (Inference.inconsistent not_all)
      | inl same ↦ elim (Bool-cases (ltb b.frame_capacity n)) [
        | inl over ↦
            let throws : infer_frame_length_from_abl b ≡ some (thrown logic_error) =
              rw (v.allocated, same, some_bytes, over) refl in
            subst (Inference b a as') (sym throws) (Inference.too_long (ground arith))
        | inr fits ↦
            let b' : BufferList = record b { frame_length = n } in
            let h : Holds b' (a ∷ as') = record {
              allocated = v.allocated;
              wide = v.wide;
              bytes_fit = v.bytes_fit;
              frames_fit = v.frames_fit;
              within = ground arith;
            } in
            let returns : infer_frame_length_from_abl b ≡ some (done (true, b')) =
              rw (v.allocated, same, some_bytes, fits) refl in
            let l : Leaves b b' n (heads (n * b.format.bytes_per_frame) (a ∷ as')) = record {
              buffers = a ∷ as';
              holds = h;
              now = contents-heads h;
              new_length = refl;
              same_format = refl;
              same_capacity = refl;
            } in
            subst (Inference b a as') (sym returns) (
              Inference.inferred b' (sizes_consistent-AllSized size (a ∷ as') same) (ground arith)
                l)
      ]
    ]

module _ (k : Constants) (layout : Layout) (malloc : ℕ → Bool) (f : StreamDescription) (n : ℕ) where
  -- What constructing a buffer list ends with.
  pub data Construction : Result BufferList → Type 0 where
    invalid : f.bytes_per_frame ≡ 0 → Construction (thrown invalid_argument)
    failed :
        0 < f.bytes_per_frame
        → (u32_mod ≤ n * f.bytes_per_frame) ⊎ (malloc (allocation_size k layout f n) ≡ false)
        → Construction (thrown bad_alloc)
    made :
        (b : BufferList)
        → Holds b (
            replicate
              (channel_stream_count k f)
              (cleared_buffer (interleaved_channel_count k f) (n * f.bytes_per_frame)))
        → b.format ≡ f
        → (b.frame_capacity ≡ n) × (b.frame_length ≡ 0)
        → contents b ≡ replicate (channel_stream_count k f) []
        → Construction (done b)

  Allocation-Construction :
      0 < f.bytes_per_frame
      → (r : Bool × BufferList) → Allocation k layout malloc f n r
      → Construction (if r.0 then done r.1 else thrown bad_alloc)
  Allocation-Construction pos _ (Allocation.failed b' empty' (inl z)) = absurd (omega arith)
  Allocation-Construction pos _ (Allocation.failed b' empty' (inr why)) =
      Construction.failed pos why
  Allocation-Construction pos _ (Allocation.made b' v same counts nothing) =
      Construction.made b' v same counts nothing

  -- The constructor with a capacity below 2^32, whose buffers together have fewer than 2^32 bytes:
  -- it throws `invalid_argument` if a frame has no bytes, `bad_alloc` if the size of one buffer does
  -- not fit 32 bits or there is no memory, and otherwise makes an object with the format, the
  -- capacity, a length of 0, and as many empty channel streams as the format has.
  pub construct-Construction :
      n < u32_mod
      → channel_stream_count k f * (n * f.bytes_per_frame) < u32_mod
      → Construction (construct k layout malloc f n)
  unfolding construct
  construct-Construction bounded small = elim (Bool-cases (f.bytes_per_frame == 0)) [
    | inl z ↦ rw z (Construction.invalid (ground arith))
    | inr pos ↦ rw pos (
        Allocation-Construction (ground arith) (allocate k layout malloc empty f n)
          (buffer_list_allocate-Allocation k layout malloc f n bounded small empty))
  ]
