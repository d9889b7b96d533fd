-- ===== src/BufferList/Allocation.antt =====
-- `Allocate` and the constructor with a capacity, where the size of all buffers together fits 32
-- bits, and `InferFrameLengthFromABL`.
use mathlib.Core.Path.{subst}
use native.Mathlib.Nat.{
  mul-le-mul_right, mod-eq_of_lt, zero-mul, mul_comm, add-mul, one-mul, zero-add, div-lt_iff_lt-mul,
}
use cxxaudio_utilities.Base.{
  ℕ, zero, suc, ◌+◌, ◌-◌, ◌*◌, ◌/◌, ◌%◌, ◌≤◌, ◌<◌, ◌≡◌, ◌⊎◌, ◌↔◌, refl, sym, ap, ap₂, ◌∙◌, arith,
  inl, inr, Bool, true, false, ◌||◌, Bool-cases, Option, none, some, List, [], ◌∷◌, take, drop,
  replicate, ltb, ◌==◌, mul32, u32_mod, length-replicate,
}
use cxxaudio_utilities.StreamDescription.{
  StreamDescription, Constants, channel_stream_count, interleaved_channel_count,
  frame_count_to_byte_size,
}
use cxxaudio_utilities.BufferList.{
  AudioBuffer, BufferList, Layout, buffers_from, allocation_size, allocate_audio_buffer_list,
  allocate, deallocate,
}
use cxxaudio_utilities.BufferList.Frames.{heads, contents, AllWide, Holds}

take-replicate : (m n : ℕ) → m ≤ n → take {A = ℕ} m (replicate n 0) ≡ replicate m 0
take-replicate zero n le = refl
take-replicate (suc m) zero le = absurd (omega arith)
take-replicate (suc m) (suc n) le = ap (◌∷◌ 0) (take-replicate m n (omega arith))

drop-replicate : (m n : ℕ) → drop {A = ℕ} m (replicate n 0) ≡ replicate (n - m) 0
drop-replicate zero n = let e : n ≡ n - 0 = omega arith in ap (λ m. replicate {A = ℕ} m 0) e
drop-replicate (suc m) zero =
    let e : 0 ≡ 0 - suc m = omega arith in ap (λ (i : ℕ). replicate {A = ℕ} i 0) e
drop-replicate (suc m) (suc n) =
    let e : n - m ≡ suc n - suc m = omega arith in
    drop-replicate m n ∙ ap (λ i. replicate {A = ℕ} i 0) e

-- A buffer of an allocation, with memory of its own.
abbrev pub cleared_buffer : ℕ → ℕ → AudioBuffer
cleared_buffer channels size = record {
  number_channels = channels;
  data_byte_size = size;
  memory = replicate size 0;
}

-- Without a product that wraps, the buffers of an allocation lie one behind the other.
buffers_from-replicate :
    (total list_size size channels left i : ℕ)
    → list_size + (i + left) * size ≤ total
    → (i + left) * size < u32_mod
    → buffers_from (replicate total 0) list_size size channels left i
      ≡ replicate left (cleared_buffer channels size)
unfolding buffers_from
buffers_from-replicate total list_size size channels zero i inside small = refl
buffers_from-replicate total list_size size channels (suc left) i inside small =
    let e : i + suc left ≡ i + 1 + left = omega arith in
    let same : (i + suc left) * size ≡ (i + 1 + left) * size = ap (λ (j : ℕ). j * size) e in
    let upto : (i + 1) * size ≤ (i + suc left) * size = mul-le-mul_right size (omega arith) in
    let one : (i + 1) * size ≡ i * size + size =
      add-mul i 1 size ∙ ap (λ (j : ℕ). i * size + j) (one-mul size) in
    let offset : mul32 size i ≡ i * size =
      ap (λ (j : ℕ). j % u32_mod) (mul_comm size i) ∙ mod-eq_of_lt (omega arith) in
    let own : take size (drop (list_size + mul32 size i) (replicate total 0)) ≡ replicate size 0 =
      ap (take size) (drop-replicate (list_size + mul32 size i) total)
      ∙ take-replicate size (total - (list_size + mul32 size i)) (omega arith) in
    ap₂ ◌∷◌ (ap (λ m. record { number_channels = channels; data_byte_size = size; memory = m }) own)
      (buffers_from-replicate total list_size size channels left (i + 1) (omega arith)
        (omega arith))

AllWide-replicate : (n c size : ℕ) → AllWide size (replicate n (cleared_buffer c size))
AllWide-replicate zero c size = tt
AllWide-replicate (suc n) c size =
    (omega (arith, length-replicate {A = ℕ} size 0), AllWide-replicate n c size)

heads-replicate : (n c size : ℕ) → heads 0 (replicate n (cleared_buffer c size)) ≡ replicate n []
heads-replicate zero c size = refl
heads-replicate (suc n) c size = ap (◌∷◌ []) (heads-replicate n c size)

module _ (k : Constants) (layout : Layout) (malloc : ℕ → Bool) (f : StreamDescription) (n : ℕ) where
  -- The size of one buffer.
  abbrev wanted : ℕ
  wanted = n * f.bytes_per_frame

  -- What an allocation ends with: no buffers, because the frames have no size, a buffer does not
  -- fit 32 bits, or there is no memory; or as many empty channel streams as the format has.
  pub data Allocation : Bool × BufferList → Type 0 where
    failed :
        (b' : BufferList)
        → b'.list ≡ none
        → (f.bytes_per_frame ≡ 0)
          ⊎ ((u32_mod ≤ wanted) ⊎ (malloc (allocation_size k layout f n) ≡ false))
        → Allocation (false, b')
    made :
        (b' : BufferList)
        → Holds b' (
            replicate
              (channel_stream_count k f)
              (cleared_buffer (interleaved_channel_count k f) wanted))
        → b'.format ≡ f
        → (b'.frame_capacity ≡ n) × (b'.frame_length ≡ 0)
        → contents b' ≡ replicate (channel_stream_count k f) []
        → Allocation (true, b')

  -- The code's check of the size.
  abbrev too_large : Bool
  too_large = (f.bytes_per_frame == 0) || ltb ((u32_mod - 1) / f.bytes_per_frame) n

  fits_iff :
      0 < f.bytes_per_frame → ((u32_mod - 1) / f.bytes_per_frame < n) ↔ (u32_mod - 1 < wanted)
  fits_iff pos = div-lt_iff_lt-mul pos

  refused_size : too_large ≡ true → (f.bytes_per_frame ≡ 0) ⊎ (u32_mod ≤ wanted)
  refused_size h = elim (Bool-cases (f.bytes_per_frame == 0)) [
    | inl z ↦ inl (ground arith)
    | inr pos ↦
        let over : u32_mod - 1 < wanted = (fits_iff (ground arith)).0 (ground arith) in
        inr (omega arith)
  ]

  fitting_size : too_large ≡ false → wanted < u32_mod
  fitting_size h = elim (Bool-cases (ltb (u32_mod - 1) wanted)) [
    | inl over ↦
        let lt : (u32_mod - 1) / f.bytes_per_frame < n =
          (fits_iff (ground arith)).1 (ground arith) in
        absurd (ground arith)
    | inr fits ↦ ground arith
  ]

  abbrev buffers : List AudioBuffer
  buffers =
      replicate (channel_stream_count k f) (cleared_buffer (interleaved_channel_count k f) wanted)

  no_list :
      (too_large ≡ true) ⊎ (malloc (allocation_size k layout f n) ≡ false)
      → allocate_audio_buffer_list k layout malloc f n ≡ none
  unfolding allocate_audio_buffer_list
  no_list (inl refused) = rw refused refl
  no_list (inr out) = elim (Bool-cases too_large) [
    | inl refused ↦ rw refused refl
    | inr fits ↦ rw (fits, out) refl
  ]

  list_as_laid :
      too_large ≡ false
      → malloc (allocation_size k layout f n) ≡ true
      → allocate_audio_buffer_list k layout malloc f n
        ≡ some (
            buffers_from
              (replicate (allocation_size k layout f n) 0)
              (layout.header_size + layout.buffer_size * channel_stream_count k f)
              (frame_count_to_byte_size f n)
              (interleaved_channel_count k f)
              (channel_stream_count k f)
              0)
  unfolding allocate_audio_buffer_list
  list_as_laid fits got = rw (fits, got) refl

  list_of_buffers :
      too_large ≡ false
      → malloc (allocation_size k layout f n) ≡ true
      → channel_stream_count k f * wanted < u32_mod
      → allocate_audio_buffer_list k layout malloc f n ≡ some buffers
  unfolding frame_count_to_byte_size allocation_size
  list_of_buffers fits got small =
      let s = channel_stream_count k f in
      let header = layout.header_size + layout.buffer_size * s in
      let size : mul32 n f.bytes_per_frame ≡ wanted = mod-eq_of_lt (fitting_size fits) in
      let all : mul32 wanted s ≡ s * wanted =
        ap (λ (j : ℕ). j % u32_mod) (mul_comm wanted s) ∙ mod-eq_of_lt small in
      let none_before : (0 + s) * wanted ≡ s * wanted = ap (λ (j : ℕ). j * wanted) (zero-add s) in
      let laid =
        buffers_from-replicate (header + mul32 wanted s) header wanted
          (interleaved_channel_count k f) s 0 (omega arith) (omega arith) in
      list_as_laid fits got
      ∙ ap
          (λ d. some (
            buffers_from (replicate (header + mul32 d s) 0) header d (interleaved_channel_count k f)
              s 0))
          size
      ∙ ap some laid

  -- What `Allocate` does with the list it gets.
  abbrev finish : BufferList → Option (List AudioBuffer) → Bool × BufferList
  finish d none = (false, record d { list = none })
  finish d (some bufs) =
      (true, record { list = some bufs; format = f; frame_capacity = n; frame_length = 0 })

  finished :
      (b : BufferList) (o : Option (List AudioBuffer))
      → allocate_audio_buffer_list k layout malloc f n ≡ o
      → allocate k layout malloc b f n ≡ finish (deallocate b) o
  unfolding allocate
  finished b none e = rw (allocate, e) refl
  finished b (some bufs) e = rw (allocate, e) refl

  -- `Allocate`, for a capacity below 2^32 whose buffers together have fewer than 2^32 bytes: it
  -- fails and leaves no buffers, if a frame has no bytes, the size of one buffer does not fit 32
  -- bits, or there is no memory; otherwise the object has the format and the capacity, a length of
  -- 0, and as many empty channel streams as the format has, each with memory of its own for the
  -- capacity.
  pub buffer_list_allocate-Allocation :
      n < u32_mod
      → channel_stream_count k f * (n * f.bytes_per_frame) < u32_mod
      → (b : BufferList) → Allocation (allocate k layout malloc b f n)
  unfolding contents
  buffer_list_allocate-Allocation bounded small b = elim (Bool-cases too_large) [
    | inl refused ↦
        let e = finished b none (no_list (inl refused)) in
        subst Allocation (sym e) (
          Allocation.failed _ refl
            (elim (refused_size refused) [ inl z ↦ inl z | inr over ↦ inr (inl over) ]))
    | inr fits ↦ elim (Bool-cases (malloc (allocation_size k layout f n))) [
      | inr out ↦
          let e = finished b none (no_list (inr out)) in
          subst Allocation (sym e) (Allocation.failed _ refl (inr (inr out)))
      | inl got ↦
          let b' : BufferList = record {
            list = some buffers;
            format = f;
            frame_capacity = n;
            frame_length = 0;
          } in
          let v : Holds b' buffers = record {
            allocated = refl;
            wide =
                AllWide-replicate (channel_stream_count k f) (interleaved_channel_count k f) wanted;
            bytes_fit = fitting_size fits;
            frames_fit = bounded;
            within = omega arith;
          } in
          let nothing : contents b' ≡ replicate (channel_stream_count k f) [] =
            ap (λ i. heads i buffers) (zero-mul f.bytes_per_frame)
            ∙ heads-replicate (channel_stream_count k f) (interleaved_channel_count k f) wanted in
          let e = finished b (some buffers) (list_of_buffers fits got small) in
          subst Allocation (sym e) (Allocation.made b' v refl (refl, refl) nothing)
    ]
  ]
