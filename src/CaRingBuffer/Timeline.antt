-- ===== src/CaRingBuffer/Timeline.antt =====
-- The audio between the time bounds, channel by channel, and where a frame stands in the blocks.
use native.Mathlib.Nat.{mod-lt, mod-add-mod, mul-le-mul_right, mul-lt-mul_of_pos_right, add-mul}
use cxxaudio_utilities.Base.{
  ℕ, ◌+◌, ◌-◌, ◌*◌, ◌%◌, ◌≤◌, ◌<◌, ◌≡◌, refl, sym, ap, ◌∙◌, arith, inl, inr, Bool-cases, true,
  false, none, some, List, [], length, bit_and, bit_and_mask, ltb, sub32, mul32, u32_mod,
}
use cxxaudio_utilities.PowerOfTwo.Laws.{IsCapacity}
use cxxaudio_utilities.StreamDescription.{Constants, channel_stream_count}
use cxxaudio_utilities.RingBuffer.Invariant.{wrap, mod-wrap}
use cxxaudio_utilities.AudioRingBuffer.Channels.{AllSized, segments}
use cxxaudio_utilities.AudioRingBuffer.Frames.{wrap-mul}
use cxxaudio_utilities.AudioRingBuffer.Copies.{mul32_eq}
use cxxaudio_utilities.CaRingBuffer.{CaRingBuffer, start_time, end_time, frame_byte_offset}
use cxxaudio_utilities.CaRingBuffer.Times.{IsTimed}

-- There is a block for every channel stream, of a size that 32 bits hold, and the time bounds are
-- in order.
pub record Holds (k : Constants) (r : CaRingBuffer) (blocks : List (List ℕ)) : Type 0 where
  pub allocated : r.buffers ≡ some blocks
  pub streams : channel_stream_count k r.format ≡ length blocks
  pub sized : AllSized (r.capacity_frames * r.format.bytes_per_frame) blocks
  pub capacity : IsCapacity r.capacity_frames
  pub mask : r.capacity_frames_mask ≡ r.capacity_frames - 1
  pub frame_size : 0 < r.format.bytes_per_frame
  pub small : r.capacity_frames * r.format.bytes_per_frame < u32_mod
  pub timed : IsTimed r

-- The bytes of the frames from `start` to `end'`, in blocks for `cap` frames of `bpf` bytes.
abbrev pub frames_between : ℕ → ℕ → ℕ → ℕ → List (List ℕ) → List (List ℕ)
frames_between cap bpf start end' blocks =
    segments (cap * bpf) (start % cap * bpf) ((end' - start) * bpf) blocks

-- The audio that the object has, from its start time to its end time.
unfoldable pub timeline : CaRingBuffer → List (List ℕ)
timeline r = elim r.buffers [
  | none ↦ []
  | some blocks ↦
      frames_between r.capacity_frames r.format.bytes_per_frame (start_time r) (end_time r) blocks
]

-- The index of a later frame.
pub mod-later : (cap t n : ℕ) → 0 < cap → n ≤ cap → (t + n) % cap ≡ wrap cap (t % cap + n)
mod-later cap t n pos le =
    sym (mod-add-mod t cap n) ∙ mod-wrap cap (t % cap + n) (omega (arith, mod-lt t pos))

-- The same in bytes.
pub offset-later :
    (cap t n b : ℕ)
    → 0 < cap
    → 0 < b
    → n ≤ cap
    → (t + n) % cap * b ≡ wrap (cap * b) (t % cap * b + n * b)
offset-later cap t n b pos pos' le =
    ap (λ (i : ℕ). i * b) (mod-later cap t n pos le)
    ∙ sym (wrap-mul cap (t % cap + n) b pos')
    ∙ ap (wrap (cap * b)) (add-mul (t % cap) n b)

-- The two ways in which the frames from time `t` to `u` lie in the blocks, with the numbers that
-- the program computes for them: in one part, or up to the end of the blocks and from their start.
pub data Lies (r : CaRingBuffer) (t u : ℕ) : Type 0 where
  flat :
      ltb (frame_byte_offset r t) (frame_byte_offset r u) ≡ true
      → sub32 (frame_byte_offset r u) (frame_byte_offset r t) ≡ (u - t) * r.format.bytes_per_frame
      → t % r.capacity_frames * r.format.bytes_per_frame + (u - t) * r.format.bytes_per_frame
        ≤ r.capacity_frames * r.format.bytes_per_frame
      → Lies r t u
  round :
      ltb (frame_byte_offset r t) (frame_byte_offset r u) ≡ false
      → sub32 (mul32 r.capacity_frames r.format.bytes_per_frame) (frame_byte_offset r t)
        ≡ r.capacity_frames * r.format.bytes_per_frame
          - t % r.capacity_frames * r.format.bytes_per_frame
      → frame_byte_offset r u
        ≡ (u - t) * r.format.bytes_per_frame
          - (r.capacity_frames * r.format.bytes_per_frame
              - t % r.capacity_frames * r.format.bytes_per_frame)
      → r.capacity_frames * r.format.bytes_per_frame
        ≤ t % r.capacity_frames * r.format.bytes_per_frame + (u - t) * r.format.bytes_per_frame
      → Lies r t u

module _ {k : Constants} {r : CaRingBuffer} {blocks : List (List ℕ)} (v : Holds k r blocks) where
  abbrev cap : ℕ
  cap = r.capacity_frames

  abbrev bpf : ℕ
  bpf = r.format.bytes_per_frame

  pub timeline-frames : timeline r ≡ frames_between cap bpf (start_time r) (end_time r) blocks
  unfolding timeline
  timeline-frames = rw v.allocated refl

  pub frame_byte_offset_lem : (t : ℕ) → frame_byte_offset r t ≡ t % cap * bpf
  unfolding frame_byte_offset
  frame_byte_offset_lem t =
      let masked : bit_and t r.capacity_frames_mask ≡ t % cap =
        rw (v.mask, v.capacity.is_power) (bit_and_mask v.capacity.exponent t) in
      let below : t % cap < cap = mod-lt t (omega (arith, v.capacity.at_least)) in
      rw masked (mul32_eq (t % cap) cap bpf (omega arith) v.small)

  pub Lies-frames : (t u : ℕ) → t < u → u ≤ t + cap → Lies r t u
  Lies-frames t u lt near =
      let n = u - t in
      let ends : t + n ≡ u = omega arith in
      let le : n ≤ cap = omega arith in
      let pos : 0 < n = omega arith in
      let positive : 0 < cap = omega (arith, v.capacity.at_least) in
      let p = t % cap in
      let below : p < cap = mod-lt t positive in
      let below' : p * bpf < cap * bpf =
        mul-lt-mul_of_pos_right {m = p} {n = cap} {k = bpf} below v.frame_size in
      let o0 = frame_byte_offset_lem t in
      let o1 =
        ap (frame_byte_offset r) (sym ends)
        ∙ frame_byte_offset_lem (t + n)
        ∙ offset-later cap t n bpf positive v.frame_size le in
      let le' : n * bpf ≤ cap * bpf = mul-le-mul_right bpf le in
      let pos' : 0 * bpf < n * bpf =
        mul-lt-mul_of_pos_right {m = 0} {n = n} {k = bpf} pos v.frame_size in
      elim (Bool-cases (ltb (p * bpf + n * bpf) (cap * bpf))) [
        | inl inside ↦
            Lies.flat (ground (arith, o0, o1)) (ground (arith, o0, o1, v.small)) (ground arith)
        | inr outside ↦
            Lies.round (ground (arith, o0, o1)) (ground (arith, o0, v.small)) (ground (arith, o1))
              (ground arith)
      ]
