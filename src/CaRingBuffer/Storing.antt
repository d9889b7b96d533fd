-- ===== src/CaRingBuffer/Storing.antt =====
-- What the second and the third part of `Write` do: silence up to the time of the write, and the
-- frames behind it.
use mathlib.Core.List.{append-nil}
use native.Mathlib.Nat.{mod-lt, mul-le-mul_right, mul-lt-mul_of_pos_right, add-mul, zero-mul}
use cxxaudio_utilities.Base.{
  ℕ, ◌+◌, ◌-◌, ◌*◌, ◌%◌, ◌≤◌, ◌<◌, ◌≡◌, refl, sym, ap, ap₂, ◌∙◌, arith, inl, inr, Bool-cases, some,
  List, [], ◌∷◌, length, ltb, ◌>>=◌,
}
use cxxaudio_utilities.StreamDescription.{Constants}
use cxxaudio_utilities.BufferList.{AudioBuffer}
use cxxaudio_utilities.RingBuffer.Invariant.{wrap}
use cxxaudio_utilities.AudioRingBuffer.{store_abl}
use cxxaudio_utilities.AudioRingBuffer.Channels.{
  AllSized, AllHave, Grown, segments, store_abl-StoredFlat, store_abl-StoredRound,
}
use cxxaudio_utilities.CaRingBuffer.{
  CaRingBuffer, start_time, end_time, zero_range, clear_skipped, store_frames,
}
use cxxaudio_utilities.CaRingBuffer.Timeline.{
  Holds, Lies, Lies-frames, frame_byte_offset_lem, offset-later,
}
use cxxaudio_utilities.CaRingBuffer.Silence.{
  quieted, Quieted, zero_range-QuietFlat, zero_range-QuietRound,
}

quieted_zero : (q : List (List ℕ)) → q ≡ quieted 0 q
quieted_zero [] = refl
quieted_zero (c ∷ cs) = ap₂ ◌∷◌ (sym (append-nil c)) (quieted_zero cs)

pub Quieted-none :
    (cap p n k : ℕ) (blocks : List (List ℕ))
    → AllSized cap blocks
    → k ≡ 0
    → Quieted cap p n k blocks blocks
Quieted-none cap p n k blocks sized e =
    let same : n + k ≡ n = omega arith in
    record {
      sized = sized;
      rows =
          ap (λ i. segments cap p i blocks) same
          ∙ quieted_zero (segments cap p n blocks)
          ∙ ap (λ i. quieted i (segments cap p n blocks)) (sym e);
      same_count = refl;
    }

-- The blocks after the silence up to `time`.
pub record SilentUpTo (k : Constants) (r : CaRingBuffer) (blocks : List (List ℕ)) (time : ℕ)
    : Type 0 where
  pub out : List (List ℕ)
  pub returns : clear_skipped k r blocks time ≡ some out
  pub quieted_by :
      Quieted
        (r.capacity_frames * r.format.bytes_per_frame)
        (start_time r % r.capacity_frames * r.format.bytes_per_frame)
        ((end_time r - start_time r) * r.format.bytes_per_frame)
        ((time - end_time r) * r.format.bytes_per_frame)
        blocks
        out

-- The blocks after the frames of a list from `time` on.
pub record Recorded (r : CaRingBuffer) (blocks : List (List ℕ)) (list : List AudioBuffer)
    (time end' : ℕ) : Type 0 where
  pub out : List (List ℕ)
  pub returns : store_frames r blocks list time end' ≡ some out
  pub grown :
      Grown
        (r.capacity_frames * r.format.bytes_per_frame)
        (start_time r % r.capacity_frames * r.format.bytes_per_frame)
        ((time - start_time r) * r.format.bytes_per_frame)
        ((end' - time) * r.format.bytes_per_frame)
        blocks
        list
        out

module _ {k : Constants} {r : CaRingBuffer} {blocks : List (List ℕ)} (v : Holds k r blocks) where
  abbrev cap : ℕ
  cap = r.capacity_frames

  abbrev bpf : ℕ
  bpf = r.format.bytes_per_frame

  abbrev front : ℕ
  front = start_time r % cap * bpf

  positive : 0 < cap
  positive = omega (arith, v.capacity.at_least)

  front-lt : front < cap * bpf
  front-lt =
      mul-lt-mul_of_pos_right {m = start_time r % cap} {n = cap} {k = bpf}
        (mod-lt (start_time r) positive) v.frame_size

  -- Where a frame within a capacity of the start stands.
  offset_from_start :
      (t : ℕ)
      → start_time r ≤ t
      → t - start_time r ≤ cap
      → t % cap * bpf ≡ wrap (cap * bpf) (front + (t - start_time r) * bpf)
  offset_from_start t le near =
      let split : start_time r + (t - start_time r) ≡ t = omega arith in
      ap (λ (i : ℕ). i % cap * bpf) (sym split)
      ∙ offset-later cap (start_time r) (t - start_time r) bpf positive v.frame_size near

  room_frames : (a b : ℕ) → a + b ≤ cap → a * bpf + b * bpf ≤ cap * bpf
  room_frames a b le =
      let le' : (a + b) * bpf ≤ cap * bpf = mul-le-mul_right bpf le in
      omega (arith, le', add-mul a b bpf)

  pub clear_skipped-SilentUpTo :
      (time : ℕ) → end_time r ≤ time → time ≤ start_time r + cap → SilentUpTo k r blocks time
  unfolding clear_skipped
  clear_skipped-SilentUpTo time le near = elim (Bool-cases (ltb (end_time r) time)) [
    | inr still ↦
        let none_left : (time - end_time r) * bpf ≡ 0 =
          let e : time - end_time r ≡ 0 = ground arith in
          ap (λ (i : ℕ). i * bpf) e ∙ zero-mul bpf in
        record {
          out = blocks;
          returns = rw still refl;
          quieted_by = Quieted-none (cap * bpf) front _ _ blocks v.sized none_left;
        }
    | inl gap ↦
        let o = frame_byte_offset_lem v (end_time r) in
        let g = time - end_time r in
        let n = end_time r - start_time r in
        let start = offset_from_start (end_time r) v.timed.ordered (omega (arith, v.timed.fits)) in
        let room = room_frames n g (omega (arith, v.timed.ordered)) in
        elim (Lies-frames v (end_time r) time (ground arith) (omega (arith, v.timed.ordered))) [
          | Lies.flat lt count fits ↦
              let s =
                zero_range-QuietFlat (cap * bpf) front (end_time r % cap * bpf) (n * bpf) (g * bpf)
                  front-lt room start fits blocks v.sized in
              let whole : clear_skipped k r blocks time
                  ≡ zero_range blocks (length blocks) (end_time r % cap * bpf) (g * bpf) =
                rw (gap, lt, count, o, v.streams) refl in
              record { out = s.out; returns = whole ∙ s.returns; quieted_by = s.quieted_by }
          | Lies.round ge first second over ↦
              let s =
                zero_range-QuietRound (cap * bpf) front (end_time r % cap * bpf) (n * bpf) (g * bpf)
                  front-lt room start over blocks v.sized in
              let z = cap * bpf - end_time r % cap * bpf in
              let y = g * bpf - z in
              let parts : clear_skipped k r blocks time ≡ (
                  zero_range blocks (length blocks) (end_time r % cap * bpf) z >>= λ b.
                  zero_range b (length blocks) 0 y) =
                rw (gap, ge, first, second, o, v.streams) refl in
              record {
                out = s.out;
                returns =
                    parts
                    ∙ ap (λ x. x >>= λ b. zero_range b (length blocks) 0 y) s.first
                    ∙ s.second;
                quieted_by = s.quieted_by;
              }
        ]
  ]

  pub store_frames-Recorded :
      (blocks' : List (List ℕ)) (list : List AudioBuffer) (time end' : ℕ)
      → start_time r ≤ time
      → time < end'
      → end' ≤ start_time r + cap
      → length list ≡ length blocks'
      → AllSized (cap * bpf) blocks'
      → AllHave ((end' - time) * bpf) list
      → Recorded r blocks' list time end'
  unfolding store_frames
  store_frames-Recorded blocks' list time end' from lt near same sized have =
      let o = frame_byte_offset_lem v time in
      let n = time - start_time r in
      let g = end' - time in
      let start = offset_from_start time from (omega arith) in
      let room = room_frames n g (omega arith) in
      elim (Lies-frames v time end' lt (omega arith)) [
        | Lies.flat below count fits ↦
            let s =
              store_abl-StoredFlat (cap * bpf) front (time % cap * bpf) (n * bpf) (g * bpf) front-lt
                room start fits blocks' list same sized have in
            let whole : store_frames r blocks' list time end'
                ≡ store_abl blocks' (time % cap * bpf) list 0 (g * bpf) =
              rw (below, count, o) refl in
            record { out = s.out; returns = whole ∙ s.returns; grown = s.grown }
        | Lies.round ge first second over ↦
            let s =
              store_abl-StoredRound (cap * bpf) front (time % cap * bpf) (n * bpf) (g * bpf)
                front-lt room start over blocks' list same sized have in
            let z = cap * bpf - time % cap * bpf in
            let y = g * bpf - z in
            let parts : store_frames r blocks' list time end'
                ≡ (store_abl blocks' (time % cap * bpf) list 0 z >>= λ b. store_abl b 0 list z y) =
              rw (ge, first, second, o) refl in
            record {
              out = s.out;
              returns = parts ∙ ap (λ x. x >>= λ b. store_abl b 0 list z y) s.first ∙ s.second;
              grown = s.grown;
            }
      ]
