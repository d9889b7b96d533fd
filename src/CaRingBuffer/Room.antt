-- ===== src/CaRingBuffer/Room.antt =====
-- How a write that does not go back makes room: the frames that are too old are dropped.
use native.Mathlib.Nat.{zero-mul, mod-lt, mul-le-mul_right, mul-lt-mul_of_pos_right}
use cxxaudio_utilities.Base.{
  ℕ, ◌+◌, ◌-◌, ◌*◌, ◌%◌, ◌≤◌, ◌<◌, ◌≡◌, refl, sym, ap, ap₂, ◌∙◌, arith, inl, inr, Bool-cases, true,
  false, List, [], ◌∷◌, drop_all, ltb, leb, max,
}
use cxxaudio_utilities.StreamDescription.{Constants}
use cxxaudio_utilities.RingBuffer.Copies.{length-segment, segment}
use cxxaudio_utilities.RingBuffer.Invariant.{wrap}
use cxxaudio_utilities.AudioRingBuffer.Channels.{segments}
use cxxaudio_utilities.AudioRingBuffer.Fronts.{dropped, dropped-segments}
use cxxaudio_utilities.AudioRingBuffer.Frames.{sub-mul_frame}
use cxxaudio_utilities.AudioRingBuffer.Transfer.{dropped_zero}
use cxxaudio_utilities.CaRingBuffer.{CaRingBuffer, start_time, end_time, make_room, set_time_bounds}
use cxxaudio_utilities.CaRingBuffer.Timeline.{
  Holds, timeline, timeline-frames, frames_between, offset-later,
}
use cxxaudio_utilities.CaRingBuffer.Bounds.{Leaves, set_time_bounds-Leaves}

dropped_all :
    (cap p p' n k : ℕ) (blocks : List (List ℕ))
    → n ≤ k
    → segments cap p' 0 blocks ≡ dropped k (segments cap p n blocks)
dropped_all cap p p' n k [] le = refl
dropped_all cap p p' n k (b ∷ bs) le =
    ap₂ ◌∷◌ (sym (drop_all k (segment b cap p n) (omega (arith, length-segment b cap p n))))
      (dropped_all cap p p' n k bs le)

-- The start time that a write up to `end'` leaves when it does not go back.
abbrev pub start_after : CaRingBuffer → ℕ → ℕ
start_after r end' = max (start_time r) (end' - r.capacity_frames)

-- What makes room for a write that does not go back: frames that are too old are dropped.
pub record MakesRoom (k : Constants) (r : CaRingBuffer) (blocks : List (List ℕ)) (start end' : ℕ)
    : Type 0 where
  pub room : CaRingBuffer
  pub is : make_room r start end' ≡ room
  pub leaves : Leaves k r room blocks (start_after r end') (max (start_after r end') (end_time r))
  pub kept :
      timeline room
      ≡ dropped ((start_after r end' - start_time r) * r.format.bytes_per_frame) (timeline r)

module _ {k : Constants} {r : CaRingBuffer} {blocks : List (List ℕ)} (v : Holds k r blocks) where
  abbrev cap : ℕ
  cap = r.capacity_frames

  abbrev bpf : ℕ
  bpf = r.format.bytes_per_frame

  room_near :
      (start end' : ℕ)
      → end_time r ≤ start
      → end' ≤ start_time r + cap
      → MakesRoom k r blocks start end'
  unfolding make_room
  room_near start end' forward near =
      let forward' : ltb start (end_time r) ≡ false = ground arith in
      let near' : leb end' (start_time r + cap) ≡ true = ground arith in
      let from : start_time r ≡ start_after r end' = omega arith in
      let until : end_time r ≡ max (start_after r end') (end_time r) =
        omega (arith, v.timed.ordered) in
      let kept_all : (start_after r end' - start_time r) * bpf ≡ 0 =
        let none_old : start_after r end' - start_time r ≡ 0 = omega arith in
        ap (λ (i : ℕ). i * bpf) none_old ∙ zero-mul bpf in
      record {
        room = r;
        is = rw (forward', near') refl;
        leaves = record {
          holds = v;
          from = from;
          until = until;
          same_format = refl;
          same_capacity = refl;
          row = timeline-frames v ∙ ap₂ (λ t u. frames_between cap bpf t u blocks) from until;
        };
        kept = dropped_zero (timeline r) ∙ ap (λ i. dropped i (timeline r)) (sym kept_all);
      }

  -- The frames from a later time on.
  frames_later :
      (t : ℕ)
      → start_time r ≤ t
      → frames_between cap bpf t (max t (end_time r)) blocks
        ≡ dropped ((t - start_time r) * bpf) (timeline r)
  frames_later t le =
      let from = start_time r in
      let d = t - from in
      let n = end_time r - from in
      let positive : 0 < cap = omega (arith, v.capacity.at_least) in
      let inside : from % cap * bpf < cap * bpf =
        mul-lt-mul_of_pos_right {m = from % cap} {n = cap} {k = bpf} (mod-lt from positive)
          v.frame_size in
      let fits : n ≤ cap = omega (arith, v.timed.fits) in
      elim (Bool-cases (leb t (end_time r))) [
        | inl some_left ↦
            let split : from + d ≡ t = omega arith in
            let d_fits : d ≤ n = ground arith in
            let place : t % cap * bpf ≡ wrap (cap * bpf) (from % cap * bpf + d * bpf) =
              ap (λ (i : ℕ). i % cap * bpf) (sym split)
              ∙ offset-later cap from d bpf positive v.frame_size (omega arith) in
            let left : (max t (end_time r) - t) * bpf ≡ n * bpf - d * bpf =
              let left' : max t (end_time r) - t ≡ n - d = ground arith in
              ap (λ (i : ℕ). i * bpf) left' ∙ sub-mul_frame d n bpf d_fits in
            ap₂ (λ p l. segments (cap * bpf) p l blocks) place left
            ∙ sym (
                dropped-segments (cap * bpf) (from % cap * bpf) (n * bpf) (d * bpf) blocks inside
                  (mul-le-mul_right bpf d_fits) (mul-le-mul_right bpf fits))
            ∙ ap (dropped (d * bpf)) (sym (timeline-frames v))
        | inr none_left ↦
            let nothing : (max t (end_time r) - t) * bpf ≡ 0 =
              let e : max t (end_time r) - t ≡ 0 = ground arith in
              ap (λ (i : ℕ). i * bpf) e ∙ zero-mul bpf in
            let more : n ≤ d = ground arith in
            ap (λ l. segments (cap * bpf) (t % cap * bpf) l blocks) nothing
            ∙ dropped_all (cap * bpf) (from % cap * bpf) (t % cap * bpf) (n * bpf) (d * bpf) blocks
                (mul-le-mul_right bpf more)
            ∙ ap (dropped (d * bpf)) (sym (timeline-frames v))
      ]

  room_far :
      (start end' : ℕ)
      → end_time r ≤ start
      → start_time r + cap < end'
      → end' ≤ start + cap
      → MakesRoom k r blocks start end'
  unfolding make_room
  room_far start end' forward far fits =
      let forward' : ltb start (end_time r) ≡ false = ground arith in
      let far' : leb end' (start_time r + cap) ≡ false = ground arith in
      let t = end' - cap in
      let from : t ≡ start_after r end' = omega arith in
      let l =
        set_time_bounds-Leaves v t (max t (end_time r)) (omega arith)
          (omega (arith, v.timed.fits)) in
      record {
        room = set_time_bounds r t (max t (end_time r));
        is = rw (forward', far') refl;
        leaves = record {
          holds = l.holds;
          from = l.from ∙ from;
          until = l.until ∙ ap (λ (i : ℕ). max i (end_time r)) from;
          same_format = l.same_format;
          same_capacity = l.same_capacity;
          row = l.row ∙ ap (λ i. frames_between cap bpf i (max i (end_time r)) blocks) from;
        };
        kept =
            l.row
            ∙ frames_later t (omega arith)
            ∙ ap (λ (i : ℕ). dropped ((i - start_time r) * bpf) (timeline r)) from;
      }

  pub make_room-MakesRoom :
      (start end' : ℕ) → end_time r ≤ start → end' ≤ start + cap → MakesRoom k r blocks start end'
  make_room-MakesRoom start end' forward fits = elim (Bool-cases (leb end' (start_time r + cap))) [
    | inl near ↦ room_near start end' forward (ground arith)
    | inr far ↦ room_far start end' forward (ground arith) fits
  ]
