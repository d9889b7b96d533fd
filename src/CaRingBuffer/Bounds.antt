-- ===== src/CaRingBuffer/Bounds.antt =====
-- What setting the time bounds, and the first and the last part of `Write`, do to the audio between
-- the bounds.
use native.Mathlib.Nat.{add-mul}
use cxxaudio_utilities.Base.{
  ℕ, ◌+◌, ◌-◌, ◌*◌, ◌%◌, ◌≤◌, ◌<◌, ◌≡◌, refl, sym, ap, ap₂, ◌∙◌, arith, Option, some, List, Bool,
  true, length, ◌>>=◌,
}
use cxxaudio_utilities.StreamDescription.{Constants}
use cxxaudio_utilities.BufferList.{AudioBuffer}
use cxxaudio_utilities.AudioRingBuffer.Channels.{AllSized, AllHave, segments, appended}
use cxxaudio_utilities.CaRingBuffer.{
  CaRingBuffer, start_time, end_time, set_time_bounds, clear_skipped, store_frames,
}
use cxxaudio_utilities.CaRingBuffer.Times.{set_time_bounds-IsBetween}
use cxxaudio_utilities.CaRingBuffer.Timeline.{Holds, timeline, timeline-frames, frames_between}
use cxxaudio_utilities.CaRingBuffer.Silence.{quieted}
use cxxaudio_utilities.CaRingBuffer.Storing.{clear_skipped-SilentUpTo, store_frames-Recorded}

-- An object with the blocks, the bounds, the format and the capacity given.
pub record Leaves (k : Constants) (r r' : CaRingBuffer) (blocks : List (List ℕ)) (start end' : ℕ)
    : Type 0 where
  pub holds : Holds k r' blocks
  pub from : start_time r' ≡ start
  pub until : end_time r' ≡ end'
  pub same_format : r'.format ≡ r.format
  pub same_capacity : r'.capacity_frames ≡ r.capacity_frames
  pub row :
      timeline r' ≡ frames_between r.capacity_frames r.format.bytes_per_frame start end' blocks

pub set_time_bounds-Leaves :
    {k : Constants} {r : CaRingBuffer} {blocks : List (List ℕ)}
    → Holds k r blocks
    → (start end' : ℕ) → start ≤ end'
    → end' ≤ start + r.capacity_frames
    → Leaves k r (set_time_bounds r start end') blocks start end'
unfolding set_time_bounds
set_time_bounds-Leaves {k} {r} {blocks} v start end' le fits =
    let b = set_time_bounds-IsBetween v.timed start end' le fits in
    let h : Holds k (set_time_bounds r start end') blocks = record {
      allocated = v.allocated;
      streams = v.streams;
      sized = v.sized;
      capacity = v.capacity;
      mask = v.mask;
      frame_size = v.frame_size;
      small = v.small;
      timed = b.timed;
    } in
    record {
      holds = h;
      from = b.from;
      until = b.until;
      same_format = refl;
      same_capacity = refl;
      row =
          timeline-frames h
          ∙ ap₂ (λ t u. frames_between r.capacity_frames r.format.bytes_per_frame t u blocks) b.from
              b.until;
    }

-- Other blocks of the same sizes.
with_blocks :
    {k : Constants} {r : CaRingBuffer} {blocks : List (List ℕ)}
    → Holds k r blocks
    → (out : List (List ℕ)) → AllSized (r.capacity_frames * r.format.bytes_per_frame) out
    → length out ≡ length blocks
    → Holds k (record r { buffers = some out }) out
with_blocks v out sized same = record {
  allocated = refl;
  streams = v.streams ∙ sym same;
  sized = sized;
  capacity = v.capacity;
  mask = v.mask;
  frame_size = v.frame_size;
  small = v.small;
  timed = record {
    size = v.timed.size;
    current = v.timed.current;
    ordered = v.timed.ordered;
    fits = v.timed.fits;
  };
}

-- What `Write` does once there is room.
abbrev pub write_in :
    Constants
    → CaRingBuffer
    → List (List ℕ)
    → List AudioBuffer
    → ℕ
    → ℕ
    → Option (Bool × CaRingBuffer)
write_in k r blocks list start end' = clear_skipped k r blocks start >>= λ blocks'.
    store_frames r blocks' list start end' >>= λ blocks''.
    some (true, set_time_bounds (record r { buffers = some blocks'' }) (start_time r) end')

-- The result: silence up to the time of the write, and then its frames.
pub record Written (k : Constants) (r : CaRingBuffer) (blocks : List (List ℕ))
    (list : List AudioBuffer) (start end' : ℕ) : Type 0 where
  pub out : CaRingBuffer
  pub blocks' : List (List ℕ)
  pub returns : write_in k r blocks list start end' ≡ some (true, out)
  pub leaves : Leaves k r out blocks' (start_time r) end'
  pub now :
      timeline out
      ≡ appended
          ((end' - start) * r.format.bytes_per_frame)
          (quieted ((start - end_time r) * r.format.bytes_per_frame) (timeline r))
          list

pub write_in-Written :
    {k : Constants} {r : CaRingBuffer} {blocks : List (List ℕ)}
    → Holds k r blocks
    → (list : List AudioBuffer) (start end' : ℕ) → end_time r ≤ start
    → start < end'
    → end' ≤ start_time r + r.capacity_frames
    → length list ≡ length blocks
    → AllHave ((end' - start) * r.format.bytes_per_frame) list
    → Written k r blocks list start end'
write_in-Written {k} {r} {blocks} v list start end' after lt near same have =
    let bpf = r.format.bytes_per_frame in
    let cap = r.capacity_frames in
    let from = start_time r in
    let s = clear_skipped-SilentUpTo v start after (omega arith) in
    let w =
      store_frames-Recorded v s.out list start end' (omega (arith, v.timed.ordered)) lt near
        (omega (arith, same, s.quieted_by.same_count)) s.quieted_by.sized have in
    let h = with_blocks v w.out w.grown.sized (w.grown.same_count ∙ s.quieted_by.same_count) in
    let l = set_time_bounds-Leaves h from end' (omega (arith, v.timed.ordered)) near in
    let sum : (end' - from) * bpf ≡ (start - from) * bpf + (end' - start) * bpf =
      let split : end' - from ≡ start - from + (end' - start) = omega (arith, v.timed.ordered) in
      ap (λ (i : ℕ). i * bpf) split ∙ add-mul (start - from) (end' - start) bpf in
    let sum' : (start - from) * bpf ≡ (end_time r - from) * bpf + (start - end_time r) * bpf =
      let split : start - from ≡ end_time r - from + (start - end_time r) =
        omega (arith, v.timed.ordered) in
      ap (λ (i : ℕ). i * bpf) split ∙ add-mul (end_time r - from) (start - end_time r) bpf in
    let store : List (List ℕ) → Option (Bool × CaRingBuffer) =
      λ b. some (true, set_time_bounds (record r { buffers = some b }) from end') in
    record {
      out = set_time_bounds (record r { buffers = some w.out }) from end';
      blocks' = w.out;
      returns =
          ap (λ o. o >>= λ b. store_frames r b list start end' >>= store) s.returns
          ∙ ap (λ o. o >>= store) w.returns;
      leaves = record {
        holds = l.holds;
        from = l.from;
        until = l.until;
        same_format = l.same_format;
        same_capacity = l.same_capacity;
        row = l.row;
      };
      now =
          l.row
          ∙ ap (λ i. segments (cap * bpf) (from % cap * bpf) i w.out) sum
          ∙ w.grown.rows
          ∙ ap (λ q. appended ((end' - start) * bpf) q list)
              (ap (λ i. segments (cap * bpf) (from % cap * bpf) i s.out) sum'
                ∙ s.quieted_by.rows
                ∙ ap (quieted ((start - end_time r) * bpf)) (sym (timeline-frames v)));
    }
