-- ===== src/AudioRingBuffer/Advance.antt =====
-- What moving a pointer of the audio ring buffer does to the audio that waits in every channel.
use native.Mathlib.Nat.{add-mul, mul-lt-mul_of_pos_right, mul-le-mul_right}
use cxxaudio_utilities.Base.{
  ℕ, ◌+◌, ◌-◌, ◌*◌, ◌≤◌, ◌<◌, ◌≡◌, refl, sym, ap, ap₂, ◌∙◌, arith, some, List, add32, bit_and,
}
use cxxaudio_utilities.BufferList.{AudioBuffer}
use cxxaudio_utilities.RingBuffer.Invariant.{stored, wrap, mask-wrap}
use cxxaudio_utilities.RingBuffer.Invariant as Ring
use cxxaudio_utilities.AudioRingBuffer.{AudioRingBuffer, frames_available_to_read}
use cxxaudio_utilities.AudioRingBuffer.Channels.{segments, appended}
use cxxaudio_utilities.AudioRingBuffer.Fronts.{dropped, dropped-segments}
use cxxaudio_utilities.AudioRingBuffer.Frames.{
  Holds, positions, channels, channels-segments, frames_available_to_read-stored, sub-mul_frame,
  wrap-mul,
}
use cxxaudio_utilities.AudioRingBuffer.Copies.{CopiedIn}

-- What a transfer leaves: the blocks, the number of frames that wait, the audio of every channel,
-- the format and the capacity.
pub record Leaves (r r' : AudioRingBuffer) (blocks : List (List ℕ)) (frames : ℕ) (q : List (List ℕ))
    : Type 0 where
  pub holds : Holds r' blocks
  pub waits : frames_available_to_read r' ≡ frames
  pub now : channels r' ≡ q
  pub same_format : r'.format ≡ r.format
  pub same_capacity : r'.capacity_frames ≡ r.capacity_frames

module _ {r : AudioRingBuffer} {blocks : List (List ℕ)} (v : Holds r blocks) where
  abbrev bpf : ℕ
  bpf = r.format.bytes_per_frame

  abbrev cap : ℕ
  cap = r.capacity_frames

  abbrev waiting : ℕ
  waiting = stored (positions r)

  -- Moving the read pointer by `n` of the frames that wait drops them from every channel.
  pub advance_read-Leaves :
      (n : ℕ)
      → n ≤ waiting
      → Leaves r
          (record r { read_pointer = bit_and (add32 r.read_pointer n) r.capacity_frames_mask })
          blocks
          (frames_available_to_read r - n)
          (dropped (n * bpf) (channels r))
  advance_read-Leaves n le =
      let p = wrap cap (r.read_pointer + n) in
      let sum : add32 r.read_pointer n ≡ r.read_pointer + n = ground arith in
      let moved : bit_and (add32 r.read_pointer n) r.capacity_frames_mask ≡ p =
        rw sum (mask-wrap (r.read_pointer + n) v.placed.capacity v.placed.mask (ground arith)) in
      let r' = record r { read_pointer = p } in
      let placed' : Ring.Holds (positions r') _ = record {
        allocated = refl;
        size = v.placed.size;
        capacity = v.placed.capacity;
        mask = v.placed.mask;
        read_in = ground arith;
        write_in = v.placed.write_in;
      } in
      let v' : Holds r' blocks = record {
        allocated = v.allocated;
        channel_count = v.channel_count;
        sized = v.sized;
        placed = placed';
        frame_size = v.frame_size;
        small = v.small;
      } in
      let left' : stored (positions r') ≡ waiting - n = ground arith in
      let left : stored (positions r') * bpf ≡ waiting * bpf - n * bpf =
        ap (λ (i : ℕ). i * bpf) left' ∙ sub-mul_frame n waiting bpf le in
      let start : p * bpf ≡ wrap (cap * bpf) (r.read_pointer * bpf + n * bpf) =
        sym (wrap-mul cap (r.read_pointer + n) bpf v.frame_size)
        ∙ ap (wrap (cap * bpf)) (add-mul r.read_pointer n bpf) in
      let inside : r.read_pointer * bpf < cap * bpf =
        mul-lt-mul_of_pos_right {m = r.read_pointer} {n = cap} {k = bpf} v.placed.read_in
          v.frame_size in
      let below : waiting ≤ cap = ground arith in
      rw moved (record {
        holds = v';
        waits =
            frames_available_to_read-stored v'
            ∙ left'
            ∙ ap (λ (i : ℕ). i - n) (sym (frames_available_to_read-stored v));
        now =
            channels-segments v'
            ∙ ap₂ (λ s l. segments (cap * bpf) s l blocks) start left
            ∙ sym (
                dropped-segments (cap * bpf) (r.read_pointer * bpf) (waiting * bpf) (n * bpf) blocks
                  inside (mul-le-mul_right bpf le) (mul-le-mul_right bpf below))
            ∙ ap (dropped (n * bpf)) (sym (channels-segments v));
        same_format = refl;
        same_capacity = refl;
      })

  -- Storing `n` frames behind the audio that waits, and moving the write pointer, appends them.
  pub advance_write-Leaves :
      (list : List AudioBuffer) (n : ℕ)
      → n ≤ cap - 1 - waiting
      → (c : CopiedIn r blocks list n)
      → Leaves r
          (record r {
            buffers = some c.out;
            write_pointer = bit_and (add32 r.write_pointer n) r.capacity_frames_mask;
          })
          c.out
          (frames_available_to_read r + n)
          (appended (n * bpf) (channels r) list)
  advance_write-Leaves list n le c =
      let p = wrap cap (r.write_pointer + n) in
      let sum : add32 r.write_pointer n ≡ r.write_pointer + n = ground arith in
      let moved : bit_and (add32 r.write_pointer n) r.capacity_frames_mask ≡ p =
        rw sum (mask-wrap (r.write_pointer + n) v.placed.capacity v.placed.mask (ground arith)) in
      let r' = record r { buffers = some c.out; write_pointer = p } in
      let placed' : Ring.Holds (positions r') _ = record {
        allocated = refl;
        size = v.placed.size;
        capacity = v.placed.capacity;
        mask = v.placed.mask;
        read_in = v.placed.read_in;
        write_in = ground arith;
      } in
      let v' : Holds r' c.out = record {
        allocated = refl;
        channel_count = c.grown.same_count ∙ v.channel_count;
        sized = c.grown.sized;
        placed = placed';
        frame_size = v.frame_size;
        small = v.small;
      } in
      let more' : stored (positions r') ≡ waiting + n = ground arith in
      let more : stored (positions r') * bpf ≡ waiting * bpf + n * bpf =
        ap (λ (i : ℕ). i * bpf) more' ∙ add-mul waiting n bpf in
      rw moved (record {
        holds = v';
        waits =
            frames_available_to_read-stored v'
            ∙ more'
            ∙ ap (λ (i : ℕ). i + n) (sym (frames_available_to_read-stored v));
        now =
            channels-segments v'
            ∙ ap (λ l. segments (cap * bpf) (r.read_pointer * bpf) l c.out) more
            ∙ c.grown.rows
            ∙ ap (λ q. appended (n * bpf) q list) (sym (channels-segments v));
        same_format = refl;
        same_capacity = refl;
      })
