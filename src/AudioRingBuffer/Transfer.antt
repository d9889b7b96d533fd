-- ===== src/AudioRingBuffer/Transfer.antt =====
-- What `Read` and `Write` of the audio ring buffer do on every branch, in terms of the audio that
-- waits in every channel.
use mathlib.Core.List.{append-nil}
use native.Mathlib.Nat.{mul-pos, zero-mul}
use cxxaudio_utilities.Base.{
  ℕ, ◌+◌, ◌-◌, ◌*◌, ◌≤◌, ◌<◌, ◌≡◌, refl, sym, ap, ap₂, arith, inl, inr, Bool, Bool-cases, some,
  List, [], ◌∷◌, length, mul32, add32, bit_and, if◌then◌else◌, ◌==◌, true, false, ◌||◌, min,
}
use cxxaudio_utilities.BufferList.{AudioBuffer, set_sizes}
use cxxaudio_utilities.ByteQueue.{transferred}
use cxxaudio_utilities.RingBuffer as Bytes
use cxxaudio_utilities.RingBuffer.Transfer.{early-transferred, late-transferred}
use cxxaudio_utilities.RingBuffer.Copies.{length-segment}
use cxxaudio_utilities.RingBuffer.Invariant.{stored}
use cxxaudio_utilities.AudioRingBuffer.{
  AudioRingBuffer, read, write, refuses, frames_available_to_read, frames_available_to_write,
}
use cxxaudio_utilities.AudioRingBuffer.Channels.{AllHave, AllSized, segments, appended}
use cxxaudio_utilities.AudioRingBuffer.Fronts.{delivered, dropped}
use cxxaudio_utilities.AudioRingBuffer.Frames.{
  Holds, positions, channels, channels-segments, frames_available_to_read-stored,
  frames_available_to_write-free,
}
use cxxaudio_utilities.AudioRingBuffer.Copies.{copy_in-CopiedIn, copy_out-delivered, mul32_eq}
use cxxaudio_utilities.AudioRingBuffer.Advance.{Leaves, advance_read-Leaves, advance_write-Leaves}

-- The list that `Read` leaves after `n` bytes of every channel: one that it hands nothing is as it
-- was, its sizes included.
abbrev pub handed : ℕ → List (List ℕ) → List AudioBuffer → List AudioBuffer
handed n q list = if n == 0 then list else set_sizes n (delivered n q list)

pub dropped_zero : (q : List (List ℕ)) → q ≡ dropped 0 q
dropped_zero [] = refl
dropped_zero (c ∷ cs) = ap (◌∷◌ c) (dropped_zero cs)

appended_zero : (q : List (List ℕ)) (list : List AudioBuffer) → q ≡ appended 0 q list
appended_zero [] [] = refl
appended_zero [] (a ∷ as') = refl
appended_zero (c ∷ cs) [] = refl
appended_zero (c ∷ cs) (a ∷ as') = ap₂ ◌∷◌ (sym (append-nil c)) (appended_zero cs as')

early :
    (available n : ℕ) (allow : Bool)
    → (n == 0) || refuses available n allow ≡ true
    → transferred available n allow ≡ 0
unfolding refuses Bytes.refuses
early available n allow h = early-transferred available n allow h

late :
    (available n : ℕ) (allow : Bool)
    → (n == 0) || refuses available n allow ≡ false
    → transferred available n allow ≡ min available n
unfolding refuses Bytes.refuses
late available n allow h = late-transferred available n allow h

late_pos :
    (available n : ℕ) (allow : Bool)
    → (n == 0) || refuses available n allow ≡ false
    → 0 < min available n
unfolding refuses
late_pos available n allow h = ground arith

segments-AllSized : (c p n : ℕ) (blocks : List (List ℕ)) → AllSized n (segments c p n blocks)
segments-AllSized c p n [] = tt
segments-AllSized c p n (b ∷ bs) = (length-segment b c p n, segments-AllSized c p n bs)

module _ {r : AudioRingBuffer} {blocks : List (List ℕ)} (v : Holds r blocks) where
  abbrev bpf : ℕ
  bpf = r.format.bytes_per_frame

  abbrev waiting : ℕ
  waiting = stored (positions r)

  -- On an allocated audio ring buffer every channel has the same audio waiting, as many bytes as
  -- `FramesAvailableToRead` says there are frames, and that count and the one of
  -- `FramesAvailableToWrite` add up to one frame less than the capacity.
  pub frames_available-AllSized :
      AllSized (frames_available_to_read r * bpf) (channels r)
      × (frames_available_to_read r + frames_available_to_write r + 1 ≡ r.capacity_frames)
  frames_available-AllSized =
      rw (channels-segments v, frames_available_to_read-stored v, frames_available_to_write-free v)
        (
          segments-AllSized (r.capacity_frames * bpf) (r.read_pointer * bpf) (waiting * bpf) blocks,
          ground arith,
        )

  -- `Read` of `n` frames from an allocated audio ring buffer, into a list of as many buffers as
  -- there are channels, each with room for the frames that are handed out: it reports the number
  -- `k` of frames that a queue with the frames available would hand out, copies the first `k`
  -- frames of every channel to the buffer of that channel and sets its size to theirs, drops them
  -- from the channel, and leaves the list as it was when `k` is 0. Afterwards `k` frames less are
  -- available.
  pub audio_read_lem :
      (list : List AudioBuffer) (n : ℕ) (allow : Bool)
      → length list ≡ length blocks
      → AllHave (transferred (frames_available_to_read r) n allow * bpf) list
      → let k = transferred (frames_available_to_read r) n allow in
        (r' : AudioRingBuffer) × (read r (some list) n allow
          ≡ some (k, some (handed (k * bpf) (channels r) list), r'))
        × Leaves r r' blocks (frames_available_to_read r - k) (dropped (k * bpf) (channels r))
  unfolding read
  audio_read_lem list n allow same have =
      let a = frames_available_to_read r in
      let k = min a n in
      elim (Bool-cases ((n == 0) || refuses a n allow)) [
        | inl e ↦
            rw (e, early a n allow e, zero-mul bpf)
              (
                r,
                refl,
                record {
                  holds = v;
                  waits = omega arith;
                  now = dropped_zero (channels r);
                  same_format = refl;
                  same_capacity = refl;
                },
              )
        | inr l ↦
            let have' : AllHave (k * bpf) list = rw (sym (late a n allow l)) have in
            let le : k ≤ waiting = omega (arith, frames_available_to_read-stored v) in
            let below : waiting ≤ r.capacity_frames = ground arith in
            let bytes : mul32 k bpf ≡ k * bpf =
              mul32_eq k r.capacity_frames bpf (omega arith) v.small in
            let pos : 0 < k * bpf = mul-pos (late_pos a n allow l) v.frame_size in
            let some_bytes : (k * bpf == 0) ≡ false = ground arith in
            let copied = copy_out-delivered v list k le same have' in
            rw (l, late a n allow l)
              (
                record r { read_pointer = bit_and (add32 r.read_pointer k) r.capacity_frames_mask },
                simp (v.allocated, copied, bytes, some_bytes),
                advance_read-Leaves v k le,
              )
      ]

  -- `Write` of `n` frames to an allocated audio ring buffer, from a list of as many buffers as there
  -- are channels, each with the frames that are taken: it reports the number `k` of frames that a
  -- queue with the frames available would take, and appends the first `k` frames of every buffer
  -- to its channel. Afterwards `k` frames more are available.
  pub audio_write_lem :
      (list : List AudioBuffer) (n : ℕ) (allow : Bool)
      → length list ≡ length blocks
      → AllHave (transferred (frames_available_to_write r) n allow * bpf) list
      → let k = transferred (frames_available_to_write r) n allow in
        (r' : AudioRingBuffer) × (blocks' : List (List ℕ)) × (write r (some list) n allow
          ≡ some (k, r'))
        × Leaves r r' blocks'
            (frames_available_to_read r + k)
            (appended (k * bpf) (channels r) list)
  unfolding write
  audio_write_lem list n allow same have =
      let a = frames_available_to_write r in
      let k = min a n in
      elim (Bool-cases ((n == 0) || refuses a n allow)) [
        | inl e ↦
            rw (e, early a n allow e, zero-mul bpf)
              (
                r,
                blocks,
                refl,
                record {
                  holds = v;
                  waits = omega arith;
                  now = appended_zero (channels r) list;
                  same_format = refl;
                  same_capacity = refl;
                },
              )
        | inr l ↦
            let have' : AllHave (k * bpf) list = rw (sym (late a n allow l)) have in
            let le : k ≤ r.capacity_frames - 1 - waiting =
              omega (arith, frames_available_to_write-free v) in
            let c = copy_in-CopiedIn v list k le same have' in
            rw (l, late a n allow l)
              (
                record r {
                  buffers = some c.out;
                  write_pointer = bit_and (add32 r.write_pointer k) r.capacity_frames_mask;
                },
                c.out,
                simp (v.allocated, c.returns),
                advance_write-Leaves v list k le c,
              )
      ]
