-- ===== src/AudioRingBuffer/Refine.antt =====
-- A caller cannot tell an allocated audio ring buffer from a bounded queue of frames with a row of
-- bytes for every channel.
use native.Mathlib.Nat.{mul-le-mul_right, zero-mul}
use cxxaudio_utilities.Base.{
  ℕ, ◌+◌, ◌-◌, ◌*◌, ◌≤◌, ◌≡◌, refl, sym, ap, ap₂, ◌∙◌, arith, Bool, Option, none, some, List, [],
  ◌∷◌, length, ◌>>=◌,
}
use cxxaudio_utilities.BufferList.{AudioBuffer}
use cxxaudio_utilities.ByteQueue.{transferred}
use cxxaudio_utilities.RingBuffer.Copies.{segment}
use cxxaudio_utilities.AudioRingBuffer.{
  AudioRingBuffer, read, write, reset, frames_available_to_read, frames_available_to_write,
}
use cxxaudio_utilities.AudioRingBuffer.Channels.{AllHave, segments, appended}
use cxxaudio_utilities.AudioRingBuffer.Fronts.{dropped}
use cxxaudio_utilities.AudioRingBuffer.Frames.{
  Holds, channels, channels-segments, frames_available_to_read-stored,
}
use cxxaudio_utilities.AudioRingBuffer.Advance.{Leaves}
use cxxaudio_utilities.AudioRingBuffer.Allocation.{audio_reset_lem}
use cxxaudio_utilities.AudioRingBuffer.Transfer.{
  handed, frames_available-AllSized, audio_read_lem, audio_write_lem,
}

-- What a caller asks of the queue: a buffer list, a number of frames, and whether fewer will do.
pub data Request : Type 0 where
  store : List AudioBuffer → ℕ → Bool → Request
  fetch : List AudioBuffer → ℕ → Bool → Request
  clear : Request

-- What it is told: a number of frames, and its buffer list afterwards.
pub data Reply : Type 0 where
  stored : ℕ → Reply
  fetched : ℕ → List AudioBuffer → Reply
  done : Reply

-- The frames that wait, and their bytes in every channel.
pub record Queue : Type 0 where
  pub frames : ℕ
  pub rows : List (List ℕ)

abbrev emptied : List (List ℕ) → List (List ℕ)
emptied [] = []
emptied (row ∷ rows) = [] ∷ emptied rows

-- The answer to a request, and the queue after it, with `limit` frames at most of `bpf` bytes each.
unfoldable pub serve : ℕ → ℕ → Queue → Request → Reply × Queue
serve limit bpf q (store list n allow) =
    let k = transferred (limit - q.frames) n allow in
    (stored k, record { frames = q.frames + k; rows = appended (k * bpf) q.rows list })
serve limit bpf q (fetch list n allow) =
    let k = transferred q.frames n allow in
    (
      fetched k (handed (k * bpf) q.rows list),
      record { frames = q.frames - k; rows = dropped (k * bpf) q.rows },
    )
serve limit bpf q clear = (done, record { frames = 0; rows = emptied q.rows })

unfoldable pub serve_all : ℕ → ℕ → Queue → List Request → List Reply
serve_all limit bpf q [] = []
serve_all limit bpf q (a ∷ as') =
    let (reply, q') = serve limit bpf q a in reply ∷ serve_all limit bpf q' as'

-- The buffer list after a call that was given one.
abbrev list_of : Option (List AudioBuffer) → List AudioBuffer
list_of none = []
list_of (some list) = list

-- One call of a client.
pub call : AudioRingBuffer → Request → Option (Reply × AudioRingBuffer)
call r (store list n allow) = do (k, r') ← write r (some list) n allow; some (stored k, r')
call r (fetch list n allow) = do
  (k, list', r') ← read r (some list) n allow
  some (fetched k (list_of list'), r')
call r clear = some (done, reset r)

pub call_all : AudioRingBuffer → List Request → Option (List Reply)
call_all r [] = some []
call_all r (a ∷ as') = do (reply, r') ← call r a; replies ← call_all r' as'; some (reply ∷ replies)

-- A request passes a buffer for every channel, each with the frames that it asks for.
abbrev pub Fits : ℕ → ℕ → Request → Type 0
Fits bpf count (store list n allow) = (length list ≡ count) × AllHave (n * bpf) list
Fits bpf count (fetch list n allow) = (length list ≡ count) × AllHave (n * bpf) list
Fits bpf count clear = Unit

abbrev pub AllFit : ℕ → ℕ → List Request → Type 0
AllFit bpf count [] = Unit
AllFit bpf count (a ∷ as') = Fits bpf count a × AllFit bpf count as'

-- The queue that an audio ring buffer stands for.
abbrev pub queue : AudioRingBuffer → Queue
queue r = record { frames = frames_available_to_read r; rows = channels r }

AllHave-fewer : (m k : ℕ) (list : List AudioBuffer) → k ≤ m → AllHave m list → AllHave k list
AllHave-fewer m k [] le have = tt
AllHave-fewer m k (a ∷ as') le ((size, room, small), have) =
    ((omega arith, room, small), AllHave-fewer m k as' le have)

transferred_le : (possible n : ℕ) (allow : Bool) → transferred possible n allow ≤ n
unfolding transferred
transferred_le possible n allow = ground arith

enough :
    (possible n bpf : ℕ) (allow : Bool) (list : List AudioBuffer)
    → AllHave (n * bpf) list
    → AllHave (transferred possible n allow * bpf) list
enough possible n bpf allow list =
    AllHave-fewer (n * bpf) _ list (mul-le-mul_right bpf (transferred_le possible n allow))

segments-emptied :
    (cap p p' n k : ℕ) (blocks : List (List ℕ))
    → k ≡ 0
    → segments cap p k blocks ≡ emptied (segments cap p' n blocks)
segments-emptied cap p p' n k [] e = refl
segments-emptied cap p p' n k (b ∷ bs) e =
    ap₂ ◌∷◌ (ap (segment b cap p) e) (segments-emptied cap p p' n k bs e)

-- `Reset` leaves nothing waiting, and keeps the blocks.
reset-Leaves :
    {r : AudioRingBuffer} {blocks : List (List ℕ)}
    → Holds r blocks
    → Leaves r (reset r) blocks 0 (emptied (channels r))
unfolding reset
reset-Leaves {r} {blocks} v =
    let v' : Holds (reset r) blocks = (audio_reset_lem v).0 in
    record {
      holds = v';
      waits = frames_available_to_read-stored v';
      now =
          channels-segments v'
          ∙ segments-emptied _ _ _ _ _ blocks (zero-mul r.format.bytes_per_frame)
          ∙ ap emptied (sym (channels-segments v));
      same_format = refl;
      same_capacity = refl;
    }

-- What one call does: it returns the queue's reply, and leaves the queue's frames.
record Serves (r : AudioRingBuffer) (a : Request) : Type 0 where
  after : AudioRingBuffer
  blocks : List (List ℕ)
  returns :
      call r a
      ≡ some ((serve (r.capacity_frames - 1) r.format.bytes_per_frame (queue r) a).0, after)
  leaves :
      let q = (serve (r.capacity_frames - 1) r.format.bytes_per_frame (queue r) a).1 in
      Leaves r after blocks q.frames q.rows

call-Serves :
    {r : AudioRingBuffer} {blocks : List (List ℕ)} (a : Request)
    → Holds r blocks
    → Fits r.format.bytes_per_frame (length blocks) a
    → Serves r a
unfolding call serve
call-Serves {r} {blocks} (store list n allow) v (same, have) =
    let free : r.capacity_frames - 1 - frames_available_to_read r ≡ frames_available_to_write r =
      omega (arith, (frames_available-AllSized v).1) in
    let w = audio_write_lem v list n allow same (enough _ n _ allow list have) in
    record { after = w.0; blocks = w.1; returns = simp (free, w.2); leaves = rw free w.3 }
call-Serves {r} {blocks} (fetch list n allow) v (same, have) =
    let g = audio_read_lem v list n allow same (enough _ n _ allow list have) in
    record { after = g.0; blocks = blocks; returns = simp g.1; leaves = g.2 }
call-Serves {r} {blocks} clear v fits = record {
  after = reset r;
  blocks = blocks;
  returns = refl;
  leaves = reset-Leaves v;
}

-- No sequence of writes, reads and resets, with one buffer for every channel that has the frames
-- asked for, and either way of asking for partial transfers, tells an allocated audio ring buffer
-- from the queue that holds the frames waiting in it and takes one frame less than the capacity:
-- every call returns, with the queue's reply.
pub audio_call_all-serve_all :
    (as' : List Request) {r : AudioRingBuffer} {blocks : List (List ℕ)}
    → Holds r blocks
    → AllFit r.format.bytes_per_frame r.format.channels_per_frame as'
    → call_all r as'
      ≡ some (serve_all (r.capacity_frames - 1) r.format.bytes_per_frame (queue r) as')
unfolding call_all serve_all
audio_call_all-serve_all [] v fit = refl
audio_call_all-serve_all (a ∷ as') {r} v (fits, fit) =
    let s = call-Serves a v (rw v.channel_count fits) in
    let rest = audio_call_all-serve_all as' s.leaves.holds (rw s.leaves.same_format fit) in
    simp
      (s.returns, rest, s.leaves.waits, s.leaves.now, s.leaves.same_format, s.leaves.same_capacity)
