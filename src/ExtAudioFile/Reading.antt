-- ===== src/ExtAudioFile/Reading.antt =====
-- `Read` of an extended audio file into a buffer list.
use mathlib.Core.Path.{subst}
use cxxaudio_utilities.Base.{
  ℕ, ◌*◌, ◌≤◌, ◌<◌, ◌≡◌, refl, sym, ◌>>=◌, arith, inl, inr, Bool-cases, Option, some, true, false,
  ltb, List, ◌==◌, Result, thrown, done, system_error,
}
use cxxaudio_utilities.BufferList.{AudioBuffer, BufferList, reset, set_sizes, set_frame_length}
use cxxaudio_utilities.BufferList.Frames.{
  heads, contents-heads, AllWide, AllWide-set_sizes, Holds, Leaves, byte_size,
  set_frame_length-Leaves,
}
use cxxaudio_utilities.ExtAudioFile.{ReadResult, finish_read, read_buffer}

-- What the system's call keeps to: it delivers at most as many frames as are asked for, into
-- buffers whose memory stays as large as it was.
abbrev pub Fills : (ℕ → List AudioBuffer → ReadResult) → ℕ → Type 0
Fills read size =
    (n : ℕ) (bufs : List AudioBuffer)
    → AllWide size bufs
    → ((read n bufs).frames ≤ n) × AllWide size (read n bufs).buffers

-- What the system answers when it is asked for as many frames as the capacity, with the buffers of
-- the list, whose sizes are those of that many frames.
abbrev pub asked : (ℕ → List AudioBuffer → ReadResult) → BufferList → List AudioBuffer → ReadResult
asked read b bufs =
    read b.frame_capacity (set_sizes (b.frame_capacity * b.format.bytes_per_frame) bufs)

-- What reading into a list with the buffers `bufs` ends with: the frames that were read are the
-- contents, or an exception with the status, and a length that is the whole capacity.
pub data Reading (read : ℕ → List AudioBuffer → ReadResult) (b : BufferList)
    (bufs : List AudioBuffer) : Option (Result (Unit {0}) × BufferList) → Type 0 where
  filled :
      (b' : BufferList)
      → (asked read b bufs).status ≡ 0
      → Leaves b b' (asked read b bufs).frames (
          heads ((asked read b bufs).frames * b.format.bytes_per_frame) (asked read b bufs).buffers)
      → Reading read b bufs (some (done tt, b'))
  failed :
      (b' : BufferList) (status : ℕ)
      → (asked read b bufs).status ≡ status
      → 0 < status
      → Leaves b b' b.frame_capacity
          (heads (b.frame_capacity * b.format.bytes_per_frame) (asked read b bufs).buffers)
      → Reading read b bufs (some (thrown (system_error status), b'))

module _ (read : ℕ → List AudioBuffer → ReadResult) {b : BufferList} {bufs : List AudioBuffer}
    (v : Holds b bufs) where
  -- The list after `Reset`.
  abbrev sizes : List AudioBuffer
  sizes = set_sizes (b.frame_capacity * b.format.bytes_per_frame) bufs

  abbrev ready : BufferList
  ready = record b { list = some sizes; frame_length = b.frame_capacity }

  reset-ready : reset b ≡ (true, ready)
  unfolding reset set_frame_length
  reset-ready =
      let fits : ltb b.frame_capacity b.frame_capacity ≡ false = ground arith in
      rw (v.allocated, fits, byte_size v b.frame_capacity (omega arith)) refl

  -- With the buffers that the system has filled.
  abbrev received : BufferList
  received = record ready { list = some (asked read b bufs).buffers }

  received-Holds :
      AllWide (b.frame_capacity * b.format.bytes_per_frame) (asked read b bufs).buffers
      → Holds received (asked read b bufs).buffers
  received-Holds wide = record {
    allocated = refl;
    wide = wide;
    bytes_fit = v.bytes_fit;
    frames_fit = v.frames_fit;
    within = omega arith;
  }

  -- The end of the call.
  finish_read-Reading :
      Fills read (b.frame_capacity * b.format.bytes_per_frame)
      → Reading read b bufs (some (finish_read (asked read b bufs) ready))
  unfolding finish_read
  finish_read-Reading fills =
      let r = asked read b bufs in
      let fill = fills b.frame_capacity sizes (AllWide-set_sizes _ _ bufs v.wide) in
      let h = received-Holds fill.1 in
      elim (Bool-cases (r.status == 0)) [
        | inl ok ↦
            let l = set_frame_length-Leaves h r.frames fill.0 in
            let out : Leaves b (set_frame_length received r.frames).1 r.frames
                (heads (r.frames * b.format.bytes_per_frame) r.buffers) =
              record {
                buffers = l.buffers;
                holds = l.holds;
                now = l.now;
                new_length = l.new_length;
                same_format = l.same_format;
                same_capacity = l.same_capacity;
              } in
            rw ok (Reading.filled (set_frame_length received r.frames).1 (ground arith) out)
        | inr bad ↦
            let out : Leaves b received b.frame_capacity
                (heads (b.frame_capacity * b.format.bytes_per_frame) r.buffers) =
              record {
                buffers = r.buffers;
                holds = h;
                now = contents-heads h;
                new_length = refl;
                same_format = refl;
                same_capacity = refl;
              } in
            rw bad (Reading.failed received r.status refl (ground arith) out)
      ]

  -- `Read` into an allocated buffer list hands the system the buffers of the list, each with the
  -- size of the capacity, and asks for as many frames as the capacity. With a system that delivers
  -- at most that many, into memory of the same size, it returns with the frames read as the
  -- contents; or it throws a `system_error` with the status, and then the length of the buffer list
  -- is its capacity, whatever was read.
  pub read_buffer-Reading :
      Fills read (b.frame_capacity * b.format.bytes_per_frame)
      → Reading read b bufs (read_buffer read b)
  unfolding read_buffer
  read_buffer-Reading fills =
      subst
        (λ x.
          Reading read b bufs
            (x.1.list >>= λ bufs'. some (finish_read (read x.1.frame_capacity bufs') x.1)))
        (sym reset-ready) (finish_read-Reading fills)
