-- ===== src/BufferList/Insert/Transfer.antt =====
-- What `InsertFromBuffer` does once its checks are passed.
use native.Mathlib.Nat.{mul-le-mul_right, zero-mul}
use cxxaudio_utilities.Base.{
  ℕ, ◌+◌, ◌-◌, ◌*◌, ◌≤◌, ◌≡◌, refl, arith, inl, inr, true, false, ◌&&◌, Bool-cases, Option, some,
  List, length, min, leb, ◌==◌, if◌then◌else◌, add32, mul32, ◌>>=◌, ap, ◌∙◌, sym,
}
use cxxaudio_utilities.StreamDescription.{StreamDescription, equal}
use cxxaudio_utilities.BufferList.{
  AudioBuffer, BufferList, each, move_bytes, move_frames, copy_frames, set_frame_length,
}
use cxxaudio_utilities.BufferList.Trim.{mul-sub_right}
use cxxaudio_utilities.BufferList.Frames.{
  heads, contents, contents-heads, AllWide, Holds, Leaves, byte_size-le, byte_size,
  set_frame_length-Leaves,
}
use cxxaudio_utilities.BufferList.Insert.Rows.{inserted, each_still, Inserted, each-Inserted}

-- How many frames are inserted: as many as there are, are asked for, and have room, and none if
-- the formats differ or an offset is behind the end.
abbrev pub insertable : BufferList → BufferList → ℕ → ℕ → ℕ → ℕ
insertable this buffer read_offset frame_length write_offset =
    if equal this.format buffer.format
      && (leb read_offset buffer.frame_length && leb write_offset this.frame_length)
    then min (this.frame_capacity - this.frame_length)
        (min frame_length (buffer.frame_length - read_offset))
    else 0

unfoldable pub raw_count : BufferList → BufferList → ℕ → ℕ → ℕ
raw_count this buffer r f =
    min (this.frame_capacity - this.frame_length) (min f (buffer.frame_length - r))

-- What the code does after its checks, with `n` frames to insert.
unfoldable pub transfer : BufferList → BufferList → ℕ → ℕ → ℕ → Option (ℕ × BufferList)
transfer this buffer r w n =
    move_frames this (w + n) w (this.frame_length - w) >>= λ moved. copy_frames moved buffer w r n

pub equal-bytes_per_frame :
    (f g : StreamDescription) → equal f g ≡ true → f.bytes_per_frame ≡ g.bytes_per_frame
unfolding equal
equal-bytes_per_frame f g e = ground arith

module _ {b : BufferList} {bufs : List AudioBuffer} (v : Holds b bufs) where
  -- The move that is skipped when there are no frames might as well be made.
  pub move_frames-each :
      (to from n : ℕ)
      → to + n ≤ b.frame_capacity
      → from + n ≤ b.frame_capacity
      → let bpf = b.format.bytes_per_frame in
        move_frames b to from n ≡ (
          each (move_bytes (to * bpf) (from * bpf) (n * bpf)) bufs >>= λ bufs'.
          some (record b { list = some bufs' }))
  unfolding move_frames
  move_frames-each to from n tc fc =
      let bpf = b.format.bytes_per_frame in
      let same : some b ≡ some (record b { list = some bufs }) =
        ap (λ l. some (record b { list = l })) v.allocated in
      let to_size : mul32 to bpf ≡ to * bpf = byte_size v to (omega arith) in
      let from_size : mul32 from bpf ≡ from * bpf = byte_size v from (omega arith) in
      let size : mul32 n bpf ≡ n * bpf = byte_size v n (omega arith) in
      elim (Bool-cases (n == 0)) [
        | inl z ↦
            let zero_frames : n ≡ 0 = ground arith in
            let none_left : n * bpf ≡ 0 = ap (λ k. k * bpf) zero_frames ∙ zero-mul bpf in
            let still =
              each_still (b.frame_capacity * bpf) (to * bpf) (from * bpf) (n * bpf) bufs
                (inr none_left) (omega (arith, none_left, byte_size-le v to (omega arith)))
                (omega (arith, none_left, byte_size-le v from (omega arith))) v.wide in
            simp (z, still, same)
        | inr nz ↦ simp (nz, to_size, from_size, size, v.allocated)
      ]

  -- With no frames to insert nothing moves.
  pub move_frames-none :
      (w n : ℕ) → n ≡ 0 → w ≤ b.frame_length → move_frames b (w + n) w (b.frame_length - w) ≡ some b
  move_frames-none w n e le =
      let bpf = b.format.bytes_per_frame in
      let inside = v.within in
      let in_place : (w + n) * bpf ≡ w * bpf = ap (λ k. k * bpf) (omega (arith, e)) in
      let end : w * bpf + (b.frame_length - w) * bpf ≡ b.frame_length * bpf =
        rw (mul-sub_right bpf b.frame_length w) (omega (arith, mul-le-mul_right bpf le)) in
      let fits : w * bpf + (b.frame_length - w) * bpf ≤ b.frame_capacity * bpf =
        rw end (byte_size-le v b.frame_length inside) in
      let still =
        each_still (b.frame_capacity * bpf) ((w + n) * bpf) (w * bpf) ((b.frame_length - w) * bpf)
          bufs (inl in_place) (rw in_place fits) fits v.wide in
      let same : record b { list = some bufs } ≡ b =
        ap (λ l. record b { list = l }) (sym v.allocated) in
      simp (move_frames-each (w + n) w (b.frame_length - w) (omega (arith, e)) (omega arith), still)
        (ap some same)

  pub unchanged :
      (n : ℕ) (rows : List (List ℕ))
      → n ≡ 0
      → contents b ≡ rows
      → Leaves b b (b.frame_length + n) rows
  unchanged n rows e same = record {
    buffers = bufs;
    holds = v;
    now = same;
    new_length = omega (arith, e);
    same_format = refl;
    same_capacity = refl;
  }

module _ {this buffer : BufferList} {bufs source : List AudioBuffer} (v : Holds this bufs)
    (v' : Holds buffer source) where
  -- The move and the copies of an insertion of `n` frames.
  inserts :
      (r w n : ℕ)
      → length bufs ≡ length source
      → this.format.bytes_per_frame ≡ buffer.format.bytes_per_frame
      → w ≤ this.frame_length
      → this.frame_length + n ≤ this.frame_capacity
      → r + n ≤ buffer.frame_length
      → let bpf = this.format.bytes_per_frame in
        Inserted
          (this.frame_capacity * bpf)
          (w * bpf)
          (n * bpf)
          (this.frame_length * bpf)
          (r * bpf)
          (buffer.frame_length * bpf)
          bufs
          source
          (each (move_bytes ((w + n) * bpf) (w * bpf) ((this.frame_length - w) * bpf)) bufs)
  inserts r w n same bpfs le room there =
      let bpf = this.format.bytes_per_frame in
      let above : (w + n) * bpf ≡ w * bpf + n * bpf = omega arith in
      let end : this.frame_length * bpf + n * bpf ≡ (this.frame_length + n) * bpf = omega arith in
      let source_end : r * bpf + n * bpf ≡ (r + n) * bpf = omega arith in
      let inside = v'.within in
      let wide' : AllWide (buffer.frame_capacity * bpf) source = rw bpfs v'.wide in
      rw (above, mul-sub_right bpf this.frame_length w)
        (each-Inserted (this.frame_capacity * bpf) (w * bpf) (n * bpf) (this.frame_length * bpf)
          (r * bpf) (buffer.frame_length * bpf) (buffer.frame_capacity * bpf) bufs source same
          (mul-le-mul_right bpf le) (rw end (mul-le-mul_right bpf room))
          (rw source_end (mul-le-mul_right bpf there)) (mul-le-mul_right bpf inside) v.wide wide')

  -- The rows after the move, if there are no frames to insert.
  pub transfer-none :
      (r w n : ℕ) → n ≡ 0 → w ≤ this.frame_length → transfer this buffer r w n ≡ some (n, this)
  unfolding transfer copy_frames
  transfer-none r w n e le =
      let zero_count : n == 0 ≡ true = ground (arith, e) in
      simp (move_frames-none v w n e le, zero_count) (ap (λ k. some (k, this)) (sym e))

  pub transfer-some :
      (r w n : ℕ)
      → n == 0 ≡ false
      → length bufs ≡ length source
      → this.format.bytes_per_frame ≡ buffer.format.bytes_per_frame
      → w ≤ this.frame_length
      → this.frame_length + n ≤ this.frame_capacity
      → r + n ≤ buffer.frame_length
      → let bpf = this.format.bytes_per_frame in
        (this' : BufferList) × (transfer this buffer r w n ≡ some (n, this'))
        × Leaves this this'
            (this.frame_length + n)
            (inserted (w * bpf) (r * bpf) (n * bpf) (contents this) (contents buffer))
  unfolding transfer copy_frames
  transfer-some r w n some_left same bpfs le room there =
      let bpf = this.format.bytes_per_frame in
      let inside = v'.within in
      let fits = v.frames_fit in
      let ins = inserts r w n same bpfs le room there in
      let w_size : mul32 w bpf ≡ w * bpf = byte_size v w (omega arith) in
      let n_size : mul32 n bpf ≡ n * bpf = byte_size v n (omega arith) in
      let r_size : mul32 r bpf ≡ r * bpf = rw bpfs (byte_size v' r (omega arith)) in
      let longer : add32 this.frame_length n ≡ this.frame_length + n = ground arith in
      let done : Holds (record this { list = some ins.out }) ins.out = record {
        allocated = refl;
        wide = ins.wide;
        bytes_fit = v.bytes_fit;
        frames_fit = v.frames_fit;
        within = v.within;
      } in
      let after = set_frame_length-Leaves done (this.frame_length + n) room in
      let whole : (this.frame_length + n) * bpf ≡ this.frame_length * bpf + n * bpf = omega arith in
      let source_rows : contents buffer ≡ heads (buffer.frame_length * bpf) source =
        rw bpfs (contents-heads v') in
      (
        (set_frame_length (record this { list = some ins.out }) (this.frame_length + n)).1,
        simp (
          move_frames-each v (w + n) w (this.frame_length - w) (omega arith) (omega arith),
          ins.moves,
          some_left,
          v'.allocated,
          w_size,
          r_size,
          n_size,
          ins.copies,
          longer,
        ),
        record {
          buffers = after.buffers;
          holds = after.holds;
          now = after.now ∙ rw (contents-heads v, source_rows, whole) ins.rows;
          new_length = after.new_length;
          same_format = after.same_format;
          same_capacity = after.same_capacity;
        },
      )
